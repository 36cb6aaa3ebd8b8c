-- ===== src/Nursery/Output/Codec/RoundTrip.antt =====
-- `Decode` after `Encode` (lnd/utxonursery.go), step by step.
use lndmobile.Prelude.{
  ℕ, ◌%◌, ◌^◌, ◌<◌, ◌≡◌, ◌==◌, not, Bool, true, false, [], ◌∷◌, ◌++◌, length, if◌then◌else◌, refl,
  ap, ◌∙◌,
}
use mathlib.Core.List.{append_assoc}
use lndmobile.Prelude.Int.{from_word}
use lndmobile.Prelude.Exec.{runs, ok, pure, ◌>>=◌}
use lndmobile.Wire.{Bytes}
use lndmobile.Nursery.Output.{KidOutput, BabyOutput}
use lndmobile.Codec.{
  Reader, WireCodec, put_uint16, put_uint32, put_uint64, uint32, to_uint64, fill, read, read_bool,
  drop, limit_reader, write_outpoint, read_outpoint,
}
use lndmobile.Codec.Laws.{
  uint16-put, uint32-put, uint64-put, from_word-to_uint64, to_uint64_bound, limited_outpoint,
  IsInt64,
}
use lndmobile.Nursery.Output.Codec.{
  read_origin, read_fields, kid_of, encode_kid, decode_kid, encode_baby, decode_baby,
}

bool_byte : (b : Bool) → not ((if b then 1 else 0) == 0) ≡ b
bool_byte true = refl
bool_byte false = refl

module _ (codec : WireCodec) where
  -- The outputs that the encoding can represent.
  pub record Encodable (k : KidOutput) : Type 0 where
    pub amt : IsInt64 k.breached.amt
    pub hash : length k.out_point.hash ≡ 32
    pub index : k.out_point.index < 2 ^ 32
    pub chan_hash : length k.origin_chan_point.hash ≡ 32
    pub chan_index : k.origin_chan_point.index < 2 ^ 32
    pub blocks_to_maturity : k.blocks_to_maturity < 2 ^ 32
    pub absolute_maturity : k.absolute_maturity < 2 ^ 32
    pub conf_height : k.conf_height < 2 ^ 32
    pub witness_type : k.breached.witness_type < 2 ^ 16
    pub sign_desc : codec.IsSignDescriptor k.breached.sign_desc

  -- The witness script of the second level is not encoded.
  abbrev pub encoded_part : KidOutput → KidOutput
  encoded_part k = record k { breached = record k.breached { second_level_witness_script = [] } }

  -- The fields after the outpoints.
  abbrev fixed : KidOutput → Bytes → Bytes
  fixed k rest =
      (if k.is_htlc then 1 else 0)
      ∷ (put_uint32 k.blocks_to_maturity
          ++ (put_uint32 k.absolute_maturity
              ++ (put_uint32 k.conf_height
                  ++ (put_uint16 k.breached.witness_type ++ (k.breached.sign_desc ++ rest)))))

  encode_kid-append :
      (k : KidOutput) (rest : Bytes)
      → encode_kid codec k ++ rest
        ≡ put_uint64 (to_uint64 k.breached.amt)
          ++ (write_outpoint codec k.out_point
              ++ (write_outpoint codec k.origin_chan_point ++ fixed k rest))
  unfolding encode_kid
  encode_kid-append k rest = simp append_assoc refl

  abbrev amount_bytes : KidOutput → Bytes
  amount_bytes k = put_uint64 (to_uint64 k.breached.amt)

  -- The scratch space of the amount, with a number written over its beginning.
  abbrev over : KidOutput → ℕ → Bytes
  over k n = put_uint32 n ++ put_uint32 (to_uint64 k.breached.amt % 2 ^ 32)

  abbrev read_kid : KidOutput → Bytes → KidOutput
  read_kid k d =
      kid_of (amount_bytes k) k.out_point k.origin_chan_point
        (not ((if k.is_htlc then 1 else 0) == 0)) (over k k.blocks_to_maturity)
        (over k k.absolute_maturity) (over k k.conf_height)
        (put_uint16 k.breached.witness_type ++ drop 2 (over k k.conf_height)) d

  fields_lem :
      (k : KidOutput) (rest : Bytes)
      → Encodable k
      → read_fields codec (amount_bytes k) k.out_point k.origin_chan_point (fixed k rest)
        ≡ (ok (read_kid k k.breached.sign_desc), rest)
  unfolding read fill read_bool put_uint64 put_uint32 put_uint16
  fields_lem k rest e =
      runs codec.read_sign_descriptor (λ d. pure (read_kid k d))
        (codec.read_sign_descriptor_lem k.breached.sign_desc rest e.sign_desc)

  read_kid-eq : (k : KidOutput) → Encodable k → read_kid k k.breached.sign_desc ≡ encoded_part k
  read_kid-eq k e =
      let a =
        ap from_word (uint64-put (to_uint64 k.breached.amt) (to_uint64_bound k.breached.amt))
        ∙ from_word-to_uint64 k.breached.amt e.amt in
      let tail = put_uint32 (to_uint64 k.breached.amt % 2 ^ 32) in
      rw
        (
          a,
          uint32-put k.blocks_to_maturity tail e.blocks_to_maturity,
          uint32-put k.absolute_maturity tail e.absolute_maturity,
          uint32-put k.conf_height tail e.conf_height,
          uint16-put k.breached.witness_type (drop 2 (over k k.conf_height)) e.witness_type,
          bool_byte k.is_htlc,
        )
        refl

  -- Decoding what was encoded gives the output again, except for its witness script, and stops at
  -- the end of it, if the output can be encoded.
  pub decode_kid-encode_kid :
      (k : KidOutput) (rest : Bytes)
      → Encodable k
      → decode_kid codec (encode_kid codec k ++ rest) ≡ (ok (encoded_part k), rest)
  unfolding decode_kid read fill put_uint64 put_uint32
  decode_kid-encode_kid k rest e =
      ap (decode_kid codec) (encode_kid-append k rest)
      ∙ runs (limit_reader 40 (read_outpoint codec)) (read_origin codec (amount_bytes k)) (
          limited_outpoint codec k.out_point
            (write_outpoint codec k.origin_chan_point ++ fixed k rest) e.hash e.index)
      ∙ runs (limit_reader 40 (read_outpoint codec))
          (read_fields codec (amount_bytes k) k.out_point)
          (limited_outpoint codec k.origin_chan_point (fixed k rest) e.chan_hash e.chan_index)
      ∙ fields_lem k rest e
      ∙ ap (λ x. (ok x, rest)) (read_kid-eq k e)

  abbrev baby_of : BabyOutput → Bytes → KidOutput → BabyOutput
  baby_of b tx k = record { expiry = uint32 (put_uint32 b.expiry ++ []); timeout_tx = tx; kid = k }

  abbrev after_tx : BabyOutput → Bytes → Reader BabyOutput
  after_tx b tx = decode_kid codec >>= λ k. pure (baby_of b tx k)

  abbrev after_expiry : BabyOutput → Reader BabyOutput
  after_expiry b = codec.deserialize_tx >>= after_tx b

  -- Decoding an encoded output of the crib gives it again, except for its witness script, and stops
  -- at the end of it, if its parts can be encoded and its expiry is a `uint32`.
  pub decode_baby-encode_baby :
      (b : BabyOutput) (rest : Bytes)
      → Encodable b.kid
      → b.expiry < 2 ^ 32
      → codec.IsTx b.timeout_tx
      → decode_baby codec (encode_baby codec b ++ rest)
        ≡ (ok (record b { kid = encoded_part b.kid }), rest)
  unfolding decode_baby encode_baby read fill put_uint32
  decode_baby-encode_baby b rest e h t =
      let kid_bytes = encode_kid codec b.kid in
      ap (after_expiry b) (append_assoc b.timeout_tx kid_bytes rest)
      ∙ runs codec.deserialize_tx (after_tx b)
          (codec.deserialize_tx_lem b.timeout_tx (kid_bytes ++ rest) t)
      ∙ runs (decode_kid codec) (λ k. pure (baby_of b b.timeout_tx k))
          (decode_kid-encode_kid b.kid rest e)
      ∙ ap (λ i. (ok (record b { expiry = i; kid = encoded_part b.kid }), rest))
          (uint32-put b.expiry [] h)
