-- ===== src/Nursery/Output/Codec.antt =====
-- The codecs of the nursery's outputs (lnd/utxonursery.go): `Encode` and `Decode` of `babyOutput` and
-- `kidOutput`.
pub mod RoundTrip
use lndmobile.Prelude.{
  ℕ, zero, suc, ◌+◌, ◌-◌, ◌*◌, ◌/◌, ◌%◌, ◌^◌, ◌≤◌, ◌<◌, ◌≡◌, ◌==◌, not, Bool, true, false, List, [],
  ◌∷◌, ◌++◌, length, if◌then◌else◌,
}
use lndmobile.Prelude.Int.{ℤ, pos, negsuc, from_word}
use lndmobile.Prelude.Exec.{Result, ok, err, panic, Exec, pure, ◌>>=◌, ◌>>◌}
use lndmobile.Wire.{Bytes, OutPoint, copy_to}
use lndmobile.Codec.{
  Reader, WireCodec, put_uint16, put_uint32, put_uint64, uint16, uint32, uint64, to_uint64, read,
  read_bool, limit_reader, write_outpoint, read_outpoint,
}
use lndmobile.Nursery.Output.{KidOutput, BabyOutput}

-- The output of what `kidOutput.Decode` has read.
abbrev pub kid_of :
    Bytes → OutPoint → OutPoint → Bool → Bytes → Bytes → Bytes → Bytes → Bytes → KidOutput
kid_of s0 outpoint origin_chan_point is_htlc s1 s2 s3 s4 sign_desc = record {
  breached = record {
    amt = from_word (uint64 s0);
    out_point = outpoint;
    witness_type = uint16 s4;
    sign_desc = sign_desc;
    second_level_witness_script = [];
  };
  origin_chan_point = origin_chan_point;
  is_htlc = is_htlc;
  blocks_to_maturity = uint32 s1;
  absolute_maturity = uint32 s2;
  conf_height = uint32 s3;
}

module _ (codec : WireCodec) where
  open codec use {deserialize_tx, read_sign_descriptor}

  unfoldable pub encode_kid : KidOutput → Bytes
  encode_kid k =
      put_uint64 (to_uint64 k.breached.amt)
      ++ (write_outpoint codec k.out_point
          ++ (write_outpoint codec k.origin_chan_point
              ++ ((if k.is_htlc then 1 else 0)
                  ∷ (put_uint32 k.blocks_to_maturity
                      ++ (put_uint32 k.absolute_maturity
                          ++ (put_uint32 k.conf_height
                              ++ (put_uint16 k.breached.witness_type ++ k.breached.sign_desc)))))))

  -- What follows the outpoints. The scratch space is that of the amount.
  abbrev pub read_fields : Bytes → OutPoint → OutPoint → Reader KidOutput
  read_fields s0 outpoint origin_chan_point = do
    is_htlc ← read_bool
    s1 ← read 4 s0
    s2 ← read 4 s1
    s3 ← read 4 s2
    s4 ← read 2 s3
    sign_desc ← read_sign_descriptor
    pure (kid_of s0 outpoint origin_chan_point is_htlc s1 s2 s3 s4 sign_desc)

  abbrev pub read_origin : Bytes → OutPoint → Reader KidOutput
  read_origin s0 outpoint = limit_reader 40 (read_outpoint codec) >>= read_fields s0 outpoint

  unfoldable pub decode_kid : Reader KidOutput
  decode_kid = do
    s0 ← read 8 (0 ∷ 0 ∷ 0 ∷ 0 ∷ 0 ∷ 0 ∷ 0 ∷ 0 ∷ [])
    outpoint ← limit_reader 40 (read_outpoint codec)
    read_origin s0 outpoint

  unfoldable pub encode_baby : BabyOutput → Bytes
  unfolding encode_kid
  encode_baby b = put_uint32 b.expiry ++ (b.timeout_tx ++ encode_kid b.kid)

  unfoldable pub decode_baby : Reader BabyOutput
  unfolding decode_kid
  decode_baby = do
    scratch ← read 4 (0 ∷ 0 ∷ 0 ∷ 0 ∷ [])
    tx ← deserialize_tx
    k ← decode_kid
    pure (record { expiry = uint32 scratch; timeout_tx = tx; kid = k })
