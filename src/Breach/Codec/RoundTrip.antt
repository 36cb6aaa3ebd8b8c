-- ===== src/Breach/Codec/RoundTrip.antt =====
-- `Decode` after `Encode` (lnd/breacharbiter.go), step by step.
use lndmobile.Prelude.{
  ℕ, suc, ◌^◌, ◌<◌, ◌≤◌, ◌≡◌, List, [], ◌∷◌, ◌++◌, length, All, lt→ltb, arith, refl, ap, ◌∙◌,
}
use mathlib.Core.List.{append_assoc, append-nil}
use lndmobile.Prelude.Int.{from_word}
use lndmobile.Prelude.Exec.{runs, ok, pure, ◌>>=◌}
use lndmobile.Wire.{Bytes}
use lndmobile.Codec.{
  Reader, WireCodec, put_uint16, put_uint32, put_uint64, to_uint64, read_full, drop, write_outpoint,
  read_outpoint,
}
use lndmobile.Codec.Laws.{
  uint16-put, uint32-put, uint64-put, from_word-to_uint64, to_uint64_bound, IsInt64, drop-append,
  read_full_lem, read-write_outpoint, IsPoint,
}
use lndmobile.Nursery.Output.{BreachedOutput}
use lndmobile.Breach.Info.{RetributionInfo}
use lndmobile.Breach.Codec.{
  zeros8, zeros32, encode_output, decode_output, encode_outputs, decode_outputs, encode_info,
  decode_info, make_outputs, output_of, info_of, read_type, read_script, read_desc, read_point,
  read_outputs, read_count, read_height, read_chain, read_chan_point,
}

module _ (codec : WireCodec) where
  -- The outputs that the encoding can represent.
  pub record EncodableOutput (o : BreachedOutput) : Type 0 where
    pub amt : IsInt64 o.amt
    pub point : IsPoint codec o.out_point
    pub sign_desc : codec.IsSignDescriptor o.sign_desc
    pub script : length o.second_level_witness_script ≤ 1000
    pub witness_type : o.witness_type < 2 ^ 16

  -- The retributions that it can represent.
  pub record Encodable (r : RetributionInfo) : Type 0 where
    pub commit_hash : length r.commit_hash ≡ 32
    pub point : IsPoint codec r.chan_point
    pub chain_hash : length r.chain_hash ≡ 32
    pub breach_height : r.breach_height < 2 ^ 32
    pub outputs : All EncodableOutput r.breached_outputs
    pub count : length r.breached_outputs < 2 ^ 63

  abbrev amount : BreachedOutput → Bytes
  amount o = put_uint64 (to_uint64 o.amt)

  encode_output-append :
      (o : BreachedOutput) (rest : Bytes)
      → encode_output codec o ++ rest
        ≡ amount o
          ++ (write_outpoint codec o.out_point
              ++ (o.sign_desc
                  ++ (codec.write_var_bytes o.second_level_witness_script
                      ++ (put_uint16 o.witness_type ++ rest))))
  unfolding encode_output
  encode_output-append o rest = simp append_assoc refl

  output_eq :
      (o : BreachedOutput)
      → EncodableOutput o
      → output_of
          (amount o)
          o.out_point
          o.sign_desc
          o.second_level_witness_script
          (put_uint16 o.witness_type ++ drop 2 (amount o))
        ≡ o
  output_eq o e =
      let a =
        ap from_word (uint64-put (to_uint64 o.amt) (to_uint64_bound o.amt))
        ∙ from_word-to_uint64 o.amt e.amt in
      rw (a, uint16-put o.witness_type (drop 2 (amount o)) e.witness_type) refl

  decode-encode_output :
      (o : BreachedOutput) (rest : Bytes)
      → EncodableOutput o
      → decode_output codec (encode_output codec o ++ rest) ≡ (ok o, rest)
  unfolding decode_output put_uint64 put_uint32 put_uint16
  decode-encode_output o rest e =
      let last = put_uint16 o.witness_type ++ rest in
      let script = codec.write_var_bytes o.second_level_witness_script ++ last in
      let desc = o.sign_desc ++ script in
      ap (decode_output codec) (encode_output-append o rest)
      ∙ runs (read_full 8 zeros8) (read_point codec) (
          read_full_lem 7 (amount o) (write_outpoint codec o.out_point ++ desc) zeros8 refl
            (omega arith))
      ∙ runs (read_outpoint codec) (read_desc codec (amount o))
          (read-write_outpoint codec o.out_point desc e.point)
      ∙ runs codec.read_sign_descriptor (read_script codec (amount o) o.out_point)
          (codec.read_sign_descriptor_lem o.sign_desc script e.sign_desc)
      ∙ runs (codec.read_var_bytes 1000) (read_type codec (amount o) o.out_point o.sign_desc)
          (codec.read-write_var_bytes 1000 o.second_level_witness_script last e.script)
      ∙ runs (read_full 2 (amount o))
          (λ s. pure (output_of (amount o) o.out_point o.sign_desc o.second_level_witness_script s))
          (read_full_lem 1 (put_uint16 o.witness_type) rest (amount o) refl (omega arith))
      ∙ ap (λ x. (ok x, rest)) (output_eq o e)

  encode_outputs-append :
      (o : BreachedOutput) (os : List BreachedOutput) (rest : Bytes)
      → encode_outputs codec (o ∷ os) ++ rest
        ≡ encode_output codec o ++ (encode_outputs codec os ++ rest)
  unfolding encode_outputs
  encode_outputs-append o os rest =
      append_assoc (encode_output codec o) (encode_outputs codec os) rest

  abbrev decode_rest : ℕ → BreachedOutput → Reader (List BreachedOutput)
  decode_rest n o = decode_outputs codec n >>= λ os. pure (o ∷ os)

  decode-encode_outputs :
      (os : List BreachedOutput) (rest : Bytes)
      → All EncodableOutput os
      → decode_outputs codec (length os) (encode_outputs codec os ++ rest) ≡ (ok os, rest)
  unfolding decode_outputs encode_outputs
  decode-encode_outputs [] rest a = refl
  decode-encode_outputs (o ∷ os) rest a =
      ap (decode_outputs codec (suc (length os))) (encode_outputs-append o os rest)
      ∙ runs (decode_output codec) (decode_rest (length os))
          (decode-encode_output o (encode_outputs codec os ++ rest) a.0)
      ∙ runs (decode_outputs codec (length os)) (λ xs. pure (o ∷ xs))
          (decode-encode_outputs os rest a.1)

  make_outputs_lem :
      (os : List BreachedOutput) (rest : Bytes)
      → All EncodableOutput os
      → length os < 2 ^ 63
      → make_outputs codec (length os) (encode_outputs codec os ++ rest) ≡ (ok os, rest)
  unfolding make_outputs
  make_outputs_lem os rest a h = rw (lt→ltb _ _ h) (decode-encode_outputs os rest a)

  encode_info-append :
      (r : RetributionInfo) (rest : Bytes)
      → encode_info codec r ++ rest
        ≡ r.commit_hash
          ++ (write_outpoint codec r.chan_point
              ++ (r.chain_hash
                  ++ (put_uint32 r.breach_height
                      ++ (codec.write_var_int (length r.breached_outputs)
                          ++ (encode_outputs codec r.breached_outputs ++ rest)))))
  unfolding encode_info
  encode_info-append r rest = simp append_assoc refl

  info_eq :
      (r : RetributionInfo)
      → Encodable r
      → (s1 s2 : Bytes) → s1 ≡ r.commit_hash
      → s2 ≡ r.chain_hash
      → info_of s1 r.chan_point s2 (put_uint32 r.breach_height ++ drop 4 s2) r.breached_outputs ≡ r
  info_eq r e s1 s2 p q =
      rw (p, q, uint32-put r.breach_height (drop 4 r.chain_hash) e.breach_height) refl

  -- Decoding an encoded retribution gives it again, with all of its outputs, and stops at the end of
  -- it, if the retribution can be encoded.
  pub decode_info-encode_info :
      (r : RetributionInfo) (rest : Bytes)
      → Encodable r
      → decode_info codec (encode_info codec r ++ rest) ≡ (ok r, rest)
  unfolding decode_info put_uint32
  decode_info-encode_info r rest e =
      let outputs = encode_outputs codec r.breached_outputs ++ rest in
      let count = codec.write_var_int (length r.breached_outputs) ++ outputs in
      let height = put_uint32 r.breach_height ++ count in
      let chain = r.chain_hash ++ height in
      let s1 = r.commit_hash ++ [] in
      let s2 = r.chain_hash ++ drop 32 s1 in
      let same1 : s1 ≡ r.commit_hash = append-nil r.commit_hash in
      let same2 : s2 ≡ r.chain_hash =
        ap (λ s. r.chain_hash ++ s)
          (drop-append 32 r.commit_hash [] 0 (omega (arith, e.commit_hash)))
        ∙ append-nil r.chain_hash in
      let long1 : 32 ≤ length s1 = rw same1 (omega (arith, e.commit_hash)) in
      let long2 : 4 ≤ length s2 = rw same2 (omega (arith, e.chain_hash)) in
      let s3 = put_uint32 r.breach_height ++ drop 4 s2 in
      ap (decode_info codec) (encode_info-append r rest)
      ∙ runs (read_full 32 zeros32) (read_chan_point codec) (
          read_full_lem 31 r.commit_hash (write_outpoint codec r.chan_point ++ chain) zeros32
            e.commit_hash (omega arith))
      ∙ runs (read_outpoint codec) (read_chain codec s1)
          (read-write_outpoint codec r.chan_point chain e.point)
      ∙ runs (read_full 32 s1) (read_height codec s1 r.chan_point)
          (read_full_lem 31 r.chain_hash height s1 e.chain_hash long1)
      ∙ runs (read_full 4 s2) (read_count codec s1 r.chan_point s2)
          (read_full_lem 3 (put_uint32 r.breach_height) count s2 refl (omega arith))
      ∙ runs codec.read_var_int (read_outputs codec s1 r.chan_point s2 s3)
          (codec.read-write_var_int (length r.breached_outputs) outputs (omega (arith, e.count)))
      ∙ runs (make_outputs codec (length r.breached_outputs))
          (λ os. pure (info_of s1 r.chan_point s2 s3 os))
          (make_outputs_lem r.breached_outputs rest e.outputs e.count)
      ∙ ap (λ x. (ok x, rest)) (info_eq r e s1 s2 same1 same2)
