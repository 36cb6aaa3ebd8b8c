-- ===== src/Breach/Codec.antt =====
-- `Encode` and `Decode` of `retributionInfo` and `breachedOutput` (lnd/breacharbiter.go).
pub mod RoundTrip
use lndmobile.Prelude.{
  ℕ, zero, suc, ◌^◌, ltb, Bool, true, false, List, [], ◌∷◌, ◌++◌, length, if◌then◌else◌,
}
use lndmobile.Prelude.Int.{from_word}
use lndmobile.Prelude.Exec.{Result, ok, err, panic, Exec, pure, crash, ◌>>=◌, ◌>>◌}
use lndmobile.Wire.{Bytes, OutPoint}
use lndmobile.Codec.{
  Reader, WireCodec, put_uint16, put_uint32, put_uint64, uint16, uint32, uint64, to_uint64,
  read_full, take, write_outpoint, read_outpoint,
}
use lndmobile.Nursery.Output.{BreachedOutput}
use lndmobile.Breach.Info.{RetributionInfo}

abbrev pub zeros8 : Bytes
zeros8 = 0 ∷ 0 ∷ 0 ∷ 0 ∷ 0 ∷ 0 ∷ 0 ∷ 0 ∷ []

abbrev pub zeros32 : Bytes
zeros32 = zeros8 ++ (zeros8 ++ (zeros8 ++ zeros8))

-- The output of what `breachedOutput.Decode` has read.
abbrev pub output_of : Bytes → OutPoint → Bytes → Bytes → Bytes → BreachedOutput
output_of s0 outpoint sign_desc script s1 = record {
  amt = from_word (uint64 s0);
  out_point = outpoint;
  witness_type = uint16 s1;
  sign_desc = sign_desc;
  second_level_witness_script = script;
}

-- The retribution of what `retributionInfo.Decode` has read.
abbrev pub info_of : Bytes → OutPoint → Bytes → Bytes → List BreachedOutput → RetributionInfo
info_of commit_hash chan_point chain_hash height outputs = record {
  commit_hash = commit_hash;
  chan_point = chan_point;
  chain_hash = chain_hash;
  breach_height = uint32 height;
  breached_outputs = outputs;
}

module _ (codec : WireCodec) where
  open codec use {
    write_var_bytes, read_var_bytes, write_var_int, read_var_int, read_sign_descriptor,
  }

  unfoldable pub encode_output : BreachedOutput → Bytes
  encode_output o =
      put_uint64 (to_uint64 o.amt)
      ++ (write_outpoint codec o.out_point
          ++ (o.sign_desc
              ++ (write_var_bytes o.second_level_witness_script ++ put_uint16 o.witness_type)))

  -- `breachedOutput.Decode` after the amount, after the outpoint, and so on.
  abbrev pub read_type : Bytes → OutPoint → Bytes → Bytes → Reader BreachedOutput
  read_type s0 outpoint sign_desc script = do
    s1 ← read_full 2 s0
    pure (output_of s0 outpoint sign_desc script s1)

  abbrev pub read_script : Bytes → OutPoint → Bytes → Reader BreachedOutput
  read_script s0 outpoint sign_desc = read_var_bytes 1000 >>= read_type s0 outpoint sign_desc

  abbrev pub read_desc : Bytes → OutPoint → Reader BreachedOutput
  read_desc s0 outpoint = read_sign_descriptor >>= read_script s0 outpoint

  abbrev pub read_point : Bytes → Reader BreachedOutput
  read_point s0 = read_outpoint codec >>= read_desc s0

  unfoldable pub decode_output : Reader BreachedOutput
  decode_output = read_full 8 zeros8 >>= read_point

  unfoldable pub encode_outputs : List BreachedOutput → Bytes
  unfolding encode_output
  encode_outputs [] = []
  encode_outputs (o ∷ os) = encode_output o ++ encode_outputs os

  unfoldable pub decode_outputs : ℕ → Reader (List BreachedOutput)
  unfolding decode_output
  decode_outputs zero = pure []
  decode_outputs (suc n) = do o ← decode_output; os ← decode_outputs n; pure (o ∷ os)

  unfoldable pub encode_info : RetributionInfo → Bytes
  unfolding encode_outputs
  encode_info r =
      r.commit_hash
      ++ (write_outpoint codec r.chan_point
          ++ (r.chain_hash
              ++ (put_uint32 r.breach_height
                  ++ (write_var_int (length r.breached_outputs)
                      ++ encode_outputs r.breached_outputs))))

  -- A slice cannot have a negative length, to which a count of 2^63 or more is converted.
  unfoldable pub make_outputs : ℕ → Reader (List BreachedOutput)
  make_outputs n = if ltb n (2 ^ 63) then decode_outputs n else crash

  -- `retributionInfo.Decode` step by step.
  abbrev pub read_outputs : Bytes → OutPoint → Bytes → Bytes → ℕ → Reader RetributionInfo
  read_outputs commit_hash chan_point chain_hash height n =
      make_outputs n >>= λ outputs. pure (info_of commit_hash chan_point chain_hash height outputs)

  abbrev pub read_count : Bytes → OutPoint → Bytes → Bytes → Reader RetributionInfo
  read_count commit_hash chan_point chain_hash height =
      read_var_int >>= read_outputs commit_hash chan_point chain_hash height

  abbrev pub read_height : Bytes → OutPoint → Bytes → Reader RetributionInfo
  read_height commit_hash chan_point scratch =
      read_full 4 scratch >>= read_count commit_hash chan_point scratch

  abbrev pub read_chain : Bytes → OutPoint → Reader RetributionInfo
  read_chain scratch chan_point = read_full 32 scratch >>= read_height scratch chan_point

  abbrev pub read_chan_point : Bytes → Reader RetributionInfo
  read_chan_point scratch = read_outpoint codec >>= read_chain scratch

  unfoldable pub decode_info : Reader RetributionInfo
  unfolding decode_outputs
  decode_info = read_full 32 zeros32 >>= read_chan_point
