-- ===== src/Nursery/Output/Tests.antt =====
-- The codecs at concrete outputs, with one byte for a transaction and for a sign descriptor.
use lndmobile.Prelude.{◌≡◌, true, [], ◌∷◌, ◌++◌, arith, refl}
use lndmobile.Prelude.Int.{negsuc}
use lndmobile.Prelude.Exec.{ok}
use lndmobile.Nursery.Output.{KidOutput, BabyOutput}
use lndmobile.Codec.Plain.{plain, zeros}
use lndmobile.Nursery.Output.Codec.{encode_baby, decode_baby}
use lndmobile.Nursery.Output.Codec.RoundTrip.{Encodable, encoded_part, decode_baby-encode_baby}

abbrev commitment : KidOutput
commitment = record {
  breached = record {
    amt = negsuc 4;
    out_point = record { hash = zeros 32; index = 1 };
    witness_type = 300;
    sign_desc = 6 ∷ [];
    second_level_witness_script = 5 ∷ [];
  };
  origin_chan_point = record { hash = zeros 32; index = 70000 };
  is_htlc = true;
  blocks_to_maturity = 144;
  absolute_maturity = 0;
  conf_height = 100000;
}

commitment-Encodable : Encodable plain commitment
commitment-Encodable = record {
  amt = omega arith;
  hash = refl;
  index = omega arith;
  chan_hash = refl;
  chan_index = omega arith;
  blocks_to_maturity = omega arith;
  absolute_maturity = omega arith;
  conf_height = omega arith;
  witness_type = omega arith;
  sign_desc = refl;
}

abbrev htlc : BabyOutput
htlc = record { expiry = 500000; timeout_tx = 3 ∷ []; kid = commitment }

decode_baby_example :
    decode_baby plain (encode_baby plain htlc ++ [])
    ≡ (ok (record htlc { kid = encoded_part plain commitment }), [])
decode_baby_example = decode_baby-encode_baby plain htlc [] commitment-Encodable (omega arith) refl
