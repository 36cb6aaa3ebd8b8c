-- ===== src/Breach/Retribution/Samples.antt =====
-- A wallet for examples (lnd/breacharbiter.go takes one in its configuration).
use lndmobile.Prelude.{ℕ, suc, ◌+◌, [], ◌∷◌}
use lndmobile.Prelude.Int.{pos, mul64}
use lndmobile.Prelude.Exec.{value}
use lndmobile.Codec.Plain.{zeros}
use lndmobile.Breach.Wallet.{Wallet}

-- A wallet whose signer signs everything, over worlds that count its calls.
abbrev pub wallet : Wallet ℕ
wallet = record {
  gen_sweep_script = λ n. (value (8 ∷ []), suc n);
  estimate_fee_per_vsize = λ blocks n. (value (pos 2), suc n);
  fee_for_vsize = mul64;
  Estimator = ℕ;
  no_weight = 0;
  add_p2wkh_output = λ e. e + 100;
  add_witness_input = λ size e. e + size;
  vsize = pos;
  p2wkh_witness_size = 100;
  to_local_penalty_witness_size = 200;
  offered_htlc_penalty_witness_size = 300;
  accepted_htlc_penalty_witness_size = 400;
  second_level_htlc_penalty_witness_size = 500;
  to_local_timeout_witness_size = 600;
  second_level_htlc_success_witness_size = 700;
  accepted_htlc_timeout_witness_size = 800;
  check_transaction_sanity = λ txn. value tt;
  gen_witness = λ t d txn idx n. (value ((t ∷ idx ∷ []) ∷ []), suc n);
  tx_hash = λ tx. zeros 32;
  output_value = λ d. pos 9000;
  set_output_value = λ v d. d;
  set_witness_script = λ s d. d;
}
