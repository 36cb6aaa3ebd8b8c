-- ===== src/Nursery/Sweep.antt =====
-- `createSweepTx` and `populateSweepTx` (lnd/utxonursery.go), over the wallet.
pub mod Sorting
pub mod Signed
use lndmobile.Prelude.{ℕ, ◌==◌, Option, none, some, List, [], ◌∷◌, ◌++◌, map, length, if◌then◌else◌}
use lndmobile.Prelude.Int.{ℤ, pos, sub64}
use lndmobile.Prelude.Exec.{Exec, ◌>>=◌, ◌>>◌}
use lndmobile.Wire.{Bytes}
use lndmobile.Nursery.Output.{KidOutput, BreachedOutput}
use lndmobile.Breach.Wallet.{
  Wallet, TxIn, Txn, call, commitment_time_lock, htlc_offered_timeout_second_level,
  htlc_accepted_success_second_level, htlc_offered_remote_timeout,
}
use lndmobile.Breach.Justice.{total_amount, add_witnesses}

-- The two kinds of spendable outputs.
pub data Lock : Type 0 where
  csv cltv : Lock

abbrev pub breached_outputs : List KidOutput → List BreachedOutput
breached_outputs = map (λ o. o.breached)

abbrev pub csv_input : KidOutput → TxIn
csv_input o = record {
  previous_out_point = o.out_point;
  sequence = o.blocks_to_maturity;
  witness = [];
}

abbrev pub cltv_input : KidOutput → TxIn
cltv_input o = record { previous_out_point = o.out_point; sequence = 0; witness = [] }

abbrev pub sweep_lock_time : ℕ → List KidOutput → ℕ
sweep_lock_time class_height [] = 0
sweep_lock_time class_height (o ∷ os) = class_height

abbrev pub unsigned_sweep : ℕ → Bytes → ℤ → List KidOutput → List KidOutput → Txn
unsigned_sweep class_height script amt csv_inputs cltv_inputs = record {
  lock_time = sweep_lock_time class_height cltv_inputs;
  tx_out = record { value = amt; pk_script = script } ∷ [];
  tx_in = map csv_input csv_inputs ++ map cltv_input cltv_inputs;
}

module _ {World : Type 0} (wallet : Wallet World) where
  open wallet use {
    gen_sweep_script, estimate_fee_per_vsize, fee_for_vsize, Estimator, no_weight, add_p2wkh_output,
    add_witness_input, vsize, check_transaction_sanity, to_local_timeout_witness_size,
    second_level_htlc_success_witness_size, accepted_htlc_timeout_witness_size,
  }

  -- The size of a witness, and the outputs that it goes with; an output of another type is skipped.
  unfoldable pub input_class : ℕ → Option (ℕ × Lock)
  input_class t =
      if t == commitment_time_lock
      then some (to_local_timeout_witness_size, csv)
      else (if t == htlc_offered_timeout_second_level
          then some (second_level_htlc_success_witness_size, csv)
          else (if t == htlc_accepted_success_second_level
              then some (second_level_htlc_success_witness_size, csv)
              else (if t == htlc_offered_remote_timeout
                  then some (accepted_htlc_timeout_witness_size, cltv)
                  else none)))

  -- The weight, the CSV outputs and the CLTV outputs.
  pub record Sorted : Type 0 where
    pub weight_estimate : Estimator
    pub csv_outputs : List KidOutput
    pub cltv_outputs : List KidOutput

  abbrev pub sort_output : Option (ℕ × Lock) → KidOutput → Sorted → Sorted
  sort_output none o s = s
  sort_output (some (size, csv)) o s = record s {
    weight_estimate = add_witness_input size s.weight_estimate;
    csv_outputs = s.csv_outputs ++ o ∷ [];
  }
  sort_output (some (size, cltv)) o s = record s {
    weight_estimate = add_witness_input size s.weight_estimate;
    cltv_outputs = s.cltv_outputs ++ o ∷ [];
  }

  unfoldable pub sort_outputs : List KidOutput → Sorted → Sorted
  unfolding input_class
  sort_outputs [] s = s
  sort_outputs (o ∷ os) s = sort_outputs os (sort_output (input_class o.breached.witness_type) o s)

  abbrev pub sweep_amount : ℤ → List KidOutput → List KidOutput → ℤ → ℤ
  unfolding total_amount
  sweep_amount tx_vsize csv_inputs cltv_inputs rate =
      sub64
        (total_amount (total_amount (pos 0) (breached_outputs csv_inputs))
          (breached_outputs cltv_inputs))
        (fee_for_vsize rate tx_vsize)

  -- `populateSweepTx` from the rate on.
  unfoldable pub fill_sweep : ℤ → ℕ → List KidOutput → List KidOutput → Bytes → ℤ → Exec ℕ World Txn
  unfolding add_witnesses
  fill_sweep tx_vsize class_height csv_inputs cltv_inputs script rate =
      let txn =
        unsigned_sweep class_height script (sweep_amount tx_vsize csv_inputs cltv_inputs rate)
          csv_inputs cltv_inputs in
      call (λ w. (check_transaction_sanity txn, w))
      >> (add_witnesses wallet 0 (breached_outputs csv_inputs) txn
          >>= add_witnesses wallet (length csv_inputs) (breached_outputs cltv_inputs))

  unfoldable pub populate_sweep_tx : ℤ → ℕ → List KidOutput → List KidOutput → Exec ℕ World Txn
  unfolding fill_sweep
  populate_sweep_tx tx_vsize class_height csv_inputs cltv_inputs = do
    script ← call gen_sweep_script
    rate ← call (estimate_fee_per_vsize 6)
    fill_sweep tx_vsize class_height csv_inputs cltv_inputs script rate

  abbrev pub unsorted : Sorted
  unsorted = record {
    weight_estimate = add_p2wkh_output no_weight;
    csv_outputs = [];
    cltv_outputs = [];
  }

  unfoldable pub create_sweep_tx : List KidOutput → ℕ → Exec ℕ World Txn
  unfolding sort_outputs populate_sweep_tx
  create_sweep_tx kgtn_outputs class_height =
      let s = sort_outputs kgtn_outputs unsorted in
      populate_sweep_tx (vsize s.weight_estimate) class_height s.csv_outputs s.cltv_outputs
