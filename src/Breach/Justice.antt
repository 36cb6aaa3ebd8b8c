-- ===== src/Breach/Justice.antt =====
-- `newRetributionInfo`, `createJusticeTx`, `sweepSpendableOutputsTxn` and
-- `convertToSecondLevelRevoke` (lnd/breacharbiter.go).
pub mod Signing
pub mod Sweep
use lndmobile.Prelude.{
  ℕ, suc, ◌+◌, zero, ◌==◌, Bool, true, false, Option, none, some, List, [], ◌∷◌, ◌++◌, map,
  if◌then◌else◌,
}
use lndmobile.Prelude.Int.{ℤ, pos, add64, sub64}
use lndmobile.Prelude.Exec.{Result, ok, err, panic, Exec, pure, crash, ◌>>=◌, ◌>>◌}
use lndmobile.Wire.{Bytes, OutPoint}
use lndmobile.Nursery.Output.{BreachedOutput}
use lndmobile.Breach.Info.{RetributionInfo}
use lndmobile.Breach.Wallet.{
  HtlcRetribution, BreachRetribution, Wallet, TxOut, TxIn, Txn, call, commitment_no_delay,
  commitment_revoke, htlc_offered_revoke, htlc_accepted_revoke, htlc_second_level_revoke,
}

unfoldable pub total_amount : ℤ → List BreachedOutput → ℤ
total_amount total [] = total
total_amount total (o ∷ os) = total_amount (add64 total o.amt) os

abbrev pub unsigned_input : BreachedOutput → TxIn
unsigned_input o = record { previous_out_point = o.out_point; sequence = 0; witness = [] }

-- An index that is out of range panics.
unfoldable pub set_witness : ℕ → List Bytes → List TxIn → Option (List TxIn)
set_witness n w [] = none
set_witness zero w (x ∷ xs) = some (record x { witness = w } ∷ xs)
set_witness (suc n) w (x ∷ xs) = elim (set_witness n w xs) [ none ↦ none | some ys ↦ some (x ∷ ys) ]

abbrev pub unsigned_txn : Bytes → ℤ → List BreachedOutput → Txn
unsigned_txn script amt inputs = record {
  lock_time = 0;
  tx_out = record { value = amt; pk_script = script } ∷ [];
  tx_in = map unsigned_input inputs;
}

module _ {World : Type 0} (wallet : Wallet World) where
  open wallet use {
    gen_sweep_script, estimate_fee_per_vsize, fee_for_vsize, Estimator, no_weight, add_p2wkh_output,
    add_witness_input, vsize, p2wkh_witness_size, to_local_penalty_witness_size,
    offered_htlc_penalty_witness_size, accepted_htlc_penalty_witness_size,
    second_level_htlc_penalty_witness_size, check_transaction_sanity, gen_witness, tx_hash,
    output_value, set_output_value, set_witness_script,
  }

  unfoldable pub make_breached_output : OutPoint → ℕ → Bytes → Bytes → BreachedOutput
  make_breached_output outpoint witness_type script sign_desc = record {
    amt = output_value sign_desc;
    out_point = outpoint;
    witness_type = witness_type;
    sign_desc = sign_desc;
    second_level_witness_script = script;
  }

  -- An output of the commitment, unless it is dust.
  unfoldable pub commitment_output : OutPoint → ℕ → Option Bytes → List BreachedOutput
  unfolding make_breached_output
  commitment_output outpoint witness_type none = []
  commitment_output outpoint witness_type (some d) =
      make_breached_output outpoint witness_type [] d ∷ []

  unfoldable pub htlc_output : HtlcRetribution → BreachedOutput
  unfolding make_breached_output
  htlc_output h =
      make_breached_output h.out_point
        (if h.is_incoming then htlc_accepted_revoke else htlc_offered_revoke)
        h.second_level_witness_script h.sign_desc

  unfoldable pub new_retribution_info : OutPoint → BreachRetribution → RetributionInfo
  unfolding commitment_output htlc_output
  new_retribution_info chan_point b = record {
    commit_hash = tx_hash b.breach_transaction;
    chan_point = chan_point;
    chain_hash = b.chain_hash;
    breach_height = b.breach_height;
    breached_outputs =
        commitment_output b.local_outpoint commitment_no_delay b.local_output_sign_desc
        ++ (commitment_output b.remote_outpoint commitment_revoke b.remote_output_sign_desc
            ++ map htlc_output b.htlc_retributions);
  }

  -- The size of a witness; an output of another type is left out of the transaction.
  unfoldable pub witness_weight : ℕ → Option ℕ
  witness_weight t =
      if t == commitment_no_delay
      then some p2wkh_witness_size
      else (if t == commitment_revoke
          then some to_local_penalty_witness_size
          else (if t == htlc_offered_revoke
              then some offered_htlc_penalty_witness_size
              else (if t == htlc_accepted_revoke
                  then some accepted_htlc_penalty_witness_size
                  else (if t == htlc_second_level_revoke
                      then some second_level_htlc_penalty_witness_size
                      else none))))

  -- What the loop of `createJusticeTx` does with an output.
  abbrev pub weigh :
      Option ℕ → BreachedOutput → Estimator × List BreachedOutput → Estimator × List BreachedOutput
  weigh none o acc = acc
  weigh (some n) o (e, outputs) = (add_witness_input n e, outputs ++ o ∷ [])

  unfoldable pub spendable_outputs :
      List BreachedOutput → Estimator × List BreachedOutput → Estimator × List BreachedOutput
  unfolding witness_weight
  spendable_outputs [] acc = acc
  spendable_outputs (o ∷ os) acc =
      spendable_outputs os (weigh (witness_weight o.witness_type) o acc)

  abbrev pub attach : Txn → Option (List TxIn) → Exec ℕ World Txn
  attach txn none = crash
  attach txn (some ins) = pure (record txn { tx_in = ins })

  unfoldable pub add_witness : ℕ → BreachedOutput → Txn → Exec ℕ World Txn
  unfolding set_witness
  add_witness idx o txn = do
    w ← call (gen_witness o.witness_type o.sign_desc txn idx)
    attach txn (set_witness idx w txn.tx_in)

  unfoldable pub add_witnesses : ℕ → List BreachedOutput → Txn → Exec ℕ World Txn
  unfolding add_witness
  add_witnesses idx [] txn = pure txn
  add_witnesses idx (o ∷ os) txn = add_witness idx o txn >>= add_witnesses (suc idx) os

  -- `sweepSpendableOutputsTxn` from the rate on.
  unfoldable pub sign_sweep : ℤ → List BreachedOutput → Bytes → ℤ → Exec ℕ World Txn
  unfolding total_amount add_witnesses
  sign_sweep tx_vsize inputs script rate =
      let txn =
        unsigned_txn script (sub64 (total_amount (pos 0) inputs) (fee_for_vsize rate tx_vsize))
          inputs in
      call (λ w. (check_transaction_sanity txn, w)) >> add_witnesses 0 inputs txn

  unfoldable pub sweep_spendable_outputs_txn : ℤ → List BreachedOutput → Exec ℕ World Txn
  unfolding sign_sweep
  sweep_spendable_outputs_txn tx_vsize inputs = do
    script ← call gen_sweep_script
    rate ← call (estimate_fee_per_vsize 2)
    sign_sweep tx_vsize inputs script rate

  unfoldable pub create_justice_tx : RetributionInfo → Exec ℕ World Txn
  unfolding spendable_outputs sweep_spendable_outputs_txn
  create_justice_tx r =
      let (weight, outputs) =
        spendable_outputs r.breached_outputs (add_p2wkh_output no_weight, []) in
      sweep_spendable_outputs_txn (vsize weight) outputs

  -- The hash of the spending transaction, and the value of its first output.
  unfoldable pub convert_to_second_level_revoke : Bytes → ℤ → BreachedOutput → BreachedOutput
  convert_to_second_level_revoke txid new_amt bo = record bo {
    witness_type = htlc_second_level_revoke;
    out_point = record { hash = txid; index = 0 };
    amt = new_amt;
    sign_desc =
        set_witness_script bo.second_level_witness_script (set_output_value new_amt bo.sign_desc);
  }
