-- ===== src/Breach/Justice/Sweep.antt =====
-- What the justice transaction spends, and to what (`newRetributionInfo` and `createJusticeTx` of
-- lnd/breacharbiter.go).
use lndmobile.Prelude.{
  ℕ, ◌≡◌, true, false, Bool, Option, none, some, List, [], ◌∷◌, ◌++◌, map, All, refl, ap, sym, ◌∙◌,
  if◌then◌else◌,
}
use mathlib.Core.List.{append_assoc, append-nil}
use lndmobile.Prelude.Int.{ℤ, pos, sub64}
use lndmobile.Prelude.Exec.{runs, ok, value, ◌>>=◌}
use lndmobile.Wire.{Bytes, OutPoint}
use lndmobile.Nursery.Output.{BreachedOutput}
use lndmobile.Breach.Wallet.{
  HtlcRetribution, BreachRetribution, Wallet, Txn, call, answered, htlc_accepted_revoke,
  htlc_offered_revoke, commitment_no_delay, commitment_revoke,
}
use lndmobile.Breach.Justice.{
  make_breached_output, commitment_output, htlc_output, new_retribution_info, witness_weight, weigh,
  spendable_outputs, total_amount, add_witnesses, unsigned_txn, sign_sweep,
  sweep_spendable_outputs_txn, create_justice_tx,
}
use lndmobile.Breach.Justice.Signing.{
  AllSigned, CanSignAll, signing, strip, cast-AllSigned, unsigned-Spends,
}

module _ {World : Type 0} (wallet : Wallet World) where
  open wallet use {
    gen_sweep_script, estimate_fee_per_vsize, fee_for_vsize, Estimator, no_weight, add_p2wkh_output,
    vsize, gen_witness, check_transaction_sanity,
  }

  -- The outputs that the transaction does not leave out.
  abbrev IsKnown : BreachedOutput → Type 0
  IsKnown o = (n : ℕ) × (witness_weight wallet o.witness_type ≡ some n)

  -- The size of a justice transaction.
  abbrev weight : List BreachedOutput → Estimator
  weight os = (spendable_outputs wallet os (add_p2wkh_output no_weight, [])).0

  spendable_outputs_lem :
      (os seen : List BreachedOutput) (e : Estimator)
      → All IsKnown os
      → (spendable_outputs wallet os (e, seen)).1 ≡ seen ++ os
  unfolding spendable_outputs
  spendable_outputs_lem [] seen e k = sym (append-nil seen)
  spendable_outputs_lem (o ∷ os) seen e k =
      let (n, s) = k.0 in
      ap (λ m. (spendable_outputs wallet os (weigh wallet m o (e, seen))).1) s
      ∙ spendable_outputs_lem os (seen ++ o ∷ []) (wallet.add_witness_input n e) k.1
      ∙ append_assoc seen (o ∷ []) os

  All-append :
      (P : BreachedOutput → Type 0) (xs ys : List BreachedOutput)
      → All P xs
      → All P ys
      → All P (xs ++ ys)
  All-append P [] ys a b = b
  All-append P (x ∷ xs) ys a b = (a.0, All-append P xs ys a.1 b)

  htlc-IsKnown :
      (incoming : Bool)
      → (n : ℕ) × (witness_weight wallet
            (if incoming then htlc_accepted_revoke else htlc_offered_revoke)
          ≡ some n)
  unfolding witness_weight
  htlc-IsKnown true = (wallet.accepted_htlc_penalty_witness_size, refl)
  htlc-IsKnown false = (wallet.offered_htlc_penalty_witness_size, refl)

  htlcs-IsKnown : (hs : List HtlcRetribution) → All IsKnown (map (htlc_output wallet) hs)
  unfolding htlc_output make_breached_output
  htlcs-IsKnown [] = tt
  htlcs-IsKnown (h ∷ hs) = (htlc-IsKnown h.is_incoming, htlcs-IsKnown hs)

  commitment-IsKnown :
      (o : OutPoint) (t : ℕ) (d : Option Bytes)
      → (n : ℕ) × (witness_weight wallet t ≡ some n)
      → All IsKnown (commitment_output wallet o t d)
  unfolding commitment_output make_breached_output
  commitment-IsKnown o t none k = tt
  commitment-IsKnown o t (some d) k = (k, tt)

  new_retribution_info-IsKnown :
      (c : OutPoint) (b : BreachRetribution)
      → All IsKnown (new_retribution_info wallet c b).breached_outputs
  unfolding new_retribution_info witness_weight
  new_retribution_info-IsKnown c b =
      All-append IsKnown
        (commitment_output wallet b.local_outpoint commitment_no_delay b.local_output_sign_desc) _
        (commitment-IsKnown b.local_outpoint commitment_no_delay b.local_output_sign_desc
          (wallet.p2wkh_witness_size, refl))
        (All-append IsKnown
          (commitment_output wallet b.remote_outpoint commitment_revoke b.remote_output_sign_desc)
          (map (htlc_output wallet) b.htlc_retributions)
          (commitment-IsKnown b.remote_outpoint commitment_revoke b.remote_output_sign_desc
            (wallet.to_local_penalty_witness_size, refl))
          (htlcs-IsKnown b.htlc_retributions))

  -- What is left of the amounts for the one output of a justice transaction.
  abbrev sweep_amount : List BreachedOutput → ℤ → ℤ
  sweep_amount os rate = sub64 (total_amount (pos 0) os) (fee_for_vsize rate (vsize (weight os)))

  sign_sweep_lem :
      (size : ℤ) (os : List BreachedOutput) (script : Bytes) (rate : ℤ) (w : World)
      → let amt = sub64 (total_amount (pos 0) os) (fee_for_vsize rate size) in
        check_transaction_sanity (unsigned_txn script amt os) ≡ value tt
        → CanSignAll wallet (unsigned_txn script amt os) 0 os
        → (txn : Txn) × (w' : World) × (sign_sweep wallet size os script rate w ≡ (ok txn, w'))
          × (txn.tx_out ≡ record { value = amt; pk_script = script } ∷ [])
          × AllSigned wallet txn 0 os txn.tx_in
  unfolding sign_sweep
  sign_sweep_lem size os script rate w e a =
      let amt = sub64 (total_amount (pos 0) os) (fee_for_vsize rate size) in
      let t = unsigned_txn script amt os in
      let s = signing wallet t t [] 0 os t.tx_in t w (unsigned-Spends os) refl refl refl a in
      let same : strip t ≡ strip (record t { tx_in = s.ins }) =
        ap (λ l. record t { tx_in = l }) (sym s.stripped) in
      (
        record t { tx_in = s.ins },
        s.after,
        runs (call (λ w. (check_transaction_sanity t, w))) (λ _. add_witnesses wallet 0 os t)
              (ap (λ r. answered (r, w)) e)
            ∙ s.result,
        refl,
        cast-AllSigned wallet t (record t { tx_in = s.ins }) 0 os s.ins same s.all,
      )

  sweep_lem :
      (size : ℤ) (os : List BreachedOutput) (w w1 w2 : World) (script : Bytes) (rate : ℤ)
      → gen_sweep_script w ≡ (value script, w1)
      → estimate_fee_per_vsize 2 w1 ≡ (value rate, w2)
      → sweep_spendable_outputs_txn wallet size os w ≡ sign_sweep wallet size os script rate w2
  unfolding sweep_spendable_outputs_txn
  sweep_lem size os w w1 w2 script rate g f =
      runs (call gen_sweep_script)
        (λ script. call (estimate_fee_per_vsize 2) >>= sign_sweep wallet size os script)
        (ap answered g)
      ∙ runs (call (estimate_fee_per_vsize 2)) (sign_sweep wallet size os script) (ap answered f)

  -- If the wallet gives a script and a fee rate, the transaction of all the outputs of a breach is
  -- sane and the signer has a witness for each of them at its index of that transaction, then the justice transaction of the breach is
  -- made. Its inputs spend all of these outputs, one by one, each with a witness that was made for
  -- the output at the index of the input and for a transaction that differs in its witnesses only,
  -- and its one output pays to the script what is left of the amounts by the fee for its size.
  pub create_justice_tx-new_retribution_info :
      (c : OutPoint) (b : BreachRetribution) (w w1 w2 : World) (script : Bytes) (rate : ℤ)
      → gen_sweep_script w ≡ (value script, w1)
      → estimate_fee_per_vsize 2 w1 ≡ (value rate, w2)
      → let os = (new_retribution_info wallet c b).breached_outputs in
        check_transaction_sanity (unsigned_txn script (sweep_amount os rate) os) ≡ value tt
        → CanSignAll wallet (unsigned_txn script (sweep_amount os rate) os) 0 os
        → (txn : Txn) × (w' : World) × (create_justice_tx wallet (new_retribution_info wallet c b) w
            ≡ (ok txn, w'))
          × (txn.tx_out ≡ record { value = sweep_amount os rate; pk_script = script } ∷ [])
          × AllSigned wallet txn 0 os txn.tx_in
  unfolding create_justice_tx
  create_justice_tx-new_retribution_info c b w w1 w2 script rate g f s a =
      let os = (new_retribution_info wallet c b).breached_outputs in
      let size = vsize (weight os) in
      let (txn, w', e, out, signed) = sign_sweep_lem size os script rate w2 s a in
      (
        txn,
        w',
        ap (λ l. sweep_spendable_outputs_txn wallet size l w)
              (spendable_outputs_lem os [] (add_p2wkh_output no_weight)
                (new_retribution_info-IsKnown c b))
            ∙ sweep_lem size os w w1 w2 script rate g f
            ∙ e,
        out,
        signed,
      )
