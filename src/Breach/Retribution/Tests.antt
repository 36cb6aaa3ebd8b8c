-- ===== src/Breach/Retribution/Tests.antt =====
-- A retribution at concrete events (lnd/breacharbiter.go).
use lndmobile.Prelude.{
  ℕ, suc, ◌≡◌, ltb, if◌then◌else◌, true, false, some, [], ◌∷◌, length, arith, refl, ap,
}
use lndmobile.Prelude.Int.{pos}
use lndmobile.Prelude.Assoc.{lookup, insert, delete}
use lndmobile.Prelude.Exec.{value}
use lndmobile.Wire.{Bytes, OutPoint}
use lndmobile.Bolt.Lists.{list_bolt}
use lndmobile.Codec.Plain.{plain}
use lndmobile.Nursery.Output.{BreachedOutput}
use lndmobile.Breach.Info.{RetributionInfo}
use lndmobile.Breach.Justice.{
  convert_to_second_level_revoke, create_justice_tx, sweep_spendable_outputs_txn, sign_sweep,
  add_witnesses, add_witness, set_witness, spendable_outputs, witness_weight,
}
use lndmobile.Breach.Store.{new_db, add, get_finalized_txn, finalize, remove}
use lndmobile.Breach.Chain.{
  Chain, spent, pending, accepted, double_spend, converted, finalized, published, confirmed, closed,
  removed,
}
use lndmobile.Breach.Spends.{check_outputs, check_output, check_ntfn, registered, polled}
use lndmobile.Breach.Retribution.{
  done, Scene, exact_retribution, start, resume, attempts, attempt, prepare, after_check, persist,
  after_finalize, broadcast, after_publish, after_register, after_justice, after_mark, tidy_up,
}
use lndmobile.Breach.Retribution.Rounds.{exact_retribution_ends}
use lndmobile.Breach.Spends.Counts.{idle_rounds}
use lndmobile.Breach.Retribution.Samples.{wallet}

-- The HTLC is spent to the second level as the first transaction is broadcast.
abbrev chain : Chain ℕ
chain = record {
  await_breach = λ n. (some 500001, suc n);
  register_spend_ntfn = λ o h n. (value 1, suc n);
  poll_spend = λ ntfn n. (if ltb 12 n then spent [] (pos 8000) else pending, suc n);
  quitting = λ n. (false, suc n);
  serialize = λ txn. length txn.tx_in ∷ [];
  commits = λ n. (true, n);
  publish_transaction = λ tx n. (if ltb n 15 then double_spend else accepted, suc n);
  register_confirmations_ntfn = λ txid h n. (value 2, suc n);
  await_justice = λ c n. (true, suc n);
  mark_chan_fully_closed = λ o n. (value tt, suc n);
}

abbrev point : OutPoint
point = record { hash = []; index = 3 }

abbrev output : ℕ → BreachedOutput
output witness_type = record {
  amt = pos 9000;
  out_point = point;
  witness_type = witness_type;
  sign_desc = [];
  second_level_witness_script = [];
}

-- The output of the remote party, and an HTLC.
abbrev breach : RetributionInfo
breach = record {
  commit_hash = [];
  chan_point = point;
  chain_hash = [];
  breach_height = 500000;
  breached_outputs = output 2 ∷ output 4 ∷ [];
}

abbrev scene : Scene list_bolt plain wallet chain
scene = record {
  db = add list_bolt plain breach (new_db list_bolt);
  info = breach;
  watch = record { spend_ntfns = []; world = 0 };
}

abbrev tx : Bytes
tx = 2 ∷ []

-- Two attempts are refused before the HTLC is found to be spent, and the third succeeds.
third_attempt_succeeds :
    (exact_retribution list_bolt plain wallet chain 4 scene).events
    ≡ finalized tx
      ∷ published tx
      ∷ finalized tx
      ∷ published tx
      ∷ converted point
      ∷ finalized tx
      ∷ published tx
      ∷ confirmed tx
      ∷ closed point
      ∷ removed point
      ∷ []
unfolding exact_retribution start resume attempts attempt prepare after_check persist after_finalize
    broadcast after_publish after_register after_justice after_mark tidy_up check_outputs
    check_output check_ntfn registered polled convert_to_second_level_revoke create_justice_tx
    sweep_spendable_outputs_txn sign_sweep add_witnesses add_witness set_witness spendable_outputs
    witness_weight get_finalized_txn add finalize remove lookup insert delete
third_attempt_succeeds = refl

exact_retribution_ends_example :
    (exact_retribution list_bolt plain wallet chain 4 scene).outcome ≡ done
exact_retribution_ends_example =
    exact_retribution_ends list_bolt plain wallet chain 2 scene
      (omega (arith, ap idle_rounds third_attempt_succeeds))
