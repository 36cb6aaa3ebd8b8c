-- ===== src/Breach/Tests.antt =====
-- The codec and the store of the breach arbiter at concrete retributions.
use lndmobile.Prelude.{ℕ, suc, ◌≡◌, true, none, some, List, [], ◌∷◌, ◌++◌, arith, refl}
use lndmobile.Prelude.Int.{pos, mul64, sub64, wrap64, add64, ◌-ℤ◌, ◌+ℤ◌, ◌*ℤ◌}
use lndmobile.Prelude.Exec.{ok, err, Exec}
use lndmobile.Wire.{OutPoint}
use lndmobile.Bolt.Lists.{list_bolt}
use lndmobile.Codec.Laws.{IsPoint}
use lndmobile.Codec.Plain.{plain, zeros}
use lndmobile.Nursery.Output.{BreachedOutput}
use lndmobile.Breach.Info.{RetributionInfo}
use lndmobile.Breach.Codec.{encode_info, decode_info}
use lndmobile.Breach.Codec.RoundTrip.{EncodableOutput, Encodable, decode_info-encode_info}
use lndmobile.Breach.Store.{Error, no_retribution_bucket, is_breached, get_finalized_txn, for_all}
use lndmobile.Breach.Store.Reference.{Op}
use lndmobile.Breach.Wallet.{HtlcRetribution, BreachRetribution, Txn}
use lndmobile.Breach.Justice.{
  new_retribution_info, create_justice_tx, total_amount, spendable_outputs,
}
use lndmobile.Breach.Justice.Signing.{AllSigned}
use lndmobile.Breach.Justice.Sweep.{create_justice_tx-new_retribution_info}
use lndmobile.Breach.Retribution.Samples.{wallet}
use lndmobile.Breach.Store.Contract.{store_after, reference_after, Presents, store_refines}

abbrev point : OutPoint
point = record { hash = zeros 32; index = 3 }

abbrev to_local : BreachedOutput
to_local = record {
  amt = pos 5000;
  out_point = point;
  witness_type = 2;
  sign_desc = 6 ∷ [];
  second_level_witness_script = [];
}

abbrev breach : RetributionInfo
breach = record {
  commit_hash = zeros 32;
  chan_point = point;
  chain_hash = zeros 32;
  breach_height = 500000;
  breached_outputs = to_local ∷ to_local ∷ [];
}

point-IsPoint : IsPoint plain point
point-IsPoint = record { hash = refl; index = omega arith }

to_local-Encodable : EncodableOutput plain to_local
to_local-Encodable = record {
  amt = omega arith;
  point = point-IsPoint;
  sign_desc = refl;
  script = omega arith;
  witness_type = omega arith;
}

breach-Encodable : Encodable plain breach
breach-Encodable = record {
  commit_hash = refl;
  point = point-IsPoint;
  chain_hash = refl;
  breach_height = omega arith;
  outputs = (to_local-Encodable, (to_local-Encodable, tt));
  count = omega arith;
}

decode_info_example : decode_info plain (encode_info plain breach ++ 7 ∷ []) ≡ (ok breach, 7 ∷ [])
decode_info_example = decode_info-encode_info plain breach (7 ∷ []) breach-Encodable

abbrev calls : List Op
calls = Op.remove point ∷ Op.add breach ∷ Op.finalize point (9 ∷ []) ∷ []

-- A callback that keeps what it is given.
abbrev collect : RetributionInfo → Exec Error (List RetributionInfo) (Unit {0})
collect r rs = (ok tt, r ∷ rs)

store_refines_example :
    ((store_after list_bolt plain calls).0 ≡ err no_retribution_bucket ∷ ok tt ∷ ok tt ∷ [])
    × (is_breached list_bolt plain point (store_after list_bolt plain calls).1 ≡ true)
    × (get_finalized_txn list_bolt plain point (store_after list_bolt plain calls).1
        ≡ ok (some (9 ∷ [])))
    × Presents list_bolt plain collect
        (for_all list_bolt plain collect (store_after list_bolt plain calls).1)
        (reference_after list_bolt plain calls).1.retributions
store_refines_example =
    store_refines list_bolt plain collect calls point
      (point-IsPoint, (breach-Encodable, ((point-IsPoint, refl), tt))) point-IsPoint

abbrev htlc : HtlcRetribution
htlc = record {
  sign_desc = 6 ∷ [];
  out_point = point;
  second_level_witness_script = 4 ∷ [];
  is_incoming = true;
}

abbrev evidence : BreachRetribution
evidence = record {
  breach_transaction = 5 ∷ [];
  breach_height = 500000;
  chain_hash = zeros 32;
  local_output_sign_desc = none;
  local_outpoint = point;
  remote_output_sign_desc = some (6 ∷ []);
  remote_outpoint = point;
  htlc_retributions = htlc ∷ [];
}

abbrev contested : RetributionInfo
contested = new_retribution_info wallet point evidence

-- Two outputs of 9000, less a fee of 2 for each of 700 bytes.
create_justice_tx_example :
    (txn : Txn) × (w : ℕ) × (create_justice_tx wallet contested 0 ≡ (ok txn, w))
    × (txn.tx_out ≡ record { value = pos 16600; pk_script = 8 ∷ [] } ∷ [])
    × AllSigned wallet txn 0 contested.breached_outputs txn.tx_in
unfolding new_retribution_info sub64 wrap64 ◌-ℤ◌ total_amount add64 ◌+ℤ◌ mul64 ◌*ℤ◌
    spendable_outputs
create_justice_tx_example =
    create_justice_tx-new_retribution_info wallet point evidence 0 1 2 (8 ∷ []) (pos 2) refl refl
      refl
      (
        (λ txn n e. ((2 ∷ 0 ∷ []) ∷ [], suc n, refl)),
        ((λ txn n e. ((4 ∷ 1 ∷ []) ∷ [], suc n, refl)), tt),
      )
