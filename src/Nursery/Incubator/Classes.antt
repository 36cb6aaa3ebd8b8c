-- ===== src/Nursery/Incubator/Classes.antt =====
-- The outputs that mature at a height: `graduateClass`, `regraduateClass`, `reloadClasses` and what
-- they call (lnd/utxonursery.go).
use lndmobile.Prelude.{
  ℕ, zero, suc, ◌-◌, ◌==◌, ltb, ◌||◌, Option, none, some, List, [], ◌∷◌, if◌then◌else◌,
}
use lndmobile.Prelude.Exec.{Result, ok, err, panic, Exec, pure, gets, modify, ◌>>=◌, ◌>>◌}
use lndmobile.Wire.{MsgTx}
use lndmobile.Bolt.{Bolt}
use lndmobile.Nursery.Output.{KidOutput, BabyOutput}
use lndmobile.Nursery.Store.Transitions.{
  add32, finalize_kinder, graduate_height, get_last_finalized_height,
}
use lndmobile.Nursery.Store.Queries.{fetch_class, heights_below_or_equal}
use lndmobile.Nursery.Sweep.{create_sweep_tx}
use lndmobile.Breach.Wallet.{Wallet, Txn}
use lndmobile.Nursery.Incubator.{
  Chain, Fault, call_error, sweep_conf, timeout_conf, Nursery, update, query, request, each,
  new_baby_var, baby_var, publish, await,
}

module _ {World : Type 0} (bolt : Bolt) (wallet : Wallet World) (chain : Chain World) where
  open chain use {get_best_block, serialize}

  abbrev pub N : Type 0
  N = Nursery World bolt

  abbrev pub Do : Type 0
  Do = Exec Fault N (Unit {0})

  unfoldable pub register_sweep_conf : MsgTx → List KidOutput → ℕ → Do
  register_sweep_conf final_tx kgtn_outputs height_hint =
      await bolt chain (wallet.tx_hash final_tx) height_hint (sweep_conf height_hint kgtn_outputs)

  unfoldable pub sweep_mature_outputs : ℕ → MsgTx → List KidOutput → Do
  unfolding publish register_sweep_conf
  sweep_mature_outputs class_height final_tx kgtn_outputs =
      publish bolt chain final_tx >> register_sweep_conf final_tx kgtn_outputs class_height

  abbrev pub await_timeout : ℕ → ℕ → BabyOutput → Do
  await_timeout var height_hint b =
      await bolt chain (wallet.tx_hash b.timeout_tx) height_hint (timeout_conf var)

  unfoldable pub register_timeout_conf : ℕ → ℕ → Do
  register_timeout_conf var height_hint = baby_var bolt var >>= await_timeout var height_hint

  abbrev pub publish_crib : ℕ → ℕ → BabyOutput → Do
  publish_crib class_height var b =
      publish bolt chain b.timeout_tx >> register_timeout_conf var class_height

  unfoldable pub sweep_crib_output : ℕ → ℕ → Do
  unfolding publish register_timeout_conf
  sweep_crib_output class_height var = baby_var bolt var >>= publish_crib class_height var

  -- `&cribOutputs[i]`: every output is a variable of its own.
  abbrev pub sweep_own : ℕ → BabyOutput → Do
  sweep_own class_height b = new_baby_var bolt b >>= sweep_crib_output class_height

  unfoldable pub sweep_crib_outputs : ℕ → List BabyOutput → Do
  unfolding sweep_crib_output each
  sweep_crib_outputs class_height = each bolt (sweep_own class_height)

  abbrev pub sweep_txn : Result ℕ Txn × World → N → Result Fault (Option MsgTx) × N
  sweep_txn (ok txn, w) s = (ok (some (serialize txn)), record s { world = w })
  sweep_txn (err e, w) s = (err (call_error e), record s { world = w })
  sweep_txn (panic, w) s = (panic, record s { world = w })

  -- The sweep transaction of a height that is new, if there is something to sweep.
  unfoldable pub new_sweep : ℕ → Option MsgTx → List KidOutput → Exec Fault N (Option MsgTx)
  unfolding create_sweep_tx
  new_sweep class_height final_tx [] s = (ok final_tx, s)
  new_sweep class_height final_tx (o ∷ os) s =
      sweep_txn (create_sweep_tx wallet (o ∷ os) class_height s.world) s

  abbrev pub persist_sweep : ℕ → Option MsgTx → Exec Fault N (Option MsgTx)
  persist_sweep class_height tx = update bolt (finalize_kinder bolt class_height tx) >> pure tx

  -- A height that was finalized keeps its transaction.
  unfoldable pub finalize_class :
      ℕ → Option MsgTx → List KidOutput → ℕ → Exec Fault N (Option MsgTx)
  unfolding new_sweep finalize_kinder
  finalize_class class_height final_tx kgtn_outputs last_finalized_height =
      if ltb last_finalized_height class_height
      then new_sweep class_height final_tx kgtn_outputs >>= persist_sweep class_height
      else pure final_tx

  unfoldable pub sweep_if_any : ℕ → List KidOutput → Option MsgTx → Do
  unfolding sweep_mature_outputs
  sweep_if_any class_height kgtn_outputs none = pure tt
  sweep_if_any class_height kgtn_outputs (some tx) =
      sweep_mature_outputs class_height tx kgtn_outputs

  abbrev pub mark_graduated : ℕ → Do
  mark_graduated class_height = update bolt (graduate_height bolt class_height)

  abbrev pub sweep_class : ℕ → List KidOutput → List BabyOutput → Option MsgTx → Do
  sweep_class class_height kgtn_outputs crib_outputs tx =
      sweep_if_any class_height kgtn_outputs tx
      >> (sweep_crib_outputs class_height crib_outputs >> mark_graduated class_height)

  unfoldable pub graduate_fetched : ℕ → Option MsgTx × List KidOutput × List BabyOutput → Do
  unfolding finalize_class sweep_if_any sweep_crib_outputs graduate_height
  graduate_fetched class_height (final_tx, kgtn_outputs, crib_outputs) s =
      (finalize_class class_height final_tx kgtn_outputs (get_last_finalized_height bolt s.db)
          >>= sweep_class class_height kgtn_outputs crib_outputs)
        s

  unfoldable pub graduate_class : ℕ → Do
  unfolding graduate_fetched fetch_class
  graduate_class class_height =
      modify (λ s. record s { best_height = class_height })
      >> (query bolt (fetch_class bolt class_height) >>= graduate_fetched class_height)

  abbrev pub reregister : ℕ → List KidOutput → Option MsgTx → Do
  reregister class_height kgtn_outputs none = pure tt
  reregister class_height kgtn_outputs (some tx) = register_sweep_conf tx kgtn_outputs class_height

  unfoldable pub regraduate_fetched : ℕ → Option MsgTx × List KidOutput × List BabyOutput → Do
  unfolding sweep_crib_outputs register_sweep_conf
  regraduate_fetched class_height (final_tx, kgtn_outputs, crib_outputs) =
      reregister class_height kgtn_outputs final_tx >> sweep_crib_outputs class_height crib_outputs

  unfoldable pub regraduate_class : ℕ → Do
  unfolding regraduate_fetched fetch_class
  regraduate_class class_height =
      query bolt (fetch_class bolt class_height) >>= regraduate_fetched class_height

  -- The loop over the missed blocks, of which there are as many as the first number says.
  unfoldable pub catch_up : ℕ → ℕ → Do
  unfolding graduate_class
  catch_up zero cur_height = pure tt
  catch_up (suc missed) cur_height =
      graduate_class cur_height >> catch_up missed (add32 cur_height 1)

  unfoldable pub process_missed : ℕ → ℕ → Do
  unfolding catch_up
  process_missed last_grad_height best_height =
      if last_grad_height == 0 || best_height == last_grad_height
      then pure tt
      else catch_up (best_height - last_grad_height) (add32 last_grad_height 1)

  unfoldable pub reload_classes : ℕ → Do
  unfolding regraduate_class process_missed heights_below_or_equal
  reload_classes last_grad_height = do
    active_heights ← gets (λ s. heights_below_or_equal bolt last_grad_height s.db)
    each bolt regraduate_class active_heights
    best_height ← request bolt get_best_block
    process_missed last_grad_height best_height
