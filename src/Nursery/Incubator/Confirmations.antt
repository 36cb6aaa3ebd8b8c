-- ===== src/Nursery/Incubator/Confirmations.antt =====
-- The goroutines that wait for confirmations, `closeAndRemoveIfMature`, and the loop of `incubator`
-- (lnd/utxonursery.go), by the steps that they take in any order. A goroutine that is stopped by the
-- shutdown takes no step.
use lndmobile.Prelude.{
  ℕ, zero, suc, Bool, true, false, Option, none, some, List, [], ◌∷◌, if◌then◌else◌,
}
use lndmobile.Prelude.Exec.{Result, ok, err, panic, pure, crash, raise, modify, ◌>>=◌, ◌>>◌}
use lndmobile.Wire.{OutPoint, out_point_eq}
use lndmobile.Bolt.{Bolt, contains}
use lndmobile.Nursery.Output.{KidOutput}
use lndmobile.Nursery.Store.{Error, err_contract_not_found}
use lndmobile.Nursery.Store.Transitions.{crib_to_kinder, preschool_to_kinder, graduate_kinder}
use lndmobile.Nursery.Store.Queries.{is_mature_channel, remove_channel}
use lndmobile.Breach.Wallet.{Wallet}
use lndmobile.Nursery.Incubator.{
  Chain, Fault, store_error, Task, sweep_conf, timeout_conf, preschool_conf, Goroutine, Nursery,
  Act, update, each, baby_var, kid_var, set_baby_var, set_kid_var,
}
use lndmobile.Nursery.Incubator.Classes.{graduate_class}

-- The set of the channels of some outputs.
unfoldable pub possible_closes : List KidOutput → List OutPoint
possible_closes [] = []
possible_closes (o ∷ os) =
    let rest = possible_closes os in
    if contains o.origin_chan_point rest then rest else o.origin_chan_point ∷ rest

-- A goroutine of a list, and the goroutines without it.
abbrev pub beside :
    Goroutine → Option (Goroutine × List Goroutine) → Option (Goroutine × List Goroutine)
beside g none = none
beside g (some (x, xs)) = some (x, g ∷ xs)

unfoldable pub pick : ℕ → List Goroutine → Option (Goroutine × List Goroutine)
pick n [] = none
pick zero (g ∷ gs) = some (g, gs)
pick (suc n) (g ∷ gs) = beside g (pick n gs)

-- A step of the nursery. A confirmation comes with the height of its block; the channel of one may
-- be closed instead.
pub data Action : Type 0 where
  block : ℕ → Action
  confirmation : ℕ → ℕ → Action
  channel_closed proceed : ℕ → Action

module _ {World : Type 0} (bolt : Bolt) (chain : Chain World) where
  open chain use {map_keys}

  abbrev pub when_mature : OutPoint → Result Error Bool → Act World bolt (Unit {0})
  when_mature cp (ok true) = update bolt (remove_channel bolt cp)
  when_mature cp (ok false) = pure tt
  when_mature cp (err err_contract_not_found) = pure tt
  when_mature cp (err e) = raise (store_error e)
  when_mature cp panic = crash

  unfoldable pub close_and_remove_if_mature : OutPoint → Act World bolt (Unit {0})
  unfolding is_mature_channel remove_channel
  close_and_remove_if_mature cp s = when_mature cp (is_mature_channel bolt cp s.db) s

  abbrev pub in_map_order :
      (List OutPoint → Act World bolt (Unit {0})) → List OutPoint → Act World bolt (Unit {0})
  in_map_order f cps s = let (order, w) = map_keys cps s.world in f order (record s { world = w })

  unfoldable pub close_channels : List KidOutput → Act World bolt (Unit {0})
  unfolding each close_and_remove_if_mature possible_closes
  close_channels kgtn_outputs =
      in_map_order (each bolt close_and_remove_if_mature) (possible_closes kgtn_outputs)

  unfoldable pub sweep_confirmed : ℕ → List KidOutput → Act World bolt (Unit {0})
  unfolding close_channels graduate_kinder
  sweep_confirmed class_height kgtn_outputs =
      update bolt (graduate_kinder bolt class_height) >> close_channels kgtn_outputs

  unfoldable pub timeout_confirmed : ℕ → Act World bolt (Unit {0})
  unfolding crib_to_kinder
  timeout_confirmed var = baby_var bolt var >>= λ b. update bolt (crib_to_kinder bolt b)

  unfoldable pub preschool_confirmed : ℕ → Act World bolt (Unit {0})
  unfolding preschool_to_kinder
  preschool_confirmed var = kid_var bolt var >>= λ o. update bolt (preschool_to_kinder bolt o)

  -- What a goroutine does under the lock.
  abbrev pub perform : Task → Act World bolt (Unit {0})
  unfolding sweep_confirmed timeout_confirmed preschool_confirmed
  perform (sweep_conf class_height kgtn_outputs) = sweep_confirmed class_height kgtn_outputs
  perform (timeout_conf var) = timeout_confirmed var
  perform (preschool_conf var) = preschool_confirmed var

  -- `SetConfHeight`, before the lock is taken.
  abbrev pub set_conf_height : Task → ℕ → Act World bolt (Unit {0})
  set_conf_height (sweep_conf class_height kgtn_outputs) height = pure tt
  set_conf_height (timeout_conf var) height = baby_var bolt var >>= λ b.
      set_baby_var bolt var (record b { kid = record b.kid { conf_height = height } })
  set_conf_height (preschool_conf var) height =
      kid_var bolt var >>= λ o. set_kid_var bolt var (record o { conf_height = height })

  abbrev pub confirm : ℕ → Option (Goroutine × List Goroutine) → Act World bolt (Unit {0})
  confirm height none = pure tt
  confirm height (some (g, gs)) =
      if g.confirmed
      then pure tt
      else set_conf_height g.task height
        >> modify (λ s. record s { goroutines = record g { confirmed = true } ∷ gs })

  abbrev pub end_waiting : Option (Goroutine × List Goroutine) → Act World bolt (Unit {0})
  end_waiting none = pure tt
  end_waiting (some (g, gs)) =
      if g.confirmed then pure tt else modify (λ s. record s { goroutines = gs })

  abbrev pub take_lock : Option (Goroutine × List Goroutine) → Act World bolt (Unit {0})
  take_lock none = pure tt
  take_lock (some (g, gs)) =
      if g.confirmed then modify (λ s. record s { goroutines = gs }) >> perform g.task else pure tt

module _ {World : Type 0} (bolt : Bolt) (wallet : Wallet World) (chain : Chain World) where
  unfoldable pub act : Action → Act World bolt (Unit {0})
  unfolding graduate_class pick
  act (block height) s = graduate_class bolt wallet chain height s
  act (confirmation n height) s = confirm bolt chain height (pick n s.goroutines) s
  act (channel_closed n) s = end_waiting bolt chain (pick n s.goroutines) s
  act (proceed n) s = take_lock bolt chain (pick n s.goroutines) s

  -- An error of a step is logged, and a panic ends the daemon.
  abbrev pub next_state : Result Fault (Unit {0}) × Nursery World bolt → Option (Nursery World bolt)
  next_state (ok u, s) = some s
  next_state (err e, s) = some s
  next_state (panic, s) = none

  abbrev pub and_go_on :
      Option (Nursery World bolt)
      → (Nursery World bolt → Option (Nursery World bolt))
      → Option (Nursery World bolt)
  and_go_on none f = none
  and_go_on (some s) f = f s

  unfoldable pub run_nursery : List Action → Nursery World bolt → Option (Nursery World bolt)
  unfolding act
  run_nursery [] s = some s
  run_nursery (a ∷ actions) s = and_go_on (next_state (act a s)) (run_nursery actions)
