-- ===== src/Nursery/Incubator.antt =====
-- `utxoNursery` (lnd/utxonursery.go): its state, and its calls of the store, of the notifier and of
-- the chain. The heights that the notifier and the chain give are `uint32`. Log lines are left out.
pub mod Classes
pub mod Requests
pub mod Confirmations
pub mod Effects
pub mod Finalized
pub mod Accepted
pub mod Published
pub mod Variables
pub mod Heights
pub mod Closing
mod Tests
use lndmobile.Prelude.{ℕ, suc, Bool, true, false, Option, none, some, List, [], ◌∷◌, ◌++◌}
use lndmobile.Prelude.Assoc.{nat_eq, lookup, insert}
use lndmobile.Prelude.Exec.{
  Result, ok, err, panic, Reply, value, failure, Exec, pure, crash, gets, modify, ◌>>=◌, ◌>>◌,
}
use lndmobile.Wire.{Bytes, MsgTx, OutPoint}
use lndmobile.Bolt.{Bolt}
use lndmobile.Nursery.Output.{KidOutput, BabyOutput}
use lndmobile.Nursery.Store.{Error, Db}
use lndmobile.Nursery.Store.Buckets.{Store}
use lndmobile.Breach.Wallet.{Txn}

-- What the nursery uses of the notifier, of the chain, of channeldb and of Go's runtime.
pub record Chain (World : Type 0) : Type 0 where
  pub conf_depth : ℕ
  pub get_best_block : World → Reply ℕ × World
  pub publish_transaction : MsgTx → World → Reply (Unit {0}) × World
  -- A hash, the depth and the height hint.
  pub register_confirmations_ntfn : Bytes → ℕ → ℕ → World → Reply (Unit {0}) × World
  pub register_block_epoch_ntfn : World → Reply (Unit {0}) × World
  pub fetch_closed_channels : World → Reply (List OutPoint) × World
  -- The height at which a channel was closed, if its summary is there.
  pub fetch_closed_channel : OutPoint → World → Reply (Option ℕ) × World
  pub serialize : Txn → MsgTx
  -- The keys of a map, once each, in some order.
  pub map_keys : List OutPoint → World → List OutPoint × World

pub data Fault : Type 0 where
  store_error : Error → Fault
  call_error : ℕ → Fault

-- What a goroutine waits for. An output that it points to is the number of a variable.
pub data Task : Type 0 where
  sweep_conf : ℕ → List KidOutput → Task
  timeout_conf preschool_conf : ℕ → Task

pub record Goroutine : Type 0 where
  pub task : Task
  -- Its confirmation was received, and it goes on to take the lock.
  pub confirmed : Bool

module _ (bolt : Bolt) where
  -- A call of `PublishTransaction`: the transaction, the store at that time, and whether the call
  -- succeeded.
  pub record Broadcast : Type 0 where
    pub tx : MsgTx
    pub store : Db bolt
    pub accepted : Bool

module _ (World : Type 0) (bolt : Bolt) where
  pub record Nursery : Type 0 where
    pub db : Db bolt
    pub best_height : ℕ
    -- The variables that hold outputs, by their numbers.
    pub baby_vars : List (ℕ × BabyOutput)
    pub kid_vars : List (ℕ × KidOutput)
    pub next_var : ℕ
    pub goroutines : List Goroutine
    -- The calls of `PublishTransaction`, the last one first.
    pub published : List (Broadcast bolt)
    pub world : World

  abbrev pub Act : Type 0 → Type 0
  Act A = Exec Fault Nursery A

module _ {World : Type 0} (bolt : Bolt) where
  abbrev pub stored :
      {A : Type 0}
      → Nursery World bolt
      → Result Error A × Db bolt
      → Result Fault A × Nursery World bolt
  stored s (ok a, db) = (ok a, record s { db = db })
  stored s (err e, db) = (err (store_error e), record s { db = db })
  stored s (panic, db) = (panic, record s { db = db })

  -- A method of the store that changes it, and one that reads it.
  abbrev pub update : {A : Type 0} → Store bolt A → Act World bolt A
  update m s = stored s (m s.db)

  abbrev pub query : {A : Type 0} → (Db bolt → Result Error A) → Act World bolt A
  query f s = stored s (f s.db, s.db)

  abbrev pub answer :
      {A : Type 0} → Nursery World bolt → Reply A × World → Result Fault A × Nursery World bolt
  answer s (value a, w) = (ok a, record s { world = w })
  answer s (failure e, w) = (err (call_error e), record s { world = w })

  abbrev pub request : {A : Type 0} → (World → Reply A × World) → Act World bolt A
  request f s = answer s (f s.world)

  -- `for _, x := range xs { if err := f(x); err != nil { return err } }`
  unfoldable pub each :
      {A : Type 0} → (A → Act World bolt (Unit {0})) → List A → Act World bolt (Unit {0})
  each f [] = pure tt
  each f (x ∷ xs) = f x >> each f xs

  -- A new variable.
  abbrev pub new_baby_var : BabyOutput → Act World bolt ℕ
  new_baby_var b s = (
    ok s.next_var,
    record s { baby_vars = insert s.next_var b s.baby_vars; next_var = suc s.next_var },
  )

  abbrev pub new_kid_var : KidOutput → Act World bolt ℕ
  new_kid_var o s = (
    ok s.next_var,
    record s { kid_vars = insert s.next_var o s.kid_vars; next_var = suc s.next_var },
  )

  -- What a variable holds. A number that is not that of a variable does not occur.
  abbrev pub some_or_crash : {A : Type 0} → Option A → Act World bolt A
  some_or_crash none = crash
  some_or_crash (some a) = pure a

  abbrev pub baby_var : ℕ → Act World bolt BabyOutput
  baby_var v s = some_or_crash (lookup v s.baby_vars) s

  abbrev pub kid_var : ℕ → Act World bolt KidOutput
  kid_var v s = some_or_crash (lookup v s.kid_vars) s

  abbrev pub set_baby_var : ℕ → BabyOutput → Act World bolt (Unit {0})
  set_baby_var v b = modify (λ s. record s { baby_vars = insert v b s.baby_vars })

  abbrev pub set_kid_var : ℕ → KidOutput → Act World bolt (Unit {0})
  set_kid_var v o = modify (λ s. record s { kid_vars = insert v o s.kid_vars })

  abbrev pub go : Task → Act World bolt (Unit {0})
  go t =
      modify
        (λ s. record s { goroutines = s.goroutines ++ record { task = t; confirmed = false } ∷ [] })

  abbrev pub noted : Bool → MsgTx → Nursery World bolt → Nursery World bolt
  noted accepted tx s = record s {
    published = record { tx = tx; store = s.db; accepted = accepted } ∷ s.published;
  }

  abbrev pub publish_replied :
      MsgTx
      → Nursery World bolt
      → Reply (Unit {0}) × World
      → Result Fault (Unit {0}) × Nursery World bolt
  publish_replied tx s (value _, w) = (ok tt, noted true tx (record s { world = w }))
  publish_replied tx s (failure e, w) =
      (err (call_error e), noted false tx (record s { world = w }))

  unfoldable pub publish : Chain World → MsgTx → Act World bolt (Unit {0})
  publish chain tx s = publish_replied tx s (chain.publish_transaction tx s.world)

  -- `RegisterConfirmationsNtfn`, and the goroutine that waits for the confirmation.
  abbrev pub await : Chain World → Bytes → ℕ → Task → Act World bolt (Unit {0})
  await chain txid height_hint task =
      request (chain.register_confirmations_ntfn txid chain.conf_depth height_hint) >> go task
