-- ===== src/Breach/Retribution.antt =====
-- `exactRetribution` (lnd/breacharbiter.go): the checks for spends to the second level, the justice
-- transaction, its broadcast and what follows its confirmation. A receive from a channel, or a
-- `select`, is a call that says what was received; the calls that matter to other parts are listed
-- in their order. The attempts are counted by fuel. A panic ends the run.
pub mod Order
pub mod Ledger
pub mod Rounds
pub mod Samples
mod Tests
use lndmobile.Prelude.{
  ℕ, zero, suc, ◌+◌, ◌==◌, Bool, true, false, ◌||◌, Option, none, some, List, [], ◌∷◌, ◌++◌,
  if◌then◌else◌,
}
use lndmobile.Prelude.Int.{ℤ}
use lndmobile.Prelude.Assoc.{lookup, insert, delete}
use lndmobile.Prelude.Exec.{Result, ok, err, panic, Reply, value, failure}
use lndmobile.Wire.{Bytes, MsgTx, OutPoint, out_point_eq}
use lndmobile.Bolt.{Bolt}
use lndmobile.Codec.{WireCodec}
use lndmobile.Nursery.Output.{BreachedOutput}
use lndmobile.Breach.Info.{RetributionInfo}
use lndmobile.Breach.Wallet.{Wallet, Txn, htlc_accepted_revoke, htlc_offered_revoke}
use lndmobile.Breach.Justice.{create_justice_tx, convert_to_second_level_revoke}
use lndmobile.Breach.Chain.{
  Publication, accepted, double_spend, refused, Chain, Event, converted, finalized, published,
  confirmed, closed, removed,
}
use lndmobile.Breach.Spends.{Watch, Checked, check_outputs}
use lndmobile.Breach.Store.{Error, Db, get_finalized_txn, finalize, remove}

-- How an attempt goes on.
pub data Next : Type 0 where
  done again : Next

module _ {World : Type 0} (bolt : Bolt) (codec : WireCodec) (wallet : Wallet World)
    (chain : Chain World) where
  open chain use {
    await_breach, register_spend_ntfn, poll_spend, quitting, serialize, commits,
    publish_transaction, register_confirmations_ntfn, await_justice, mark_chan_fully_closed,
  }

  pub record Scene : Type 0 where
    pub db : Db bolt
    pub info : RetributionInfo
    pub watch : Watch wallet chain

  -- The calls of some steps, what comes of them, and the scene after them.
  pub record Steps (A : Type 0) : Type 0 where
    pub events : List Event
    pub outcome : A
    pub scene : Scene

  abbrev pub set_world : World → Scene → Scene
  set_world w s = record s { watch = record s.watch { world = w } }

  -- The outcome of `Finalize` for a transaction.
  unfoldable pub after_finalize : Scene → MsgTx → Bool × World → Steps (Option MsgTx)
  after_finalize s tx (true, w) = record {
    events = finalized tx ∷ [];
    outcome = some tx;
    scene = record (set_world w s) { db = finalize bolt codec s.info.chan_point tx s.db };
  }
  after_finalize s tx (false, w) = record { events = []; outcome = none; scene = set_world w s }

  -- The new justice transaction is persisted before anything else is done with it.
  unfoldable pub persist : Scene → Result ℕ Txn × World → Steps (Option MsgTx)
  unfolding after_finalize
  persist s (ok txn, w) = after_finalize s (serialize txn) (commits w)
  persist s (err _, w) = record { events = []; outcome = none; scene = set_world w s }
  persist s (panic, w) = record { events = []; outcome = none; scene = set_world w s }

  unfoldable pub after_check :
      Scene
      → Checked wallet chain (List BreachedOutput)
      → Option (List BreachedOutput)
      → Steps (Option MsgTx)
  unfolding persist
  after_check s c none = record {
    events = c.events;
    outcome = none;
    scene = record s { watch = c.watch };
  }
  after_check s c (some os) =
      let info = record s.info { breached_outputs = os } in
      let p =
        persist (record s { info = info; watch = c.watch })
          (create_justice_tx wallet info c.watch.world) in
      record p { events = c.events ++ p.events }

  -- Up to the broadcast.
  unfoldable pub prepare : Option MsgTx → Scene → Steps (Option MsgTx)
  unfolding after_check
  prepare (some tx) s = record { events = []; outcome = some tx; scene = s }
  prepare none s =
      let c = check_outputs wallet chain s.info.breach_height s.info.breached_outputs s.watch in
      after_check s c c.found

  -- What follows the confirmation; an error of `Remove` is only logged.
  unfoldable pub tidy_up : Scene → Result Error (Unit {0}) × Db bolt → Steps Next
  tidy_up s (ok _, db) = record {
    events = removed s.info.chan_point ∷ [];
    outcome = done;
    scene = record s { db = db };
  }
  tidy_up s (_, db) = record { events = []; outcome = done; scene = record s { db = db } }

  unfoldable pub after_mark : Scene → Reply (Unit {0}) × World → Steps Next
  unfolding tidy_up
  after_mark s (value _, w) =
      let t = tidy_up (set_world w s) (remove bolt codec s.info.chan_point s.db) in
      record t { events = closed s.info.chan_point ∷ t.events }
  after_mark s (failure _, w) = record { events = []; outcome = done; scene = set_world w s }

  unfoldable pub after_justice : MsgTx → Scene → Bool × World → Steps Next
  unfolding after_mark
  after_justice tx s (false, w) = record { events = []; outcome = done; scene = set_world w s }
  after_justice tx s (true, w) =
      let m = after_mark (set_world w s) (mark_chan_fully_closed s.info.chan_point w) in
      record m { events = confirmed tx ∷ m.events }

  unfoldable pub after_register : MsgTx → Scene → Reply ℕ × World → Steps Next
  unfolding after_justice
  after_register tx s (value c, w) = after_justice tx (set_world w s) (await_justice c w)
  after_register tx s (failure _, w) = record { events = []; outcome = done; scene = set_world w s }

  abbrev pub after_refusal : Scene → Bool × World → Steps Next
  after_refusal s (quit, w) = record {
    events = [];
    outcome = if quit then done else again;
    scene = set_world w s;
  }

  unfoldable pub after_publish : ℕ → MsgTx → Scene → Publication × World → Steps Next
  unfolding after_register
  after_publish height tx s (double_spend, w) = after_refusal (set_world w s) (quitting w)
  after_publish height tx s (_, w) =
      after_register tx (set_world w s) (register_confirmations_ntfn (wallet.tx_hash tx) height w)

  unfoldable pub broadcast : ℕ → Scene → Option MsgTx → Steps Next
  unfolding after_publish
  broadcast height s none = record { events = []; outcome = done; scene = s }
  broadcast height s (some tx) =
      let p = after_publish height tx s (publish_transaction tx s.watch.world) in
      record p { events = published tx ∷ p.events }

  -- From `secondLevelCheck` to its `goto`, or to the end.
  unfoldable pub attempt : ℕ → Option MsgTx → Scene → Steps Next
  unfolding prepare broadcast
  attempt height final_tx s =
      let p = prepare final_tx s in
      let b = broadcast height p.scene p.outcome in record b { events = p.events ++ b.events }

  abbrev pub go_on : Steps Next → Next → Steps Next → Steps Next
  go_on a done rest = a
  go_on a again rest = record rest { events = a.events ++ rest.events }

  unfoldable pub attempts : ℕ → ℕ → Option MsgTx → Scene → Steps Next
  unfolding attempt
  attempts zero height final_tx s = record { events = []; outcome = again; scene = s }
  attempts (suc fuel) height final_tx s =
      let a = attempt height final_tx s in go_on a a.outcome (attempts fuel height none a.scene)

  unfoldable pub resume : ℕ → ℕ → Scene → Result Error (Option MsgTx) → Steps Next
  unfolding attempts
  resume fuel height s (ok final_tx) = attempts fuel height final_tx s
  resume fuel height s _ = record { events = []; outcome = done; scene = s }

  unfoldable pub start : ℕ → Scene → Option ℕ × World → Steps Next
  unfolding resume
  start fuel s (none, w) = record { events = []; outcome = done; scene = set_world w s }
  start fuel s (some height, w) =
      resume fuel height (set_world w s) (get_finalized_txn bolt codec s.info.chan_point s.db)

  unfoldable pub exact_retribution : ℕ → Scene → Steps Next
  unfolding start
  exact_retribution fuel s = start fuel s (await_breach s.watch.world)
