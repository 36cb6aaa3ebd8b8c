-- ===== src/Breach/Start.antt =====
-- `breachArbiter.Start` (lnd/breacharbiter.go): which channels are watched again after a restart, and
-- which breaches are resumed. The iteration over the map of retributions is in the order of the
-- list that stands for it.
pub mod Loading
pub mod Partition
pub mod Success
mod Tests
use lndmobile.Prelude.{ℕ, Bool, true, false, Option, none, some, List, [], ◌∷◌, ◌++◌}
use lndmobile.Prelude.Assoc.{lookup, insert, delete}
use lndmobile.Prelude.Exec.{
  Result, ok, err, panic, Reply, value, failure, Exec, pure, raise, modify, ◌>>=◌, ◌>>◌,
}
use lndmobile.Wire.{OutPoint, out_point_eq}
use lndmobile.Bolt.{Bolt}
use lndmobile.Codec.{WireCodec}
use lndmobile.Breach.Info.{RetributionInfo}
use lndmobile.Breach.Store.{Error, Db, for_all, remove}

-- What is read of channeldb.ChannelCloseSummary.
pub record CloseSummary : Type 0 where
  pub chan_point : OutPoint
  pub is_pending : Bool

pub data StartError : Type 0 where
  store : Error → StartError
  external : ℕ → StartError

-- What `Start` uses of channeldb and of the notifier, as they answer at that time.
pub record Daemon : Type 0 where
  pub fetch_closed_channels : Reply (List CloseSummary)
  -- That there are no active channels is no error.
  pub fetch_all_channels : Reply (List OutPoint)
  pub subscribe_channel_events : OutPoint → Reply (Unit {0})
  pub register_confirmations_ntfn : RetributionInfo → Reply (Unit {0})

module _ (bolt : Bolt) where
  pub record Starting : Type 0 where
    pub db : Db bolt
    -- `breachRetInfos`
    pub infos : List (OutPoint × RetributionInfo)
    pub channels_to_watch : List OutPoint
    -- The goroutines of `exactRetribution`.
    pub launched : List RetributionInfo

module _ (bolt : Bolt) (codec : WireCodec) (daemon : Daemon) where
  abbrev pub Step : Type 0 → Type 0
  Step A = Exec StartError (Starting bolt) A

  abbrev pub ask : {A : Type 0} → Reply A → Step A
  ask (value a) = pure a
  ask (failure e) = raise (external e)

  -- The callback of `ForAll`.
  abbrev pub collect : RetributionInfo → Exec Error (List (OutPoint × RetributionInfo)) (Unit {0})
  collect r m = (ok tt, insert r.chan_point r m)

  abbrev pub loaded : Result Error (Unit {0}) × List (OutPoint × RetributionInfo) → Step (Unit {0})
  loaded (ok _, m) s = (ok tt, record s { infos = m })
  loaded (err e, m) s = (err (store e), record s { infos = m })
  loaded (panic, m) s = (panic, record s { infos = m })

  unfoldable pub load : Step (Unit {0})
  load s = loaded (for_all bolt codec collect s.db s.infos) s

  abbrev pub removed : OutPoint → Result Error (Unit {0}) × Db bolt → Step (Unit {0})
  removed o (ok _, db) s = (ok tt, record s { db = db; infos = delete o s.infos })
  removed o (err e, db) s = (err (store e), record s { db = db })
  removed o (panic, db) s = (panic, record s { db = db })

  -- A channel that is closed but still in the store is removed from it.
  abbrev pub reconcile_known : OutPoint → Option RetributionInfo → Step (Unit {0})
  reconcile_known o none s = (ok tt, s)
  reconcile_known o (some r) s = removed o (remove bolt codec o s.db) s

  abbrev pub reconcile_one : OutPoint → Bool → Step (Unit {0})
  reconcile_one o true s = (ok tt, s)
  reconcile_one o false s = reconcile_known o (lookup o s.infos) s

  unfoldable pub reconcile : List CloseSummary → Step (Unit {0})
  reconcile [] = pure tt
  reconcile (c ∷ cs) = reconcile_one c.chan_point c.is_pending >> reconcile cs

  abbrev pub subscribe_unless : OutPoint → Option RetributionInfo → Step (Unit {0})
  subscribe_unless o (some r) = pure tt
  subscribe_unless o none =
      ask (daemon.subscribe_channel_events o)
      >> modify (λ s. record s { channels_to_watch = s.channels_to_watch ++ o ∷ [] })

  abbrev pub subscribe_one : OutPoint → Step (Unit {0})
  subscribe_one o s = subscribe_unless o (lookup o s.infos) s

  unfoldable pub subscribe : List OutPoint → Step (Unit {0})
  subscribe [] = pure tt
  subscribe (o ∷ os) = subscribe_one o >> subscribe os

  unfoldable pub launch_all : List (OutPoint × RetributionInfo) → Step (Unit {0})
  launch_all [] = pure tt
  launch_all ((o, r) ∷ m) =
      ask (daemon.register_confirmations_ntfn r)
      >> modify (λ s. record s { launched = r ∷ s.launched })
      >> launch_all m

  abbrev pub launch_infos : Step (Unit {0})
  unfolding launch_all
  launch_infos s = launch_all s.infos s

  abbrev pub watch_active : List OutPoint → Step (Unit {0})
  unfolding subscribe
  watch_active active = subscribe active >> launch_infos

  abbrev pub reconcile_closed : List CloseSummary → Step (Unit {0})
  unfolding reconcile
  reconcile_closed closed = reconcile closed >> (ask daemon.fetch_all_channels >>= watch_active)

  unfoldable pub start_steps : Step (Unit {0})
  unfolding load
  start_steps = load >> (ask daemon.fetch_closed_channels >>= reconcile_closed)

  -- The arbiter that was started has the channels to watch and the retributions of the last state.
  unfoldable pub start_arbiter : Db bolt → Result StartError (Unit {0}) × Starting bolt
  unfolding start_steps
  start_arbiter db =
      start_steps (record { db = db; infos = []; channels_to_watch = []; launched = [] })
