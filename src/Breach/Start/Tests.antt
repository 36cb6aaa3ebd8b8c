-- ===== src/Breach/Start/Tests.antt =====
-- A restart with a breached channel, and one that is not (lnd/breacharbiter.go).
use lndmobile.Prelude.{ℕ, ◌<◌, ◌≡◌, false, not, map, List, [], ◌∷◌, arith, refl}
use lndmobile.Prelude.Exec.{ok, value}
use lndmobile.Wire.{OutPoint, out_point_eq}
use lndmobile.Bolt.{contains}
use lndmobile.Bolt.Lists.{list_bolt}
use lndmobile.Codec.Laws.{IsPoint}
use lndmobile.Codec.Plain.{plain, zeros}
use lndmobile.Breach.Info.{RetributionInfo}
use lndmobile.Breach.Codec.RoundTrip.{Encodable}
use lndmobile.Breach.Store.Reference.{Op}
use lndmobile.Breach.Store.Contract.{store_after}
use lndmobile.Breach.Start.{CloseSummary, Daemon, Starting, start_arbiter}
use lndmobile.Breach.Start.Success.{Answers, start_arbiter_partitions}

abbrev channel : OutPoint
channel = record { hash = zeros 32; index = 3 }

abbrev other : OutPoint
other = record { hash = zeros 32; index = 4 }

abbrev gone : OutPoint
gone = record { hash = zeros 32; index = 5 }

abbrev breach_of : OutPoint → RetributionInfo
breach_of o = record {
  commit_hash = zeros 32;
  chan_point = o;
  chain_hash = zeros 32;
  breach_height = 500000;
  breached_outputs = [];
}

abbrev closed : List CloseSummary
closed = record { chan_point = gone; is_pending = false } ∷ []

abbrev active : List OutPoint
active = channel ∷ other ∷ []

abbrev daemon : Daemon
daemon = record {
  fetch_closed_channels = value closed;
  fetch_all_channels = value active;
  subscribe_channel_events = λ o. value tt;
  register_confirmations_ntfn = λ r. value tt;
}

daemon-Answers : Answers list_bolt plain daemon closed active
daemon-Answers = record {
  fetch_closed_channels = refl;
  fetch_all_channels = refl;
  subscribe_channel_events = λ o. refl;
  register_confirmations_ntfn = λ r. refl;
}

point-IsPoint : (n : ℕ) → n < 10 → IsPoint plain (record { hash = zeros 32; index = n })
point-IsPoint n h = record { hash = refl; index = omega arith }

breach_of-Encodable :
    (n : ℕ) → n < 10 → Encodable plain (breach_of (record { hash = zeros 32; index = n }))
breach_of-Encodable n h = record {
  commit_hash = refl;
  point = point-IsPoint n h;
  chain_hash = refl;
  breach_height = omega arith;
  outputs = tt;
  count = omega arith;
}

abbrev breaches : List Op
breaches = Op.add (breach_of channel) ∷ Op.add (breach_of gone) ∷ []

start_arbiter_example :
    (t : Starting list_bolt) × (start_arbiter list_bolt plain daemon
        (store_after list_bolt plain breaches).1
      ≡ (ok tt, t))
    × (contains other t.channels_to_watch
        ≡ not (contains other (map (λ r. r.chan_point) t.launched)))
start_arbiter_example =
    start_arbiter_partitions list_bolt plain daemon closed active daemon-Answers breaches other
      (breach_of-Encodable 3 (omega arith), (breach_of-Encodable 5 (omega arith), tt)) refl
