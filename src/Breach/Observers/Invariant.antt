-- ===== src/Breach/Observers/Invariant.antt =====
-- What holds however the goroutines of the breach arbiter (lnd/breacharbiter.go) take their steps.
use lndmobile.Prelude.{ℕ, ◌≡◌, true, ◌∷◌, All}
use lndmobile.Prelude.Assoc.{nat_eq}
use lndmobile.Wire.{out_point_eq, hash_eq}
use lndmobile.Bolt.{Bolt}
use lndmobile.Codec.{WireCodec}
use lndmobile.Breach.Wallet.{Wallet}
use lndmobile.Breach.Observers.{Action, new_contract, Outcome, moved, blocked, panicked, Arbiter}
use lndmobile.Breach.Observers.Signals.{Signals}
use lndmobile.Breach.Observers.Stored.{InStore}

module _ {World : Type 0} (bolt : Bolt) (codec : WireCodec) (wallet : Wallet World) where
  pub record IsValid (s : Arbiter bolt) : Type 0 where
    pub signals : Signals s.breach_observers s.closed_signals s.next_signal
    pub launched : All (InStore bolt codec s.db) s.retributions
    pub received : All (InStore bolt codec s.db) s.breached_contracts
    pub told : All (λ x. InStore bolt codec s.db x.1) s.acknowledging

  abbrev pub Safe : Outcome (Arbiter bolt) → Type 0
  Safe (moved s) = IsValid s
  Safe blocked = Unit
  Safe panicked = ⊥

  -- The state after a signal was closed.
  abbrev with_closed : ℕ → Arbiter bolt → Arbiter bolt
  with_closed n s = record s { closed_signals = n ∷ s.closed_signals }

  -- The subscriptions to the events of new channels succeed.
  abbrev pub Subscribed : Action → Type 0
  Subscribed (new_contract o subscribed) = subscribed ≡ true
  Subscribed _ = Unit
