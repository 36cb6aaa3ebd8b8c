-- ===== src/Breach/Observers.antt =====
-- `contractObserver` and `breachObserver` (lnd/breacharbiter.go): the goroutines that watch the
-- channels, by the steps that they take in any order. A goroutine that waits is an entry of a list,
-- and a signal, a Go channel that is made to be closed, is a number. The calls of `CloseLink`, whose
-- result nobody reads, are left out.
pub mod Signals
pub mod Waiting
pub mod Stored
pub mod Invariant
mod Tests
use lndmobile.Prelude.{
  ℕ, zero, suc, ◌==◌, Bool, true, false, Option, none, some, List, [], ◌∷◌, if◌then◌else◌,
}
use lndmobile.Prelude.Assoc.{nat_eq, lookup, insert, delete}
use lndmobile.Wire.{OutPoint, out_point_eq}
use lndmobile.Bolt.{Bolt, contains}
use lndmobile.Codec.{WireCodec}
use lndmobile.Breach.Info.{RetributionInfo}
use lndmobile.Breach.Wallet.{Wallet, BreachRetribution}
use lndmobile.Breach.Justice.{new_retribution_info}
use lndmobile.Breach.Store.{Db, add}

-- A step of the main goroutine, or of an observer with its signal.
pub data Action : Type 0 where
  -- A new channel is announced, and the subscription to its events succeeds or not.
  new_contract : OutPoint → Bool → Action
  -- One of the settled channels is received, or of the breaches, whose registration succeeds or not.
  settled : ℕ → Action
  breached : ℕ → Bool → Action
  -- An observer finds its signal closed, its channel closed or breached, or it is acknowledged.
  signalled closure acknowledged : ℕ → Action
  -- The store takes the retribution of a breach or not.
  contract_breach : ℕ → BreachRetribution → Bool → Action

-- A panic ends the daemon; a step that waits for something else is blocked.
pub data Outcome (A : Type 0) : Type 0 where
  moved : A → Outcome A
  blocked panicked : Outcome A

module _ (bolt : Bolt) where
  pub record Arbiter : Type 0 where
    pub breach_observers : List (OutPoint × ℕ)
    pub closed_signals : List ℕ
    -- The number of the next signal.
    pub next_signal : ℕ
    -- The observers that watch, and those that wait for an acknowledgement.
    pub watching : List (ℕ × OutPoint)
    pub acknowledging : List (ℕ × RetributionInfo)
    -- What is to be received from `settledContracts` and `breachedContracts`.
    pub settled_contracts : List OutPoint
    pub breached_contracts : List RetributionInfo
    -- The goroutines of `exactRetribution` that were launched.
    pub retributions : List RetributionInfo
    pub db : Db bolt

abbrev pub behind : {A : Type 0} → A → Option (A × List A) → Option (A × List A)
behind x none = none
behind x (some (y, ys)) = some (y, x ∷ ys)

-- One of the goroutines that wait to send on a channel is received from, and goes on.
abbrev pub receive : {A : Type 0} → ℕ → List A → Option (A × List A)
receive n [] = none
receive zero (x ∷ xs) = some (x, xs)
receive (suc n) (x ∷ xs) = behind x (receive n xs)

module _ {World : Type 0} (bolt : Bolt) (codec : WireCodec) (wallet : Wallet World) where
  -- `close(signal)`
  unfoldable pub close_signal : ℕ → Arbiter bolt → Outcome (Arbiter bolt)
  close_signal n s =
      if contains n s.closed_signals
      then panicked
      else moved (record s { closed_signals = n ∷ s.closed_signals })

  -- The new observer of a channel; one without a subscription dereferences nil.
  unfoldable pub watch : OutPoint → Bool → Arbiter bolt → Outcome (Arbiter bolt)
  watch o false s = panicked
  watch o true s = moved (record s {
    breach_observers = insert o s.next_signal s.breach_observers;
    next_signal = suc s.next_signal;
    watching = (s.next_signal, o) ∷ s.watching;
  })

  -- The signal of an observer that is replaced is closed.
  unfoldable pub replaced : Option ℕ → Arbiter bolt → Outcome (Arbiter bolt)
  unfolding close_signal
  replaced none s = moved s
  replaced (some old) s = close_signal old s

  abbrev pub and_next :
      Outcome (Arbiter bolt) → (Arbiter bolt → Outcome (Arbiter bolt)) → Outcome (Arbiter bolt)
  and_next (moved s) f = f s
  and_next blocked f = blocked
  and_next panicked f = panicked

  unfoldable pub on_new_contract : OutPoint → Bool → Arbiter bolt → Outcome (Arbiter bolt)
  unfolding replaced watch
  on_new_contract o subscribed s =
      and_next (replaced (lookup o s.breach_observers) s) (watch o subscribed)

  -- A channel that is not known is only logged.
  unfoldable pub kill : OutPoint → Option ℕ → Arbiter bolt → Outcome (Arbiter bolt)
  unfolding close_signal
  kill o none s = moved s
  kill o (some n) s =
      and_next (close_signal n s)
        (λ t. moved (record t { breach_observers = delete o t.breach_observers }))

  abbrev pub received_settled :
      Option (OutPoint × List OutPoint) → Arbiter bolt → Outcome (Arbiter bolt)
  received_settled none s = blocked
  received_settled (some (o, rest)) s =
      kill o (lookup o s.breach_observers) (record s { settled_contracts = rest })

  unfoldable pub on_settled : ℕ → Arbiter bolt → Outcome (Arbiter bolt)
  unfolding kill
  on_settled n s = received_settled (receive n s.settled_contracts) s

  -- Without a registration the breach is only logged.
  abbrev pub launch : Bool → RetributionInfo → Arbiter bolt → Arbiter bolt
  launch false r s = s
  launch true r s = record s {
    retributions = r ∷ s.retributions;
    breach_observers = delete r.chan_point s.breach_observers;
  }

  abbrev pub received_breach :
      Bool → Option (RetributionInfo × List RetributionInfo) → Arbiter bolt → Outcome (Arbiter bolt)
  received_breach registered none s = blocked
  received_breach registered (some (r, rest)) s =
      moved (launch registered r (record s { breached_contracts = rest }))

  unfoldable pub on_breached : ℕ → Bool → Arbiter bolt → Outcome (Arbiter bolt)
  on_breached n registered s = received_breach registered (receive n s.breached_contracts) s

  unfoldable pub observer_signalled : ℕ → Option OutPoint → Arbiter bolt → Outcome (Arbiter bolt)
  observer_signalled n none s = blocked
  observer_signalled n (some o) s =
      if contains n s.closed_signals
      then moved (record s { watching = delete n s.watching })
      else blocked

  -- A further goroutine tells the main one.
  unfoldable pub observer_closure : ℕ → Option OutPoint → Arbiter bolt → Outcome (Arbiter bolt)
  observer_closure n none s = blocked
  observer_closure n (some o) s =
      moved
        (record s { watching = delete n s.watching; settled_contracts = o ∷ s.settled_contracts })

  -- The retribution is persisted before anyone is told of it; an observer whose retribution is not
  -- taken by the store ends.
  unfoldable pub observer_breach :
      ℕ → BreachRetribution → Bool → Option OutPoint → Arbiter bolt → Outcome (Arbiter bolt)
  observer_breach n b persisted none s = blocked
  observer_breach n b false (some o) s = moved (record s { watching = delete n s.watching })
  observer_breach n b true (some o) s =
      let r = new_retribution_info wallet o b in
      moved (record s {
        watching = delete n s.watching;
        acknowledging = (n, r) ∷ s.acknowledging;
        db = add bolt codec r s.db;
      })

  unfoldable pub observer_acknowledged :
      ℕ → Option RetributionInfo → Arbiter bolt → Outcome (Arbiter bolt)
  observer_acknowledged n none s = blocked
  observer_acknowledged n (some r) s = moved (record s {
    acknowledging = delete n s.acknowledging;
    breached_contracts = r ∷ s.breached_contracts;
  })

  abbrev pub step : Action → Arbiter bolt → Outcome (Arbiter bolt)
  unfolding on_new_contract on_settled on_breached observer_signalled observer_closure
      observer_breach observer_acknowledged
  step (new_contract o subscribed) s = on_new_contract o subscribed s
  step (settled n) s = on_settled n s
  step (breached n registered) s = on_breached n registered s
  step (signalled n) s = observer_signalled n (lookup n s.watching) s
  step (closure n) s = observer_closure n (lookup n s.watching) s
  step (contract_breach n b persisted) s = observer_breach n b persisted (lookup n s.watching) s
  step (acknowledged n) s = observer_acknowledged n (lookup n s.acknowledging) s

  unfoldable pub run : List Action → Arbiter bolt → Outcome (Arbiter bolt)
  unfolding step
  run [] s = moved s
  run (a ∷ acts) s = and_next (step a s) (run acts)

  -- The observers that `contractObserver` starts with.
  unfoldable pub observe_all : List OutPoint → Arbiter bolt → Outcome (Arbiter bolt)
  unfolding watch
  observe_all [] s = moved s
  observe_all (o ∷ os) s = and_next (watch o true s) (observe_all os)

  abbrev pub idle : Db bolt → Arbiter bolt
  idle db = record {
    breach_observers = [];
    closed_signals = [];
    next_signal = 0;
    watching = [];
    acknowledging = [];
    settled_contracts = [];
    breached_contracts = [];
    retributions = [];
    db = db;
  }

  unfoldable pub contract_observer : List OutPoint → List Action → Db bolt → Outcome (Arbiter bolt)
  unfolding observe_all run
  contract_observer channels acts db = and_next (observe_all channels (idle db)) (run acts)
