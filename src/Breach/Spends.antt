-- ===== src/Breach/Spends.antt =====
-- The check of `exactRetribution` (lnd/breacharbiter.go) for outputs that were taken to the second
-- level.
pub mod Converted
pub mod Counts
use lndmobile.Prelude.{ℕ, ◌==◌, Bool, ◌||◌, Option, none, some, List, [], ◌∷◌, ◌++◌, if◌then◌else◌}
use lndmobile.Prelude.Int.{ℤ}
use lndmobile.Prelude.Assoc.{lookup, insert, delete}
use lndmobile.Prelude.Exec.{Reply, value, failure}
use lndmobile.Wire.{Bytes, OutPoint, out_point_eq}
use lndmobile.Bolt.{Bolt}
use lndmobile.Codec.{WireCodec}
use lndmobile.Nursery.Output.{BreachedOutput}
use lndmobile.Breach.Wallet.{Wallet, htlc_accepted_revoke, htlc_offered_revoke}
use lndmobile.Breach.Justice.{convert_to_second_level_revoke}
use lndmobile.Breach.Chain.{Poll, spent, ended, pending, Chain, Event, converted}

abbrev pub is_htlc : BreachedOutput → Bool
is_htlc o = (o.witness_type == htlc_accepted_revoke) || (o.witness_type == htlc_offered_revoke)

module _ {World : Type 0} (wallet : Wallet World) (chain : Chain World) where
  open chain use {register_spend_ntfn, poll_spend, quitting}

  -- The spend notifications by outpoint, and the world.
  pub record Watch : Type 0 where
    pub spend_ntfns : List (OutPoint × ℕ)
    pub world : World

  -- What a check of outputs finds: the events, and the outputs, unless the goroutine returns.
  pub record Checked (A : Type 0) : Type 0 where
    pub events : List Event
    pub found : Option A
    pub watch : Watch

  unfoldable pub polled :
      BreachedOutput → List (OutPoint × ℕ) → Poll × World → Checked BreachedOutput
  polled o ntfns (spent txid amt, w) = record {
    events = converted o.out_point ∷ [];
    found = some (convert_to_second_level_revoke wallet txid amt o);
    watch = record { spend_ntfns = delete o.out_point ntfns; world = w };
  }
  polled o ntfns (ended, w) = record {
    events = [];
    found = none;
    watch = record { spend_ntfns = ntfns; world = w };
  }
  polled o ntfns (pending, w) = record {
    events = [];
    found = some o;
    watch = record { spend_ntfns = ntfns; world = w };
  }

  -- A registration that fails at shutdown ends the goroutine.
  unfoldable pub unregistered :
      BreachedOutput → List (OutPoint × ℕ) → Bool × World → Checked BreachedOutput
  unregistered o ntfns (quit, w) = record {
    events = [];
    found = if quit then none else some o;
    watch = record { spend_ntfns = ntfns; world = w };
  }

  unfoldable pub registered :
      BreachedOutput → List (OutPoint × ℕ) → Reply ℕ × World → Checked BreachedOutput
  unfolding polled unregistered
  registered o ntfns (value n, w) = polled o (insert o.out_point n ntfns) (poll_spend n w)
  registered o ntfns (failure _, w) = unregistered o ntfns (quitting w)

  unfoldable pub check_ntfn : ℕ → BreachedOutput → Watch → Option ℕ → Checked BreachedOutput
  unfolding polled registered
  check_ntfn height o s (some n) = polled o s.spend_ntfns (poll_spend n s.world)
  check_ntfn height o s none =
      registered o s.spend_ntfns (register_spend_ntfn o.out_point height s.world)

  -- The body of the loop over the outputs.
  unfoldable pub check_output : ℕ → BreachedOutput → Watch → Checked BreachedOutput
  unfolding check_ntfn
  check_output height o s =
      if is_htlc o
      then check_ntfn height o s (lookup o.out_point s.spend_ntfns)
      else record { events = []; found = some o; watch = s }

  abbrev pub kept : BreachedOutput → Option (List BreachedOutput) → Option (List BreachedOutput)
  kept o none = none
  kept o (some os) = some (o ∷ os)

  -- The rest of the outputs is checked unless the goroutine returns.
  abbrev pub check_next :
      Checked BreachedOutput
      → Option BreachedOutput
      → Checked (List BreachedOutput)
      → Checked (List BreachedOutput)
  check_next c none rest = record { events = c.events; found = none; watch = c.watch }
  check_next c (some o) rest = record {
    events = c.events ++ rest.events;
    found = kept o rest.found;
    watch = rest.watch;
  }

  unfoldable pub check_outputs : ℕ → List BreachedOutput → Watch → Checked (List BreachedOutput)
  unfolding check_output
  check_outputs height [] s = record { events = []; found = some []; watch = s }
  check_outputs height (o ∷ os) s =
      let c = check_output height o s in check_next c c.found (check_outputs height os c.watch)
