-- ===== src/Breach/Spends/Converted.antt =====
-- The events of a check for spends (lnd/breacharbiter.go).
use lndmobile.Prelude.{ℕ, Bool, true, false, Option, none, some, List, [], ◌∷◌, ◌++◌, if◌then◌else◌}
use lndmobile.Prelude.Assoc.{insert, lookup}
use lndmobile.Prelude.Exec.{Reply, value, failure}
use lndmobile.Wire.{OutPoint, out_point_eq}
use lndmobile.Nursery.Output.{BreachedOutput}
use lndmobile.Breach.Wallet.{Wallet}
use lndmobile.Breach.Chain.{
  Poll, spent, ended, pending, Chain, Event, converted, finalized, published, confirmed, closed,
  removed,
}
use lndmobile.Breach.Spends.{
  Watch, Checked, polled, unregistered, registered, check_ntfn, check_output, check_next,
  check_outputs, is_htlc,
}

-- Events of which each is a conversion of an output.
abbrev pub AllConverted : List Event → Type 0
AllConverted [] = Unit
AllConverted (converted _ ∷ es) = AllConverted es
AllConverted (_ ∷ es) = ⊥

pub AllConverted-append :
    (xs ys : List Event) → AllConverted xs → AllConverted ys → AllConverted (xs ++ ys)
AllConverted-append [] ys a b = b
AllConverted-append (converted _ ∷ xs) ys a b = AllConverted-append xs ys a b
AllConverted-append (finalized _ ∷ xs) ys a b = absurd a
AllConverted-append (published _ ∷ xs) ys a b = absurd a
AllConverted-append (confirmed _ ∷ xs) ys a b = absurd a
AllConverted-append (closed _ ∷ xs) ys a b = absurd a
AllConverted-append (removed _ ∷ xs) ys a b = absurd a

module _ {World : Type 0} (wallet : Wallet World) (chain : Chain World) where
  polled-AllConverted :
      (o : BreachedOutput) (ntfns : List (OutPoint × ℕ)) (r : Poll × World)
      → AllConverted (polled wallet chain o ntfns r).events
  unfolding polled
  polled-AllConverted o ntfns (spent t a, w) = tt
  polled-AllConverted o ntfns (ended, w) = tt
  polled-AllConverted o ntfns (pending, w) = tt

  registered-AllConverted :
      (o : BreachedOutput) (ntfns : List (OutPoint × ℕ)) (r : Reply ℕ × World)
      → AllConverted (registered wallet chain o ntfns r).events
  unfolding registered unregistered
  registered-AllConverted o ntfns (value n, w) =
      polled-AllConverted o (insert o.out_point n ntfns) (chain.poll_spend n w)
  registered-AllConverted o ntfns (failure n, w) = tt

  check_ntfn-AllConverted :
      (height : ℕ) (o : BreachedOutput) (s : Watch wallet chain) (n : Option ℕ)
      → AllConverted (check_ntfn wallet chain height o s n).events
  unfolding check_ntfn
  check_ntfn-AllConverted height o s (some n) =
      polled-AllConverted o s.spend_ntfns (chain.poll_spend n s.world)
  check_ntfn-AllConverted height o s none =
      registered-AllConverted o s.spend_ntfns (chain.register_spend_ntfn o.out_point height s.world)

  check_body-AllConverted :
      (height : ℕ) (o : BreachedOutput) (s : Watch wallet chain) (htlc : Bool)
      → AllConverted
          (if htlc
            then check_ntfn wallet chain height o s (lookup o.out_point s.spend_ntfns)
            else record { events = []; found = some o; watch = s }).events
  check_body-AllConverted height o s true =
      check_ntfn-AllConverted height o s (lookup o.out_point s.spend_ntfns)
  check_body-AllConverted height o s false = tt

  check_next-AllConverted :
      (c : Checked wallet chain BreachedOutput) (f : Option BreachedOutput)
      (rest : Checked wallet chain (List BreachedOutput))
      → AllConverted c.events
      → AllConverted rest.events
      → AllConverted (check_next wallet chain c f rest).events
  check_next-AllConverted c none rest a b = a
  check_next-AllConverted c (some o) rest a b = AllConverted-append c.events rest.events a b

  pub check_outputs-AllConverted :
      (height : ℕ) (os : List BreachedOutput) (s : Watch wallet chain)
      → AllConverted (check_outputs wallet chain height os s).events
  unfolding check_outputs check_output
  check_outputs-AllConverted height [] s = tt
  check_outputs-AllConverted height (o ∷ os) s =
      let c = check_output wallet chain height o s in
      check_next-AllConverted c c.found (check_outputs wallet chain height os c.watch)
        (check_body-AllConverted height o s (is_htlc o))
        (check_outputs-AllConverted height os c.watch)
