-- ===== src/Breach/Spends/Counts.antt =====
-- What a check for spends finds, counted (lnd/breacharbiter.go).
use lndmobile.Prelude.{
  ℕ, suc, ◌+◌, ◌≤◌, ◌≡◌, Bool, true, false, Option, none, some, List, [], ◌∷◌, ◌++◌, arith, refl,
  ap, sym, ◌∙◌, if◌then◌else◌, some_injective, none≢some,
}
use lndmobile.Prelude.Assoc.{insert, lookup}
use lndmobile.Prelude.Exec.{Reply, value, failure}
use lndmobile.Wire.{OutPoint, out_point_eq}
use lndmobile.Nursery.Output.{BreachedOutput}
use lndmobile.Breach.Wallet.{Wallet}
use lndmobile.Breach.Justice.{convert_to_second_level_revoke}
use lndmobile.Breach.Chain.{
  Poll, spent, ended, pending, Chain, Event, converted, finalized, published, confirmed, closed,
  removed,
}
use lndmobile.Breach.Spends.{
  Watch, Checked, polled, unregistered, registered, check_ntfn, check_output, kept, check_next,
  check_outputs, is_htlc,
}
use lndmobile.Breach.Spends.Converted.{AllConverted}

abbrev pub one_if : Bool → ℕ
one_if true = 1
one_if false = 0

-- The outputs that may yet be taken to the second level.
abbrev pub htlcs : List BreachedOutput → ℕ
htlcs [] = 0
htlcs (o ∷ os) = one_if (is_htlc o) + htlcs os

abbrev pub conversions : List Event → ℕ
conversions [] = 0
conversions (converted _ ∷ es) = suc (conversions es)
conversions (_ ∷ es) = conversions es

abbrev pub publications : List Event → ℕ
publications [] = 0
publications (published _ ∷ es) = suc (publications es)
publications (_ ∷ es) = publications es

-- The broadcasts before which no further output was found to be spent; the Boolean says whether one
-- was found since the last broadcast.
abbrev pub idle_from : Bool → List Event → ℕ
idle_from c [] = 0
idle_from c (converted _ ∷ es) = idle_from true es
idle_from true (published _ ∷ es) = idle_from false es
idle_from false (published _ ∷ es) = suc (idle_from false es)
idle_from c (_ ∷ es) = idle_from c es

abbrev pub idle_rounds : List Event → ℕ
idle_rounds es = idle_from false es

pub publications_bound :
    (c : Bool) (es : List Event) → publications es ≤ idle_from c es + conversions es + one_if c
publications_bound c [] = omega arith
publications_bound true (converted _ ∷ es) = omega (arith, publications_bound true es)
publications_bound false (converted _ ∷ es) = omega (arith, publications_bound true es)
publications_bound true (published _ ∷ es) = omega (arith, publications_bound false es)
publications_bound false (published _ ∷ es) = omega (arith, publications_bound false es)
publications_bound true (finalized _ ∷ es) = publications_bound true es
publications_bound false (finalized _ ∷ es) = publications_bound false es
publications_bound true (confirmed _ ∷ es) = publications_bound true es
publications_bound false (confirmed _ ∷ es) = publications_bound false es
publications_bound true (closed _ ∷ es) = publications_bound true es
publications_bound false (closed _ ∷ es) = publications_bound false es
publications_bound true (removed _ ∷ es) = publications_bound true es
publications_bound false (removed _ ∷ es) = publications_bound false es

pub conversions-append :
    (xs ys : List Event) → conversions (xs ++ ys) ≡ conversions xs + conversions ys
conversions-append [] ys = omega arith
conversions-append (converted _ ∷ xs) ys = omega (arith, conversions-append xs ys)
conversions-append (finalized _ ∷ xs) ys = conversions-append xs ys
conversions-append (published _ ∷ xs) ys = conversions-append xs ys
conversions-append (confirmed _ ∷ xs) ys = conversions-append xs ys
conversions-append (closed _ ∷ xs) ys = conversions-append xs ys
conversions-append (removed _ ∷ xs) ys = conversions-append xs ys

pub publications-append :
    (xs ys : List Event) → publications (xs ++ ys) ≡ publications xs + publications ys
publications-append [] ys = omega arith
publications-append (published _ ∷ xs) ys = omega (arith, publications-append xs ys)
publications-append (finalized _ ∷ xs) ys = publications-append xs ys
publications-append (converted _ ∷ xs) ys = publications-append xs ys
publications-append (confirmed _ ∷ xs) ys = publications-append xs ys
publications-append (closed _ ∷ xs) ys = publications-append xs ys
publications-append (removed _ ∷ xs) ys = publications-append xs ys

pub none_published : (es : List Event) → AllConverted es → publications es ≡ 0
none_published [] a = refl
none_published (converted _ ∷ es) a = none_published es a
none_published (finalized _ ∷ es) a = absurd a
none_published (published _ ∷ es) a = absurd a
none_published (confirmed _ ∷ es) a = absurd a
none_published (closed _ ∷ es) a = absurd a
none_published (removed _ ∷ es) a = absurd a

module _ {World : Type 0} (wallet : Wallet World) (chain : Chain World) where
  -- A check of an output that is an HTLC keeps the sum of such outputs and of conversions.
  abbrev Counted : Checked wallet chain BreachedOutput → BreachedOutput → Type 0
  Counted c o =
      (o' : BreachedOutput)
      → c.found ≡ some o'
      → conversions c.events + one_if (is_htlc o') ≡ one_if (is_htlc o)

  polled-Counted :
      (o : BreachedOutput) (ntfns : List (OutPoint × ℕ)) (r : Poll × World)
      → is_htlc o ≡ true
      → Counted (polled wallet chain o ntfns r) o
  unfolding polled convert_to_second_level_revoke
  polled-Counted o ntfns (spent t a, w) h o' e =
      ap (λ x. 1 + one_if (is_htlc x)) (sym (some_injective e)) ∙ ap one_if (sym h)
  polled-Counted o ntfns (ended, w) h o' e = absurd (none≢some e)
  polled-Counted o ntfns (pending, w) h o' e =
      ap (λ x. 0 + one_if (is_htlc x)) (sym (some_injective e)) ∙ omega arith

  unregistered-Counted :
      (o : BreachedOutput) (ntfns : List (OutPoint × ℕ)) (r : Bool × World)
      → Counted (unregistered wallet chain o ntfns r) o
  unfolding unregistered
  unregistered-Counted o ntfns (true, w) o' e = absurd (none≢some e)
  unregistered-Counted o ntfns (false, w) o' e =
      ap (λ x. 0 + one_if (is_htlc x)) (sym (some_injective e)) ∙ omega arith

  registered-Counted :
      (o : BreachedOutput) (ntfns : List (OutPoint × ℕ)) (r : Reply ℕ × World)
      → is_htlc o ≡ true
      → Counted (registered wallet chain o ntfns r) o
  unfolding registered
  registered-Counted o ntfns (value n, w) h o' e =
      polled-Counted o (insert o.out_point n ntfns) (chain.poll_spend n w) h o' e
  registered-Counted o ntfns (failure n, w) h o' e =
      unregistered-Counted o ntfns (chain.quitting w) o' e

  check_ntfn-Counted :
      (height : ℕ) (o : BreachedOutput) (s : Watch wallet chain) (n : Option ℕ)
      → is_htlc o ≡ true
      → Counted (check_ntfn wallet chain height o s n) o
  unfolding check_ntfn
  check_ntfn-Counted height o s (some n) h =
      polled-Counted o s.spend_ntfns (chain.poll_spend n s.world) h
  check_ntfn-Counted height o s none h =
      registered-Counted o s.spend_ntfns (chain.register_spend_ntfn o.out_point height s.world) h

  check_body-Counted :
      (height : ℕ) (o : BreachedOutput) (s : Watch wallet chain) (htlc : Bool)
      → is_htlc o ≡ htlc
      → Counted
          (if htlc
            then check_ntfn wallet chain height o s (lookup o.out_point s.spend_ntfns)
            else record { events = []; found = some o; watch = s })
          o
  check_body-Counted height o s true h o' e =
      check_ntfn-Counted height o s (lookup o.out_point s.spend_ntfns) h o' e
  check_body-Counted height o s false h o' e =
      ap (λ x. 0 + one_if (is_htlc x)) (sym (some_injective e)) ∙ omega arith

  kept-some :
      (o : BreachedOutput) (x : Option (List BreachedOutput)) (os : List BreachedOutput)
      → kept wallet chain o x ≡ some os
      → (rest : List BreachedOutput) × (x ≡ some rest) × (os ≡ o ∷ rest)
  kept-some o none os e = absurd (none≢some e)
  kept-some o (some rest) os e = (rest, refl, sym (some_injective e))

  check_next-Counted :
      (c : Checked wallet chain BreachedOutput) (f : Option BreachedOutput) (o : BreachedOutput)
      (rest : Checked wallet chain (List BreachedOutput)) (os os' : List BreachedOutput)
      → ((o' : BreachedOutput)
          → f ≡ some o'
          → conversions c.events + one_if (is_htlc o') ≡ one_if (is_htlc o))
      → ((xs : List BreachedOutput)
          → rest.found ≡ some xs
          → conversions rest.events + htlcs xs ≡ htlcs os)
      → (check_next wallet chain c f rest).found ≡ some os'
      → conversions (check_next wallet chain c f rest).events + htlcs os' ≡ htlcs (o ∷ os)
  check_next-Counted c none o rest os os' h g e = absurd (none≢some e)
  check_next-Counted c (some q) o rest os os' h g e =
      let (xs, found, split) = kept-some q rest.found os' e in
      ap (λ l. conversions (c.events ++ rest.events) + htlcs l) split
      ∙ omega (arith, h q refl, g xs found, conversions-append c.events rest.events)

  pub check_outputs-Counted :
      (height : ℕ) (os os' : List BreachedOutput) (s : Watch wallet chain)
      → (check_outputs wallet chain height os s).found ≡ some os'
      → conversions (check_outputs wallet chain height os s).events + htlcs os' ≡ htlcs os
  unfolding check_outputs check_output
  check_outputs-Counted height [] os' s e = ap (λ l. 0 + htlcs l) (sym (some_injective e))
  check_outputs-Counted height (o ∷ os) os' s e =
      let c = check_output wallet chain height o s in
      check_next-Counted c c.found o (check_outputs wallet chain height os c.watch) os os'
        (check_body-Counted height o s (is_htlc o) refl)
        (λ xs f. check_outputs-Counted height os xs c.watch f) e
