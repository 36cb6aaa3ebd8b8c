-- ===== src/Nursery/Incubator/Heights.antt =====
-- Which height the nursery has graduated after a restart (lnd/utxonursery.go).
use lndmobile.Prelude.{
  ℕ, zero, suc, ◌+◌, ◌-◌, ◌<◌, ◌^◌, ◌==◌, ◌||◌, ◌≡◌, inl, inr, false, some, arith, ap, sym, ◌∙◌,
  subst, if◌then◌else◌,
}
use lndmobile.Prelude.Exec.{
  Result, ok, err, panic, value, follow, bind_returned, ◌>>=◌, err≢ok, panic≢ok, pure,
}
use lndmobile.Bolt.{Bolt}
use lndmobile.Nursery.Store.{Error}
use lndmobile.Nursery.Store.Transitions.{add32}
use lndmobile.Nursery.Store.Queries.{fetch_class, heights_below_or_equal}
use lndmobile.Breach.Wallet.{Wallet}
use lndmobile.Nursery.Incubator.{Chain, Fault, Nursery, query, request, stored, answer, each}
use lndmobile.Nursery.Incubator.Classes.{
  graduate_fetched, graduate_class, regraduate_class, catch_up, process_missed, reload_classes,
}
use lndmobile.Nursery.Incubator.Published.{graduate_class-Graduates}

module _ {World : Type 0} (bolt : Bolt) (wallet : Wallet World) (chain : Chain World) where
  stored_returned :
      {A : Type 0} (s t : Nursery World bolt) (r : Result Error A) (a : A)
      → stored bolt s (r, s.db) ≡ (ok a, t)
      → r ≡ ok a
  stored_returned s t (ok b) a e = ap ok (ok_injective (ap (λ x. x.0) e))
    where
      ok_injective : {A : Type 0} {b c : A} → Path (Result Fault A) (ok b) (ok c) → b ≡ c
      ok_injective e = cc
  stored_returned s t (err x) a e = absurd (err≢ok (ap (λ x. x.0) e))
  stored_returned s t panic a e = absurd (panic≢ok (ap (λ x. x.0) e))

  graduate_class_height :
      (h : ℕ) (s t : Nursery World bolt)
      → graduate_class bolt wallet chain h s ≡ (ok tt, t)
      → t.db.last_graduated_height ≡ some h
  unfolding graduate_class
  graduate_class_height h s t e =
      let s0 : Nursery World bolt = record s { best_height = h } in
      let r =
        bind_returned (query bolt (fetch_class bolt h)) (graduate_fetched bolt wallet chain h) s0
          e in
      let (final, kids, cribs) = r.result in
      let g =
        graduate_class-Graduates bolt wallet chain h final kids cribs s
          (stored_returned s0 r.after (fetch_class bolt h s.db) r.result r.equation) in
      elim g.0.height [
        | inl x ↦ ap (λ p. p.1.db.last_graduated_height) (sym e) ∙ x.1
        | inr x ↦ absurd (x.0 (ap (λ p. p.0) e))
      ]

  -- Every height above the first one, up to the second one, was graduated, one after the other, each
  -- without an error.
  pub data Replayed (best : ℕ) : ℕ → Nursery World bolt → Nursery World bolt → Type 0 where
    done : (s : Nursery World bolt) → Replayed best best s s
    block :
        (h : ℕ) (s t u : Nursery World bolt)
        → graduate_class bolt wallet chain (suc h) s ≡ (ok tt, t)
        → Replayed best (suc h) t u
        → Replayed best h s u

  catch_up-Replayed :
      (missed h : ℕ) (s t : Nursery World bolt)
      → h + missed < 2 ^ 32
      → catch_up bolt wallet chain missed (add32 h 1) s ≡ (ok tt, t)
      → Replayed (h + missed) h s t
  unfolding catch_up
  catch_up-Replayed zero h s t b e =
      subst (λ n. Replayed n h s t) (omega arith)
        (subst (Replayed h h s) (ap (λ p. p.1) e) (done s))
  catch_up-Replayed (suc missed) h s t b e =
      let cur = add32 h 1 in
      let same : cur ≡ suc h = omega arith in
      let r =
        bind_returned (graduate_class bolt wallet chain cur)
          (λ _. catch_up bolt wallet chain missed (add32 cur 1)) s e in
      block h s r.after t
        (subst (λ n. graduate_class bolt wallet chain n s ≡ (ok tt, r.after)) same r.equation)
        (subst (λ n. Replayed n (suc h) r.after t) (omega arith)
          (catch_up-Replayed missed (suc h) r.after t (omega arith) (
            subst (λ n. catch_up bolt wallet chain missed (add32 n 1) r.after ≡ (ok tt, t)) same
              r.rest)))

  pub catch_up_reaches :
      (missed cur : ℕ) (s t : Nursery World bolt)
      → cur + missed < 2 ^ 32
      → catch_up bolt wallet chain (suc missed) cur s ≡ (ok tt, t)
      → t.db.last_graduated_height ≡ some (cur + missed)
  unfolding catch_up
  catch_up_reaches zero cur s t b e =
      let r =
        bind_returned (graduate_class bolt wallet chain cur)
          (λ _. catch_up bolt wallet chain zero (add32 cur 1)) s e in
      ap (λ p. p.1.db.last_graduated_height) (sym r.rest)
      ∙ graduate_class_height cur s r.after r.equation
      ∙ ap some (omega arith)
  catch_up_reaches (suc missed) cur s t b e =
      let r =
        bind_returned (graduate_class bolt wallet chain cur)
          (λ _. catch_up bolt wallet chain (suc missed) (add32 cur 1)) s e in
      catch_up_reaches missed (add32 cur 1) r.after t (omega arith) r.rest ∙ ap some (omega arith)

  process_missed_runs :
      (last best : ℕ) (s t : Nursery World bolt)
      → 0 < last
      → last < best
      → process_missed bolt wallet chain last best s ≡ (ok tt, t)
      → catch_up bolt wallet chain (best - last) (add32 last 1) s ≡ (ok tt, t)
  unfolding process_missed
  process_missed_runs last best s t a b e =
      let test : ((last == 0) || (best == last)) ≡ false = ground arith in
      subst
        (λ x.
          (if x then pure tt else catch_up bolt wallet chain (best - last) (add32 last 1)) s
          ≡ (ok tt, t))
        test e

  process_missed_reaches :
      (last best : ℕ) (s t : Nursery World bolt)
      → 0 < last
      → last < best
      → best < 2 ^ 32
      → process_missed bolt wallet chain last best s ≡ (ok tt, t)
      → Replayed best last s t × (t.db.last_graduated_height ≡ some best)
  process_missed_reaches last best s t a b c e =
      let run = process_missed_runs last best s t a b e in
      let count : best - last ≡ suc (best - last - 1) = omega arith in
      (
        subst (λ n. Replayed n last s t) (omega arith)
            (catch_up-Replayed (best - last) last s t (omega arith) run),
        catch_up_reaches (best - last - 1) (add32 last 1) s t (omega arith)
              (subst (λ n. catch_up bolt wallet chain n (add32 last 1) s ≡ (ok tt, t)) count run)
            ∙ ap some (omega arith),
      )

  -- If `reloadClasses` succeeds after a start at which the last graduated height is not zero and below
  -- the best height, which the chain answers throughout, then the active heights up to the last
  -- graduated one are regraduated, and after that every height above it, up to the best height, is
  -- graduated, one after the other and each without an error. The last graduated height is then the
  -- best height. Heights are below 2^32.
  pub reload_classes_synced :
      (last best : ℕ) (s t : Nursery World bolt)
      → 0 < last
      → last < best
      → best < 2 ^ 32
      → ((w : World) → (w' : World) × (chain.get_best_block w ≡ (value best, w')))
      → reload_classes bolt wallet chain last s ≡ (ok tt, t)
      → (u : Nursery World bolt) × (w : World) × (each bolt
            (regraduate_class bolt wallet chain)
            (heights_below_or_equal bolt last s.db)
            s
          ≡ (ok tt, u))
        × Replayed best last (record u { world = w }) t
        × (t.db.last_graduated_height ≡ some best)
  unfolding reload_classes
  reload_classes_synced last best s t a b c answers e =
      let active = heights_below_or_equal bolt last s.db in
      let r =
        bind_returned (each bolt (regraduate_class bolt wallet chain) active)
          (λ _. request bolt chain.get_best_block >>= process_missed bolt wallet chain last) s e in
      let (w, i) = answers r.after.world in
      let p =
        process_missed_reaches last best (record r.after { world = w }) t a b c
          (sym (ap (λ x. follow (process_missed bolt wallet chain last) (answer bolt r.after x)) i)
            ∙ r.rest) in
      (r.after, w, r.equation, p.0, p.1)
