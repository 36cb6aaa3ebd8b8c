-- ===== src/Nursery/Incubator/Variables.antt =====
-- Which variables the goroutines of preschool outputs point to (lnd/utxonursery.go).
use lndmobile.Prelude.{
  All, ℕ, suc, ◌<◌, ◌≤◌, ◌≡◌, false, some, List, [], ◌∷◌, ◌++◌, map, arith, refl, ap, sym, ◌∙◌,
  ==_iff,
}
use mathlib.Core.List.{append_assoc, append-nil}
use lndmobile.Prelude.Assoc.{nat_eq, lookup, insert, lookup-insert}
use lndmobile.Prelude.Exec.{ok, value, runs, follow}
use lndmobile.Wire.{Bytes}
use lndmobile.Bolt.{Bolt}
use lndmobile.Nursery.Output.{KidOutput}
use lndmobile.Nursery.Store.Transitions.{preschool_to_kinder}
use lndmobile.Nursery.Store.Queries.{fetch_preschools}
use lndmobile.Breach.Wallet.{Wallet}
use lndmobile.Nursery.Incubator.{
  Chain, preschool_conf, Goroutine, Nursery, update, answer, stored, each, new_kid_var,
  some_or_crash, go,
}
use lndmobile.Nursery.Incubator.Confirmations.{preschool_confirmed}
use lndmobile.Nursery.Incubator.Requests.{
  await_preschool, register_preschool_conf, register_current, register_each, register_loop,
  register_outputs, reload_summarised, register_reloaded, reload_output, reload_preschool,
}

-- The last element of a list that begins with the first one.
unfoldable pub last_of : KidOutput → List KidOutput → KidOutput
last_of o [] = o
last_of o (p ∷ ps) = last_of p ps

abbrev pub waiting : ℕ → Goroutine
waiting var = record { task = preschool_conf var; confirmed = false }

-- As many goroutines as there are outputs, all for one variable.
unfoldable pub all_waiting : ℕ → List KidOutput → List Goroutine
all_waiting var [] = []
all_waiting var (o ∷ os) = waiting var ∷ all_waiting var os

-- The notifier takes every registration.
abbrev pub Accepts : {World : Type 0} → Chain World → Type 0
Accepts {World} chain =
    (txid : Bytes) (depth hint : ℕ) (w : World)
    → (w' : World) × (chain.register_confirmations_ntfn txid depth hint w ≡ (value tt, w'))

lookup-inserted :
    (v : ℕ) (o : KidOutput) (m : List (ℕ × KidOutput)) → lookup v (insert v o m) ≡ some o
lookup-inserted v o m = lookup-insert v v o m ∙ ground (arith, ==_iff v v)

module _ {World : Type 0} (bolt : Bolt) (wallet : Wallet World) (chain : Chain World) where
  -- A state with a further goroutine.
  abbrev spawned : ℕ → World → Nursery World bolt → Nursery World bolt
  spawned var w s = record s { world = w; goroutines = s.goroutines ++ waiting var ∷ [] }

  register_preschool_conf_lem :
      Accepts chain
      → (var hint : ℕ) (o : KidOutput) (s : Nursery World bolt) → lookup var s.kid_vars ≡ some o
      → (w : World) × (register_preschool_conf bolt wallet chain var hint s
          ≡ (ok tt, spawned var w s))
  unfolding register_preschool_conf
  register_preschool_conf_lem a var hint o s e =
      let (w, r) = a o.out_point.hash chain.conf_depth hint s.world in
      (
        w,
        ap (λ x. follow (await_preschool bolt wallet chain var hint) (some_or_crash bolt x s)) e
            ∙ ap (λ x. follow (λ _. go bolt (preschool_conf var)) (answer bolt s x)) r,
      )

  record Shares (var : ℕ) (first : KidOutput) (os : List KidOutput) (s t : Nursery World bolt)
      : Type 0 where
    goroutines : t.goroutines ≡ s.goroutines ++ all_waiting var os
    variable : lookup var t.kid_vars ≡ some (last_of first os)
    same_db : t.db ≡ s.db

  register_each-Shares :
      Accepts chain
      → (hint var : ℕ) (first : KidOutput) (os : List KidOutput) (s : Nursery World bolt)
      → lookup var s.kid_vars ≡ some first
      → (t : Nursery World bolt) × (register_each bolt wallet chain hint var os s ≡ (ok tt, t))
        × Shares var first os s t
  unfolding register_each each last_of all_waiting
  register_each-Shares a hint var first [] s e =
      (s, refl, record { goroutines = sym (append-nil s.goroutines); variable = e; same_db = refl })
  register_each-Shares a hint var first (o ∷ os) s e =
      let s1 : Nursery World bolt = record s { kid_vars = insert var o s.kid_vars } in
      let (w, r) = register_preschool_conf_lem a var hint o s1 (lookup-inserted var o s.kid_vars) in
      let (t, r', z) =
        register_each-Shares a hint var o os (spawned var w s1)
          (lookup-inserted var o s.kid_vars) in
      (
        t,
        runs (register_current bolt wallet chain hint var o)
              (λ _. each bolt (register_current bolt wallet chain hint var) os) r
            ∙ r',
        record {
          goroutines =
              z.goroutines ∙ append_assoc s.goroutines (waiting var ∷ []) (all_waiting var os);
          variable = z.variable;
          same_db = z.same_db;
        },
      )

  -- If the notifier takes every registration, `IncubateOutputs` starts a goroutine for each of its
  -- preschool outputs, but all of them point to one variable, which holds the last output in the end.
  -- So what each of them moves to the kindergarten, when it is confirmed, is the last output.
  pub register_outputs_shares :
      Accepts chain
      → (hint : ℕ) (o : KidOutput) (os : List KidOutput) (s : Nursery World bolt)
      → (t : Nursery World bolt) × (var : ℕ) × (register_outputs bolt wallet chain hint (o ∷ os) s
          ≡ (ok tt, t))
        × (t.goroutines ≡ s.goroutines ++ all_waiting var (o ∷ os))
        × (preschool_confirmed bolt chain var t
            ≡ update bolt (preschool_to_kinder bolt (last_of o os)) t)
  unfolding register_outputs preschool_confirmed last_of
  register_outputs_shares a hint o os s =
      let s1 : Nursery World bolt = (new_kid_var bolt o s).1 in
      let (t, r, z) =
        register_each-Shares a hint s.next_var o (o ∷ os) s1
          (lookup-inserted s.next_var o s.kid_vars) in
      (
        t,
        s.next_var,
        runs (new_kid_var bolt o) (register_loop bolt wallet chain hint (o ∷ os)) refl ∙ r,
        z.goroutines,
        ap (λ x. follow (λ k. update bolt (preschool_to_kinder bolt k)) (some_or_crash bolt x t))
            z.variable,
      )

  -- Each output has a variable of its own.
  abbrev pub Holds : List ℕ → List KidOutput → Nursery World bolt → Type 0
  Holds [] [] t = Unit
  Holds (v ∷ vs) (o ∷ os) t = (lookup v t.kid_vars ≡ some o) × Holds vs os t
  Holds _ _ t = ⊥

  pub record Owns (os : List KidOutput) (s t : Nursery World bolt) : Type 0 where
    pub vars : List ℕ
    pub goroutines : t.goroutines ≡ s.goroutines ++ map waiting vars
    pub holds : Holds vars os t
    pub kept : (v : ℕ) → v < s.next_var → lookup v t.kid_vars ≡ lookup v s.kid_vars
    pub grows : s.next_var ≤ t.next_var
    pub same_db : t.db ≡ s.db

  -- channeldb has a summary of the channel of an output.
  abbrev pub Summarised : KidOutput → Type 0
  Summarised o =
      (w : World)
      → (h : ℕ) × (w' : World) × (chain.fetch_closed_channel o.origin_chan_point w
          ≡ (value (some h), w'))

  abbrev reloaded : KidOutput → World → Nursery World bolt → Nursery World bolt
  reloaded o w s = record s {
    kid_vars = insert s.next_var o s.kid_vars;
    next_var = suc s.next_var;
    world = w;
    goroutines = s.goroutines ++ waiting s.next_var ∷ [];
  }

  reload_output_lem :
      Accepts chain
      → (o : KidOutput) → Summarised o
      → (s : Nursery World bolt)
      → (w : World) × (reload_output bolt wallet chain o s ≡ (ok tt, reloaded o w s))
  unfolding reload_output
  reload_output_lem a o m s =
      let (h, w1, e) = m s.world in
      let s1 : Nursery World bolt = record s { world = w1 } in
      let s2 : Nursery World bolt = (new_kid_var bolt o s1).1 in
      let (w, r) =
        register_preschool_conf_lem a s.next_var _ o s2 (lookup-inserted s.next_var o s.kid_vars) in
      (
        w,
        ap (λ x. follow (reload_summarised bolt wallet chain o) (answer bolt s x)) e
            ∙ runs (new_kid_var bolt o) (register_reloaded bolt wallet chain h) refl
            ∙ r,
      )

  reload_each-Owns :
      Accepts chain
      → (os : List KidOutput) → All Summarised os
      → (s : Nursery World bolt)
      → (t : Nursery World bolt) × (each bolt (reload_output bolt wallet chain) os s ≡ (ok tt, t))
        × Owns os s t
  unfolding each
  reload_each-Owns a [] m s = (
    s,
    refl,
    record {
      vars = [];
      goroutines = sym (append-nil s.goroutines);
      holds = tt;
      kept = λ v l. refl;
      grows = omega arith;
      same_db = refl;
    },
  )
  reload_each-Owns a (o ∷ os) m s =
      let (w, e) = reload_output_lem a o m.0 s in
      let s1 = reloaded o w s in
      let (t, r, z) = reload_each-Owns a os m.1 s1 in
      (
        t,
        runs (reload_output bolt wallet chain o)
              (λ _. each bolt (reload_output bolt wallet chain) os) e
            ∙ r,
        record {
          vars = s.next_var ∷ z.vars;
          goroutines =
              z.goroutines
              ∙ append_assoc s.goroutines (waiting s.next_var ∷ []) (map waiting z.vars);
          holds =
              (z.kept s.next_var (omega arith) ∙ lookup-inserted s.next_var o s.kid_vars, z.holds);
          kept = λ v l.
              z.kept v (omega arith)
              ∙ lookup-insert s.next_var v o s.kid_vars
              ∙ ground (arith, ==_iff s.next_var v);
          grows = omega (arith, z.grows);
          same_db = z.same_db;
        },
      )

  -- If the notifier takes every registration and channeldb has a summary of the channel of every
  -- preschool output of the store, then
  -- after a restart there is a goroutine for each of these outputs, with a variable of its
  -- own that holds the output.
  pub reload_preschool-Owns :
      Accepts chain
      → (os : List KidOutput) (s : Nursery World bolt) → All Summarised os
      → fetch_preschools bolt s.db ≡ ok os
      → (t : Nursery World bolt) × (reload_preschool bolt wallet chain s ≡ (ok tt, t)) × Owns os s t
  unfolding reload_preschool
  reload_preschool-Owns a os s m e =
      let (t, r, z) = reload_each-Owns a os m s in
      (
        t,
        ap (λ x. follow (each bolt (reload_output bolt wallet chain)) (stored bolt s (x, s.db))) e
            ∙ r,
        z,
      )
