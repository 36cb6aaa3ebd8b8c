-- ===== src/Nursery/Store/Incubation.antt =====
-- The loops of `Incubate` (lnd/nursery_store.go), and what the store holds after them.
use lndmobile.Prelude.{
  ◌≡◌, ◌≢◌, none, some, List, [], ◌∷◌, arith, refl, ap, subst, sym, ◌∙◌, inl, inr, Option-cases,
  All,
}
use lndmobile.Prelude.Exec.{Result, ok, err, panic, ◌>>◌}
use lndmobile.Wire.{OutPoint, out_point_eqb_iff}
use lndmobile.Bolt.{Bolt}
use lndmobile.Nursery.Output.{KidOutput, BabyOutput}
use lndmobile.Nursery.Store.{crib, pscl, kndr, PrefixKey, key, Stored, kid, Error, Db}
use lndmobile.Nursery.Store.Buckets.{get_output}
use lndmobile.Nursery.Store.Transitions.{
  enter_crib, enter_preschool, incubate, for_each, transaction, preschool_to_kinder,
}
use lndmobile.Nursery.Store.Moves.{get_output-preschool_to_kinder}
use lndmobile.Nursery.Store.Entry.{
  enter_crib_ok, enter_preschool_ok, get_output-enter_crib, get_output-enter_preschool,
}

-- A method succeeded, and the store that it left has a property.
pub record Succeeds {S : Type 0} (P : S → Type 0) (r : Result Error (Unit {0}) × S) : Type 0 where
  pub store : S
  pub result : r ≡ (ok tt, store)
  pub holds : P store

pub succeeds :
    {S : Type 0} {P : S → Type 0} {r : Result Error (Unit {0}) × S}
    → r.0 ≡ ok tt
    → P r.1
    → Succeeds P r
succeeds {r} e p = record { store = r.1; result = ap (λ x. (x, r.1)) e; holds = p }

-- The rest of a loop, given the outcome of its first round.
abbrev pub next_of :
    {S A : Type 0}
    → (A → S → Result Error (Unit {0}) × S)
    → List A
    → Result Error (Unit {0}) × S
    → Result Error (Unit {0}) × S
next_of f xs r = elim r.0 [ ok u ↦ for_each f xs r.1 | err e ↦ (err e, r.1) | panic ↦ (panic, r.1) ]

-- A loop whose body always succeeds and keeps a property.
for_each-Succeeds :
    {S A : Type 0} (P : S → Type 0) (f : A → S → Result Error (Unit {0}) × S)
    → ((a : A) (s : S) → P s → Succeeds P (f a s))
    → (xs : List A) (s : S) → P s
    → Succeeds P (for_each f xs s)
unfolding for_each
for_each-Succeeds P f step [] s p = record { store = s; result = refl; holds = p }
for_each-Succeeds P f step (x ∷ xs) s p =
    let first = step x s p in
    let rest = for_each-Succeeds P f step xs first.store first.holds in
    subst (λ r. Succeeds P (next_of f xs r)) (sym first.result) rest

-- Two properties of the store that a method leaves.
pub both :
    {S : Type 0} {P Q : S → Type 0} {r : Result Error (Unit {0}) × S}
    → Succeeds P r
    → Succeeds Q r
    → Succeeds (λ s. P s × Q s) r
both {P} {Q} {r} p q = record {
  store = p.store;
  result = p.result;
  holds = (p.holds, subst Q (sym (ap (λ x. x.1) q.result) ∙ ap (λ x. x.1) p.result) q.holds);
}

-- What each round of a loop establishes, and no other round undoes, holds for all in the end.
for_each-All :
    {S A : Type 0} (Q : A → S → Type 0) (f : A → S → Result Error (Unit {0}) × S)
    → ((a : A) (s : S) → Succeeds (Q a) (f a s))
    → ((a b : A) (s : S) → Q b s → Succeeds (Q b) (f a s))
    → (xs : List A) (s : S) → Succeeds (λ t. All (λ a. Q a t) xs) (for_each f xs s)
unfolding for_each
for_each-All Q f start keep [] s = record { store = s; result = refl; holds = tt }
for_each-All Q f start keep (x ∷ xs) s =
    let first = start x s in
    let rest = for_each-All Q f start keep xs first.store in
    let kept = for_each-Succeeds (Q x) f (λ a. keep a x) xs first.store first.holds in
    subst (λ r. Succeeds (λ t. All (λ a. Q a t) (x ∷ xs)) (next_of f xs r)) (sym first.result)
      (both kept rest)

module _ (bolt : Bolt) where
  -- The outputs that a store holds are held by a later one, unchanged.
  abbrev pub Keeps : Db bolt → Db bolt → Type 0
  Keeps db t =
      (c : OutPoint) (j : PrefixKey) (v : Stored)
      → get_output bolt c j db ≡ some v
      → get_output bolt c j t ≡ some v

  abbrev pub KidEntered : KidOutput → Db bolt → Type 0
  KidEntered o db = get_output bolt o.origin_chan_point (key pscl o.out_point) db ≢ none

  abbrev pub BabyEntered : BabyOutput → Db bolt → Type 0
  BabyEntered b db = get_output bolt b.kid.origin_chan_point (key crib b.kid.out_point) db ≢ none

  preschool-Keeps : (o : KidOutput) (db : Db bolt) → Keeps db (enter_preschool bolt o db).1
  preschool-Keeps o db c j v e = ground (arith, get_output-enter_preschool bolt o db c j)

  crib-Keeps : (b : BabyOutput) (db : Db bolt) → Keeps db (enter_crib bolt b db).1
  crib-Keeps b db c j v e = ground (arith, get_output-enter_crib bolt b db c j)

  -- What a store holds under a key stays held.
  held :
      (db t : Db bolt) (c : OutPoint) (j : PrefixKey)
      → Keeps db t
      → get_output bolt c j db ≢ none
      → get_output bolt c j t ≢ none
  held db t c j k n e = elim (Option-cases (get_output bolt c j db)) [
    | inl m ↦ n m
    | inr (v, s) ↦ ground (arith, k c j v s)
  ]

  preschool-KidEntered :
      (a o : KidOutput) (db : Db bolt)
      → KidEntered o db
      → Succeeds (KidEntered o) (enter_preschool bolt a db)
  preschool-KidEntered a o db e =
      succeeds (enter_preschool_ok bolt a db)
        (held db _ o.origin_chan_point (key pscl o.out_point) (preschool-Keeps a db) e)

  crib-KidEntered :
      (b : BabyOutput) (o : KidOutput) (db : Db bolt)
      → KidEntered o db
      → KidEntered o (enter_crib bolt b db).1
  crib-KidEntered b o db e =
      held db _ o.origin_chan_point (key pscl o.out_point) (crib-Keeps b db) e

  crib-BabyEntered :
      (a b : BabyOutput) (db : Db bolt)
      → BabyEntered b db
      → Succeeds (BabyEntered b) (enter_crib bolt a db)
  crib-BabyEntered a b db e =
      succeeds (enter_crib_ok bolt a db)
        (held db _ b.kid.origin_chan_point (key crib b.kid.out_point) (crib-Keeps a db) e)

  preschool_enters :
      (o : KidOutput) (db : Db bolt) → Succeeds (KidEntered o) (enter_preschool bolt o db)
  preschool_enters o db = succeeds (enter_preschool_ok bolt o db) (
      ground (
        arith,
        get_output-enter_preschool bolt o db o.origin_chan_point (key pscl o.out_point),
        out_point_eqb_iff o.origin_chan_point o.origin_chan_point,
        out_point_eqb_iff o.out_point o.out_point,
      ))

  crib_enters : (b : BabyOutput) (db : Db bolt) → Succeeds (BabyEntered b) (enter_crib bolt b db)
  crib_enters b db = succeeds (enter_crib_ok bolt b db) (
      ground (
        arith,
        get_output-enter_crib bolt b db b.kid.origin_chan_point (key crib b.kid.out_point),
        out_point_eqb_iff b.kid.origin_chan_point b.kid.origin_chan_point,
        out_point_eqb_iff b.kid.out_point b.kid.out_point,
      ))

  crib-AllEntered :
      (b : BabyOutput) (os : List KidOutput) (db : Db bolt)
      → All (λ o. KidEntered o db) os
      → All (λ o. KidEntered o (enter_crib bolt b db).1) os
  crib-AllEntered b [] db a = tt
  crib-AllEntered b (o ∷ os) db a = (crib-KidEntered b o db a.0, crib-AllEntered b os db a.1)

  module _ (kids : List KidOutput) (babies : List BabyOutput) where
    -- The two loops of `Incubate`.
    pub incubate-both :
        (P Q : Db bolt → Type 0) (db : Db bolt)
        → Succeeds P (for_each (enter_preschool bolt) kids db)
        → ((t : Db bolt) → P t → Succeeds Q (for_each (enter_crib bolt) babies t))
        → Succeeds Q (incubate bolt kids babies db)
    unfolding incubate
    incubate-both P Q db first second =
        let rest = second first.store first.holds in
        record {
          store = rest.store;
          result =
              ap (λ r. transaction ((λ s. r) >> for_each (enter_crib bolt) babies) db) first.result
              ∙ ap (λ r. transaction (λ s. r) db) rest.result;
          holds = rest.holds;
        }

    pub incubate-Succeeds :
        (P : Db bolt → Type 0)
        → ((o : KidOutput) (db : Db bolt) → P db → Succeeds P (enter_preschool bolt o db))
        → ((b : BabyOutput) (db : Db bolt) → P db → Succeeds P (enter_crib bolt b db))
        → (db : Db bolt) → P db
        → Succeeds P (incubate bolt kids babies db)
    incubate-Succeeds P f g db p =
        incubate-both P P db (for_each-Succeeds P (enter_preschool bolt) f kids db p)
          (for_each-Succeeds P (enter_crib bolt) g babies)

    incubate-Keeps : (db : Db bolt) → Succeeds (Keeps db) (incubate bolt kids babies db)
    incubate-Keeps db =
        incubate-Succeeds (Keeps db)
          (λ o t k.
            succeeds (enter_preschool_ok bolt o t)
              (λ c j v e. preschool-Keeps o t c j v (k c j v e)))
          (λ b t k. succeeds (enter_crib_ok bolt b t) (λ c j v e. crib-Keeps b t c j v (k c j v e)))
          db (λ c j v e. e)

    -- `Incubate` succeeds, whatever the store holds. It leaves every output that the store holds as
    -- it is, and afterwards the key of every output that it was given is taken.
    pub incubate_enters :
        (db : Db bolt)
        → Succeeds
            (λ t. Keeps db t × (All (λ o. KidEntered o t) kids × All (λ b. BabyEntered b t) babies))
            (incubate bolt kids babies db)
    incubate_enters db =
        let loop =
          for_each-All KidEntered (enter_preschool bolt) preschool_enters preschool-KidEntered kids
            db in
        both (incubate-Keeps db) (
          both
            (incubate-both (λ t. All (λ o. KidEntered o t) kids)
              (λ t. All (λ o. KidEntered o t) kids) db loop
              (for_each-Succeeds (λ t. All (λ o. KidEntered o t) kids) (enter_crib bolt)
                (λ b t a. succeeds (enter_crib_ok bolt b t) (crib-AllEntered b kids t a)) babies))
            (incubate-both (λ t. All (λ o. KidEntered o t) kids)
              (λ t. All (λ b. BabyEntered b t) babies) db loop
              (λ t a.
                for_each-All BabyEntered (enter_crib bolt) crib_enters crib-BabyEntered babies t)))

  incubate_one :
      (o : KidOutput) (db : Db bolt)
      → incubate bolt (o ∷ []) [] db ≡ (ok tt, (enter_preschool bolt o db).1)
  unfolding incubate for_each
  incubate_one o db =
      ap
        (λ r.
          transaction
            ((λ s. next_of (enter_preschool bolt) [] (r, (enter_preschool bolt o db).1))
              >> for_each (enter_crib bolt) [])
            db)
        (enter_preschool_ok bolt o db)

  -- An output that moved on to the kindergarten and is incubated once more is registered twice: it
  -- is in the preschool, from which it can move on again, beside its kindergarten entry.
  pub incubate_again :
      (o : KidOutput) (db : Db bolt)
      → let t = (incubate bolt (o ∷ []) [] (preschool_to_kinder bolt o db).1).1 in
        (get_output bolt o.origin_chan_point (key pscl o.out_point) t ≡ some (kid o))
        × (get_output bolt o.origin_chan_point (key kndr o.out_point) t ≡ some (kid o))
  incubate_again o db =
      let t = (preschool_to_kinder bolt o db).1 in
      let cp = o.origin_chan_point in
      let moved = get_output-preschool_to_kinder bolt o db cp in
      let entered = get_output-enter_preschool bolt o t cp in
      rw (incubate_one o t) (
        ground (
          arith,
          moved (key pscl o.out_point),
          entered (key pscl o.out_point),
          out_point_eqb_iff cp cp,
          out_point_eqb_iff o.out_point o.out_point,
        ),
        ground (
          arith,
          moved (key kndr o.out_point),
          entered (key kndr o.out_point),
          out_point_eqb_iff cp cp,
          out_point_eqb_iff o.out_point o.out_point,
        ),
      )
