-- ===== src/Nursery/Store/Registration.antt =====
-- What `Incubate` (lnd/nursery_store.go) makes of the two indexes of the store.
use lndmobile.Prelude.{
  ℕ, ◌&&◌, ◌≡◌, Option, some, List, [], ◌∷◌, refl, subst, sym, All, if◌then◌else◌,
}
use lndmobile.Wire.{OutPoint}
use lndmobile.Bolt.{Bolt}
use lndmobile.Nursery.Output.{KidOutput, BabyOutput}
use lndmobile.Nursery.Store.{crib, pscl, PrefixKey, key, Stored, kid, baby, Db}
use lndmobile.Nursery.Store.Buckets.{or_else, get_output}
use lndmobile.Nursery.Store.Transitions.{enter_crib, enter_preschool, incubate, for_each}
use lndmobile.Nursery.Store.Views.{get_height_key}
use lndmobile.Nursery.Store.Moves.{at_key, at_height_key}
use lndmobile.Nursery.Store.Entry.{
  is_none, enter_crib_ok, enter_preschool_ok, get_output-enter_crib, get_output-enter_preschool,
  get_height_key-enter_crib, get_height_key-enter_preschool,
}
use lndmobile.Nursery.Store.Incubation.{
  Succeeds, next_of, both, Keeps, KidEntered, BabyEntered, incubate-both, incubate_enters,
}

-- The two indexes as functions: the output under a key of a channel, and whether a key of a channel
-- is filed at a height.
pub record Index : Type 0 where
  pub output : OutPoint → PrefixKey → Option Stored
  pub at_height : ℕ → OutPoint → PrefixKey → Option (Unit {0})

-- A preschool output is entered under its key, if that is free.
abbrev pub with_kid : KidOutput → Index → Index
with_kid o i = record i {
  output = λ c j.
      if at_key o.origin_chan_point (key pscl o.out_point) c j
      then some (or_else (i.output c j) (kid o))
      else i.output c j;
}

-- A crib output is entered under its key, and filed at its expiry, if the key is free.
abbrev pub with_baby : BabyOutput → Index → Index
with_baby b i = record {
  output = λ c j.
      if at_key b.kid.origin_chan_point (key crib b.kid.out_point) c j
      then some (or_else (i.output c j) (baby b))
      else i.output c j;
  at_height = λ h c j.
      if at_height_key b.expiry b.kid.origin_chan_point (key crib b.kid.out_point) h c j
        && is_none (i.output c j)
      then some tt
      else i.at_height h c j;
}

abbrev pub with_kids : List KidOutput → Index → Index
with_kids [] i = i
with_kids (o ∷ os) i = with_kids os (with_kid o i)

abbrev pub with_babies : List BabyOutput → Index → Index
with_babies [] i = i
with_babies (b ∷ bs) i = with_babies bs (with_baby b i)

module _ (bolt : Bolt) where
  abbrev pub index_of : Db bolt → Index
  index_of db = record {
    output = λ c j. get_output bolt c j db;
    at_height = λ h c j. get_height_key bolt h c j db;
  }

  -- A store has the outputs and the heights of an index.
  pub record HasIndex (i : Index) (db : Db bolt) : Type 0 where
    pub outputs : (c : OutPoint) (j : PrefixKey) → get_output bolt c j db ≡ i.output c j
    pub heights :
        (h : ℕ) (c : OutPoint) (j : PrefixKey) → get_height_key bolt h c j db ≡ i.at_height h c j

  enter_preschool-HasIndex :
      (o : KidOutput) (i : Index) (db : Db bolt)
      → HasIndex i db
      → HasIndex (with_kid o i) (enter_preschool bolt o db).1
  enter_preschool-HasIndex o i db s = record {
    outputs = λ c j. rw (get_output-enter_preschool bolt o db c j, s.outputs c j) refl;
    heights = λ h c j. rw (get_height_key-enter_preschool bolt o db h c j) (s.heights h c j);
  }

  enter_crib-HasIndex :
      (b : BabyOutput) (i : Index) (db : Db bolt)
      → HasIndex i db
      → HasIndex (with_baby b i) (enter_crib bolt b db).1
  enter_crib-HasIndex b i db s = record {
    outputs = λ c j. rw (get_output-enter_crib bolt b db c j, s.outputs c j) refl;
    heights = λ h c j.
        rw (get_height_key-enter_crib bolt b db h c j, s.outputs c j, s.heights h c j) refl;
  }

  kids-HasIndex :
      (os : List KidOutput) (i : Index) (db : Db bolt)
      → HasIndex i db
      → Succeeds (HasIndex (with_kids os i)) (for_each (enter_preschool bolt) os db)
  unfolding for_each
  kids-HasIndex [] i db s = record { store = db; result = refl; holds = s }
  kids-HasIndex (o ∷ os) i db s =
      let t = (enter_preschool bolt o db).1 in
      subst
        (λ r. Succeeds (HasIndex (with_kids (o ∷ os) i)) (next_of (enter_preschool bolt) os (r, t)))
        (sym (enter_preschool_ok bolt o db))
        (kids-HasIndex os (with_kid o i) t (enter_preschool-HasIndex o i db s))

  babies-HasIndex :
      (bs : List BabyOutput) (i : Index) (db : Db bolt)
      → HasIndex i db
      → Succeeds (HasIndex (with_babies bs i)) (for_each (enter_crib bolt) bs db)
  unfolding for_each
  babies-HasIndex [] i db s = record { store = db; result = refl; holds = s }
  babies-HasIndex (b ∷ bs) i db s =
      let t = (enter_crib bolt b db).1 in
      subst
        (λ r. Succeeds (HasIndex (with_babies (b ∷ bs) i)) (next_of (enter_crib bolt) bs (r, t)))
        (sym (enter_crib_ok bolt b db))
        (babies-HasIndex bs (with_baby b i) t (enter_crib-HasIndex b i db s))

  -- `Incubate` succeeds, whatever the store holds. It leaves every output that the store holds as it
  -- is, and afterwards the key of every output that it was given is taken. The outputs and the keys of
  -- heights of the store are then just those that come of entering the preschool outputs and after
  -- them the crib outputs, in order: each under its own key if that is free, a crib output also at the
  -- height of its expiry.
  pub incubate_registers :
      (kids : List KidOutput) (babies : List BabyOutput) (db : Db bolt)
      → Succeeds
          (λ t.
            (Keeps bolt db t
              × (All (λ o. KidEntered bolt o t) kids × All (λ b. BabyEntered bolt b t) babies))
            × HasIndex (with_babies babies (with_kids kids (index_of db))) t)
          (incubate bolt kids babies db)
  incubate_registers kids babies db = both (incubate_enters bolt kids babies db) (
      incubate-both bolt kids babies (HasIndex (with_kids kids (index_of db)))
        (HasIndex (with_babies babies (with_kids kids (index_of db)))) db
        (kids-HasIndex kids (index_of db) db
          (record { outputs = λ c j. refl; heights = λ h c j. refl }))
        (λ t s. babies-HasIndex babies (with_kids kids (index_of db)) t s))
