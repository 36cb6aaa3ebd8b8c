-- ===== src/Nursery/Store/Moves.antt =====
-- What `PreschoolToKinder` and `CribToKinder` (lnd/nursery_store.go) do to the whole store.
use lndmobile.Prelude.{
  ℕ, ◌+◌, ◌<◌, ◌≤◌, ◌^◌, ◌==◌, ◌&&◌, ◌≡◌, Bool, none, some, arith, refl, ap, ◌∙◌, inl, inr,
  if◌then◌else◌,
}
use lndmobile.Prelude.Exec.{Result, ok, ◌>>◌, modify}
use lndmobile.Wire.{OutPoint, out_point_eqb}
use lndmobile.Bolt.{Bolt}
use lndmobile.Nursery.Output.{KidOutput, BabyOutput}
use lndmobile.Nursery.Store.{crib, pscl, kndr, PrefixKey, key, key_eqb, Stored, kid, Error, Db}
use lndmobile.Nursery.Store.Buckets.{
  get_output, put_output, delete_output, create_channel_bucket, create_height_channel_bucket,
  put_height_key, remove_output_from_height, set_channel_bucket, set_height_channel_bucket,
  set_height_bucket, get_height_bucket,
}
use lndmobile.Nursery.Store.Transitions.{
  class_height, get_last_graduated_height, preschool_to_kinder, crib_to_kinder, add32, transaction,
}
use lndmobile.Nursery.Store.Queries.{get_finalized_txn}
use lndmobile.Nursery.Store.Frame.{
  SameHeights, FinalizedOrPruned, finalized-put, finalized-create, finalized-remove, heights-remove,
}
use lndmobile.Nursery.Store.Views.{get_height_key}
use lndmobile.Nursery.Store.Laws.{store_laws, remove_result}

-- Whether a key of a channel is the given one.
abbrev pub at_key : OutPoint → PrefixKey → OutPoint → PrefixKey → Bool
at_key cp k c j = out_point_eqb cp c && key_eqb k j

-- The same at a height.
abbrev pub at_height_key : ℕ → OutPoint → PrefixKey → ℕ → OutPoint → PrefixKey → Bool
at_height_key h cp k g c j = h == g && out_point_eqb cp c && key_eqb k j

-- The height at which the output may be spent: its absolute timelock if it has no relative one.
abbrev pub maturity_height : KidOutput → ℕ
maturity_height o =
    if o.blocks_to_maturity == 0 then o.absolute_maturity else o.conf_height + o.blocks_to_maturity

-- `PreschoolToKinder` files an output above the last graduated height, not below its maturity
-- height, and at exactly its maturity height if that is still to come. It is so if the heights do
-- not overflow.
pub class_height_bounds :
    (o : KidOutput) (last : ℕ)
    → last + 1 < 2 ^ 32
    → o.absolute_maturity < 2 ^ 32
    → o.conf_height + o.blocks_to_maturity < 2 ^ 32
    → (last < class_height o last)
      × (maturity_height o ≤ class_height o last)
      × (last < maturity_height o → class_height o last ≡ maturity_height o)
unfolding class_height
class_height_bounds o last b c d = ground arith

module _ (bolt : Bolt) where
  -- `PreschoolToKinder` succeeds.
  pub preschool_to_kinder-ok :
      (o : KidOutput) (db : Db bolt) → (preschool_to_kinder bolt o db).0 ≡ ok tt
  unfolding preschool_to_kinder
  preschool_to_kinder-ok o db = refl

  pub get_output-preschool_to_kinder :
      (o : KidOutput) (db : Db bolt) (c : OutPoint) (j : PrefixKey)
      → get_output bolt c j (preschool_to_kinder bolt o db).1 ≡ (
          if at_key o.origin_chan_point (key kndr o.out_point) c j
          then some (kid o)
          else if at_key o.origin_chan_point (key pscl o.out_point) c j
          then none
          else get_output bolt c j db)
  unfolding preschool_to_kinder
  get_output-preschool_to_kinder o db c j = simp store_laws

  pub get_height_key-preschool_to_kinder :
      (o : KidOutput) (db : Db bolt) (h : ℕ) (c : OutPoint) (j : PrefixKey)
      → get_height_key bolt h c j (preschool_to_kinder bolt o db).1 ≡ (
          if at_height_key
            (class_height o (get_last_graduated_height bolt db))
            o.origin_chan_point
            (key kndr o.out_point)
            h
            c
            j
          then some tt
          else get_height_key bolt h c j db)
  unfolding preschool_to_kinder
  get_height_key-preschool_to_kinder o db h c j = simp store_laws refl

  -- The store in which the crib output was dropped from its channel.
  abbrev uncribbed : BabyOutput → Db bolt → Db bolt
  uncribbed b db =
      delete_output bolt b.kid.origin_chan_point (key crib b.kid.out_point)
        (create_channel_bucket bolt b.kid.origin_chan_point db)

  -- The store after a crib output was removed and its kindergarten output was filed.
  abbrev filed : BabyOutput → Db bolt → Db bolt
  filed b db =
      let height = add32 b.kid.conf_height b.kid.blocks_to_maturity in
      let cp = b.kid.origin_chan_point in
      let k = key kndr b.kid.out_point in
      put_height_key bolt height cp k
        (create_height_channel_bucket bolt height cp (put_output bolt cp k (kid b.kid) db))

  -- What `CribToKinder` makes of the outcome of the removal.
  abbrev file_kinder :
      BabyOutput → Db bolt → Result Error (Unit {0}) × Db bolt → Result Error (Unit {0}) × Db bolt
  file_kinder b db r = transaction ((λ s. r) >> modify (filed b)) db

  crib_to_kinder-eq :
      (b : BabyOutput) (db : Db bolt)
      → crib_to_kinder bolt b db ≡ (
        ok tt,
        filed b
            (remove_output_from_height bolt b.expiry b.kid.origin_chan_point
              (key crib b.kid.out_point)
              (uncribbed b db)).1,
      )
  unfolding crib_to_kinder
  crib_to_kinder-eq b db = ap (file_kinder b db) (
      remove_result bolt b.expiry b.kid.origin_chan_point (key crib b.kid.out_point)
        (uncribbed b db))

  pub get_output-crib_to_kinder :
      (b : BabyOutput) (db : Db bolt) (c : OutPoint) (j : PrefixKey)
      → get_output bolt c j (crib_to_kinder bolt b db).1 ≡ (
          if at_key b.kid.origin_chan_point (key kndr b.kid.out_point) c j
          then some (kid b.kid)
          else if at_key b.kid.origin_chan_point (key crib b.kid.out_point) c j
          then none
          else get_output bolt c j db)
  get_output-crib_to_kinder b db c j = rw (crib_to_kinder-eq b db) (simp store_laws refl)

  pub get_height_key-crib_to_kinder :
      (b : BabyOutput) (db : Db bolt) (h : ℕ) (c : OutPoint) (j : PrefixKey)
      → get_height_key bolt h c j (crib_to_kinder bolt b db).1 ≡ (
          if at_height_key
            (add32 b.kid.conf_height b.kid.blocks_to_maturity)
            b.kid.origin_chan_point
            (key kndr b.kid.out_point)
            h
            c
            j
          then some tt
          else if at_height_key b.expiry b.kid.origin_chan_point (key crib b.kid.out_point) h c j
          then none
          else get_height_key bolt h c j db)
  get_height_key-crib_to_kinder b db h c j = rw (crib_to_kinder-eq b db) (simp store_laws refl)

  pub crib_to_kinder-ok : (b : BabyOutput) (db : Db bolt) → (crib_to_kinder bolt b db).0 ≡ ok tt
  crib_to_kinder-ok b db = rw (crib_to_kinder-eq b db)

  heights-preschool_to_kinder :
      (o : KidOutput) (db : Db bolt) → SameHeights bolt db (preschool_to_kinder bolt o db).1
  unfolding preschool_to_kinder create_channel_bucket delete_output put_output set_channel_bucket
      create_height_channel_bucket put_height_key set_height_channel_bucket set_height_bucket
  heights-preschool_to_kinder o db = record { same_finalized = refl; same_graduated = refl }

  -- The store after an output was moved in its channel.
  abbrev moved : KidOutput → Db bolt → Db bolt
  moved o db =
      let cp = o.origin_chan_point in
      put_output bolt cp (key kndr o.out_point) (kid o)
        (delete_output bolt cp (key pscl o.out_point) (create_channel_bucket bolt cp db))

  finalized-moved :
      (o : KidOutput) (db : Db bolt) (h : ℕ)
      → get_finalized_txn bolt h (moved o db) ≡ get_finalized_txn bolt h db
  unfolding get_finalized_txn get_height_bucket create_channel_bucket delete_output put_output
      set_channel_bucket
  finalized-moved o db h = refl

  finalized-preschool_to_kinder :
      (o : KidOutput) (db : Db bolt) (h : ℕ)
      → get_finalized_txn bolt h (preschool_to_kinder bolt o db).1 ≡ get_finalized_txn bolt h db
  unfolding preschool_to_kinder
  finalized-preschool_to_kinder o db h =
      let cp = o.origin_chan_point in
      let height = class_height o (get_last_graduated_height bolt (moved o db)) in
      finalized-put bolt height h cp (key kndr o.out_point)
        (create_height_channel_bucket bolt height cp (moved o db))
      ∙ finalized-create bolt height h cp (moved o db)
      ∙ finalized-moved o db h

  heights-uncribbed : (b : BabyOutput) (db : Db bolt) → SameHeights bolt db (uncribbed b db)
  unfolding create_channel_bucket delete_output set_channel_bucket
  heights-uncribbed b db = record { same_finalized = refl; same_graduated = refl }

  heights-filed : (b : BabyOutput) (db : Db bolt) → SameHeights bolt db (filed b db)
  unfolding put_output set_channel_bucket create_height_channel_bucket put_height_key
      set_height_channel_bucket set_height_bucket
  heights-filed b db = record { same_finalized = refl; same_graduated = refl }

  heights-crib_to_kinder :
      (b : BabyOutput) (db : Db bolt) → SameHeights bolt db (crib_to_kinder bolt b db).1
  heights-crib_to_kinder b db =
      let r =
        heights-remove bolt b.expiry b.kid.origin_chan_point (key crib b.kid.out_point)
          (uncribbed b db) in
      let u = heights-uncribbed b db in
      let f =
        heights-filed b
          (remove_output_from_height bolt b.expiry b.kid.origin_chan_point
            (key crib b.kid.out_point) (uncribbed b db)).1 in
      rw (crib_to_kinder-eq b db) (record {
        same_finalized = f.same_finalized ∙ r.same_finalized ∙ u.same_finalized;
        same_graduated = f.same_graduated ∙ r.same_graduated ∙ u.same_graduated;
      })

  finalized-uncribbed :
      (b : BabyOutput) (db : Db bolt) (h : ℕ)
      → get_finalized_txn bolt h (uncribbed b db) ≡ get_finalized_txn bolt h db
  unfolding get_finalized_txn get_height_bucket create_channel_bucket delete_output
      set_channel_bucket
  finalized-uncribbed b db h = refl

  finalized-put_output :
      (cp : OutPoint) (k : PrefixKey) (v : Stored) (db : Db bolt) (h : ℕ)
      → get_finalized_txn bolt h (put_output bolt cp k v db) ≡ get_finalized_txn bolt h db
  unfolding get_finalized_txn get_height_bucket put_output set_channel_bucket
  finalized-put_output cp k v db h = refl

  finalized-filed :
      (b : BabyOutput) (db : Db bolt) (h : ℕ)
      → get_finalized_txn bolt h (filed b db) ≡ get_finalized_txn bolt h db
  finalized-filed b db h =
      let height = add32 b.kid.conf_height b.kid.blocks_to_maturity in
      let cp = b.kid.origin_chan_point in
      let k = key kndr b.kid.out_point in
      let t = put_output bolt cp k (kid b.kid) db in
      finalized-put bolt height h cp k (create_height_channel_bucket bolt height cp t)
      ∙ finalized-create bolt height h cp t
      ∙ finalized-put_output cp k (kid b.kid) db h

  finalized-crib_to_kinder :
      (b : BabyOutput) (db : Db bolt) (h : ℕ)
      → FinalizedOrPruned bolt b.expiry db (crib_to_kinder bolt b db).1 h
  finalized-crib_to_kinder b db h =
      let k = key crib b.kid.out_point in
      let cp = b.kid.origin_chan_point in
      let left = (remove_output_from_height bolt b.expiry cp k (uncribbed b db)).1 in
      let f = finalized-filed b left h in
      rw (crib_to_kinder-eq b db) (elim (finalized-remove bolt b.expiry h cp k (uncribbed b db)) [
        | inl p ↦ inl (f ∙ p ∙ finalized-uncribbed b db h)
        | inr p ↦ inr (p.0, f ∙ p.1)
      ])

  -- `PreschoolToKinder` succeeds. It moves the output from the preschool key of its channel to the
  -- kindergarten key and files it at the height of its class. All other outputs and keys of heights,
  -- the last finalized and graduated heights, and the finalized transactions stay as they are.
  pub preschool_to_kinder_effect :
      (o : KidOutput) (db : Db bolt)
      → ((preschool_to_kinder bolt o db).0 ≡ ok tt)
        × ((c : OutPoint) (j : PrefixKey)
            → get_output bolt c j (preschool_to_kinder bolt o db).1 ≡ (
                if at_key o.origin_chan_point (key kndr o.out_point) c j
                then some (kid o)
                else if at_key o.origin_chan_point (key pscl o.out_point) c j
                then none
                else get_output bolt c j db))
        × ((h : ℕ) (c : OutPoint) (j : PrefixKey)
            → get_height_key bolt h c j (preschool_to_kinder bolt o db).1 ≡ (
                if at_height_key
                  (class_height o (get_last_graduated_height bolt db))
                  o.origin_chan_point
                  (key kndr o.out_point)
                  h
                  c
                  j
                then some tt
                else get_height_key bolt h c j db))
        × SameHeights bolt db (preschool_to_kinder bolt o db).1
        × ((h : ℕ)
            → get_finalized_txn bolt h (preschool_to_kinder bolt o db).1
              ≡ get_finalized_txn bolt h db)
  preschool_to_kinder_effect o db = (
    preschool_to_kinder-ok o db,
    get_output-preschool_to_kinder o db,
    get_height_key-preschool_to_kinder o db,
    heights-preschool_to_kinder o db,
    λ h. finalized-preschool_to_kinder o db h,
  )

  -- `CribToKinder` succeeds. It moves the output from the crib key of its channel to the
  -- kindergarten key, takes it off the height of its expiry, and files it at the height of its
  -- relative maturity. All other outputs and keys of heights, and the last finalized and graduated
  -- heights, stay as they are, and so do the finalized transactions, but for that of the height of
  -- its expiry, which may be pruned with the bucket of the height.
  pub crib_to_kinder_effect :
      (b : BabyOutput) (db : Db bolt)
      → ((crib_to_kinder bolt b db).0 ≡ ok tt)
        × ((c : OutPoint) (j : PrefixKey)
            → get_output bolt c j (crib_to_kinder bolt b db).1 ≡ (
                if at_key b.kid.origin_chan_point (key kndr b.kid.out_point) c j
                then some (kid b.kid)
                else if at_key b.kid.origin_chan_point (key crib b.kid.out_point) c j
                then none
                else get_output bolt c j db))
        × ((h : ℕ) (c : OutPoint) (j : PrefixKey)
            → get_height_key bolt h c j (crib_to_kinder bolt b db).1 ≡ (
                if at_height_key
                  (add32 b.kid.conf_height b.kid.blocks_to_maturity)
                  b.kid.origin_chan_point
                  (key kndr b.kid.out_point)
                  h
                  c
                  j
                then some tt
                else if at_height_key b.expiry b.kid.origin_chan_point
                    (key crib b.kid.out_point)
                    h
                    c
                    j
                then none
                else get_height_key bolt h c j db))
        × SameHeights bolt db (crib_to_kinder bolt b db).1
        × ((h : ℕ) → FinalizedOrPruned bolt b.expiry db (crib_to_kinder bolt b db).1 h)
  crib_to_kinder_effect b db = (
    crib_to_kinder-ok b db,
    get_output-crib_to_kinder b db,
    get_height_key-crib_to_kinder b db,
    heights-crib_to_kinder b db,
    λ h. finalized-crib_to_kinder b db h,
  )
