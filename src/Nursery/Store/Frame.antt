-- ===== src/Nursery/Store/Frame.antt =====
-- What the moves of the store leave as it is: the last heights, and the finalized transactions
-- (lnd/nursery_store.go).
use lndmobile.Prelude.{
  ℕ, ◌≡◌, ◌⊎◌, none, arith, refl, inl, inr, sym, ◌∙◌, Option-cases, Bool-cases, ==_iff,
}
use lndmobile.Wire.{OutPoint, out_point_eq}
use lndmobile.Bolt.{Bolt}
use lndmobile.Prelude.Assoc.{nat_eq}
use lndmobile.Nursery.Store.{PrefixKey, key_eq, HeightChannelBucket, HeightBucket, Db}
use lndmobile.Nursery.Store.Buckets.{
  get_height_bucket, set_height_bucket, height_bucket_or_empty, set_height_channel_bucket,
  get_height_channel_bucket, delete_height_bucket, is_bucket_empty, prune_height,
  remove_output_from_height, put_height_key, create_height_channel_bucket,
}
use lndmobile.Nursery.Store.Queries.{get_finalized_txn}
use lndmobile.Nursery.Store.Removal.{remove_absent, remove_one, remove_last, emptied}
use lndmobile.Nursery.Store.Views.{get_height-set, get_height-delete}

module _ (bolt : Bolt) where
  open bolt use {delete, keys}

  pub record SameHeights (db t : Db bolt) : Type 0 where
    pub same_finalized : t.last_finalized_height ≡ db.last_finalized_height
    pub same_graduated : t.last_graduated_height ≡ db.last_graduated_height

  finalized-set :
      (h g : ℕ) (b : HeightBucket bolt) (db : Db bolt)
      → b.finalized_kndr_txn ≡ get_finalized_txn bolt h db
      → get_finalized_txn bolt g (set_height_bucket bolt h b db) ≡ get_finalized_txn bolt g db
  unfolding get_finalized_txn
  finalized-set h g b db e = ground (arith, get_height-set bolt h g b db, ==_iff h g)

  finalized-height_bucket :
      (h : ℕ) (db : Db bolt)
      → (height_bucket_or_empty bolt h db).finalized_kndr_txn ≡ get_finalized_txn bolt h db
  unfolding get_finalized_txn height_bucket_or_empty
  finalized-height_bucket h db = elim (Option-cases (get_height_bucket bolt h db)) [
    | inl e ↦ rw (e) refl
    | inr (b, e) ↦ rw (e) refl
  ]

  pub finalized-set_channel :
      (h g : ℕ) (cp : OutPoint) (c : HeightChannelBucket bolt) (db : Db bolt)
      → get_finalized_txn bolt g (set_height_channel_bucket bolt h cp c db)
        ≡ get_finalized_txn bolt g db
  unfolding set_height_channel_bucket
  finalized-set_channel h g cp c db = finalized-set h g _ db (finalized-height_bucket h db)

  pub finalized-create :
      (h g : ℕ) (cp : OutPoint) (db : Db bolt)
      → get_finalized_txn bolt g (create_height_channel_bucket bolt h cp db)
        ≡ get_finalized_txn bolt g db
  unfolding create_height_channel_bucket
  finalized-create h g cp db = finalized-set_channel h g cp _ db

  pub finalized-put :
      (h g : ℕ) (cp : OutPoint) (k : PrefixKey) (db : Db bolt)
      → get_finalized_txn bolt g (put_height_key bolt h cp k db) ≡ get_finalized_txn bolt g db
  unfolding put_height_key
  finalized-put h g cp k db = finalized-set_channel h g cp _ db

  -- The finalized transaction of a height is as before, or it went with the height's bucket.
  abbrev pub FinalizedOrPruned : ℕ → Db bolt → Db bolt → ℕ → Type 0
  FinalizedOrPruned h db t g =
      (get_finalized_txn bolt g t ≡ get_finalized_txn bolt g db)
      ⊎ ((h ≡ g) × (get_finalized_txn bolt g t ≡ none))

  finalized-prune : (h g : ℕ) (db : Db bolt) → FinalizedOrPruned h db (prune_height bolt h db).1 g
  unfolding prune_height get_finalized_txn
  finalized-prune h g db = elim (Option-cases (get_height_bucket bolt h db)) [
    | inl e ↦ ground arith
    | inr (b, e) ↦ ground (arith, get_height-delete bolt h g db, ==_iff h g)
  ]

  heights-prune : (h : ℕ) (db : Db bolt) → SameHeights db (prune_height bolt h db).1
  unfolding prune_height delete_height_bucket
  heights-prune h db = record { same_finalized = ground arith; same_graduated = ground arith }

  finalized-emptied :
      (h g : ℕ) (cp : OutPoint) (c : HeightChannelBucket bolt) (db : Db bolt)
      → get_finalized_txn bolt g (emptied bolt h cp c db) ≡ get_finalized_txn bolt g db
  finalized-emptied h g cp c db =
      let i = finalized-set_channel h in
      finalized-set h g _ _ (finalized-height_bucket h db ∙ sym (i h cp c db)) ∙ i g cp c db

  pub finalized-remove :
      (h g : ℕ) (cp : OutPoint) (k : PrefixKey) (db : Db bolt)
      → FinalizedOrPruned h db (remove_output_from_height bolt h cp k db).1 g
  finalized-remove h g cp k db = elim (Option-cases (get_height_channel_bucket bolt h cp db)) [
    | inl e ↦ rw (remove_absent bolt h cp k db e) (inl refl)
    | inr (c, e) ↦ elim (Bool-cases (is_bucket_empty bolt (delete k c))) [
      | inr y ↦
          rw (remove_one bolt h cp k db c e y) (inl (finalized-set_channel h g cp (delete k c) db))
      | inl y ↦
          rw (remove_last bolt h cp k db c e y)
            (elim (finalized-prune h g (emptied bolt h cp (delete k c) db)) [
              | inl p ↦ inl (p ∙ finalized-emptied h g cp (delete k c) db)
              | inr p ↦ inr p
            ])
    ]
  ]

  pub heights-remove :
      (h : ℕ) (cp : OutPoint) (k : PrefixKey) (db : Db bolt)
      → SameHeights db (remove_output_from_height bolt h cp k db).1
  unfolding set_height_channel_bucket set_height_bucket
  heights-remove h cp k db = elim (Option-cases (get_height_channel_bucket bolt h cp db)) [
    | inl e ↦
        rw (remove_absent bolt h cp k db e)
          (record { same_finalized = refl; same_graduated = refl })
    | inr (c, e) ↦ elim (Bool-cases (is_bucket_empty bolt (delete k c))) [
      | inr y ↦
          rw (remove_one bolt h cp k db c e y)
            (record { same_finalized = refl; same_graduated = refl })
      | inl y ↦
          let p = heights-prune h (emptied bolt h cp (delete k c) db) in
          rw (remove_last bolt h cp k db c e y)
            (record { same_finalized = p.same_finalized; same_graduated = p.same_graduated })
    ]
  ]
