-- ===== src/Nursery/Store/Removal.antt =====
-- `removeOutputFromHeight` and `pruneHeight` (lnd/nursery_store.go), with the pruning of buckets.
use lndmobile.Prelude.{
  ℕ, ◌≡◌, ◌≢◌, ◌⊎◌, ◌==◌, ◌&&◌, true, false, none, some, List, [], ◌∷◌, arith, refl, if◌then◌else◌,
  inl, inr, Option-cases, Bool-cases,
}
use lndmobile.Prelude.Assoc.{nat_eq}
use lndmobile.Prelude.Exec.{ok, err}
use lndmobile.Wire.{OutPoint, out_point_eqb, out_point_eqb_iff, out_point_eq}
use lndmobile.Bolt.{Bolt, contains}
use lndmobile.Nursery.Store.{
  PrefixKey, key_eq, key_eqb, err_bucket_not_empty, HeightChannelBucket, HeightBucket, Db,
}
use lndmobile.Nursery.Store.Buckets.{
  get_height_bucket, set_height_bucket, height_bucket_or_empty, delete_height_bucket,
  get_height_channel_bucket, set_height_channel_bucket, is_bucket_empty, check_pruned, prune_height,
  prune_result, remove_output_from_height,
}
use lndmobile.Nursery.Store.Views.{
  get_height_key, in_bucket, get_height_key-eq, get_height_key-set, get_height-set,
  get_height-delete,
}

module _ (bolt : Bolt) where
  open bolt use {
    Bucket, empty, get, put, delete, keys, get-empty, get-put, get-delete, contains-keys,
  }

  get_of_empty :
      (b : HeightChannelBucket bolt) (k : PrefixKey)
      → is_bucket_empty bolt b ≡ true
      → get k b ≡ none
  unfolding is_bucket_empty
  get_of_empty b k e = elim (Option-cases (get k b)) [
    | inl n ↦ n
    | inr (u, s) ↦ ground (arith, (contains-keys k b).1)
  ]

  check_finds :
      (b : Bucket OutPoint (HeightChannelBucket bolt)) (cps : List OutPoint) (c : OutPoint)
      (d : HeightChannelBucket bolt)
      → check_pruned bolt b cps ≡ ok tt
      → contains c cps ≡ true
      → get c b ≡ some d
      → is_bucket_empty bolt d ≡ true
  unfolding check_pruned
  check_finds b [] c d p m g = cc
  check_finds b (cp ∷ cps) c d p m g = ground (arith, out_point_eqb_iff cp c, check_finds b cps c d)

  check_total :
      (b : Bucket OutPoint (HeightChannelBucket bolt)) (cps : List OutPoint)
      → ((c : OutPoint) → contains c cps ≡ true → get c b ≢ none)
      → (check_pruned bolt b cps ≡ ok tt) ⊎ (check_pruned bolt b cps ≡ err err_bucket_not_empty)
  unfolding check_pruned
  check_total b [] h = inl refl
  check_total b (cp ∷ cps) h =
      let rest = check_total b cps (λ c m. h c (ground arith)) in
      ground (arith, out_point_eqb_iff cp cp, h cp, rest)

  prune_total : (h : ℕ) (db : Db bolt) → prune_result (prune_height bolt h db).0 ≡ ok tt
  unfolding prune_height
  prune_total h db = elim (Option-cases (get_height_bucket bolt h db)) [
    | inl e ↦ ground arith
    | inr (b, e) ↦
        let t = check_total b.channels (keys b.channels) (λ c. (contains-keys c b.channels).0) in
        ground (arith, t)
  ]

  pruned_bucket :
      (b : HeightBucket bolt) (c : OutPoint) (j : PrefixKey)
      → check_pruned bolt b.channels (keys b.channels) ≡ ok tt
      → in_bucket bolt c j b ≡ none
  pruned_bucket b c j p = elim (Option-cases (get c b.channels)) [
    | inl n ↦ ground arith
    | inr (d, e) ↦
        let m = contains-keys c b.channels in
        ground (
          arith,
          m.1,
          get_of_empty d j (check_finds b.channels (keys b.channels) c d p (m.1 (λ n. cc)) e),
        )
  ]

  -- Pruning a height removes no key.
  get_height_key-prune :
      (h g : ℕ) (c : OutPoint) (j : PrefixKey) (db : Db bolt)
      → get_height_key bolt g c j (prune_height bolt h db).1 ≡ get_height_key bolt g c j db
  unfolding prune_height
  get_height_key-prune h g c j db = elim (Option-cases (get_height_bucket bolt h db)) [
    | inl e ↦ ground arith
    | inr (b, e) ↦
        elim (check_total b.channels (keys b.channels) (λ x. (contains-keys x b.channels).0)) [
          | inl p ↦ ground (
            arith,
            get_height_key-eq bolt g c j db,
            get_height_key-eq bolt g c j (delete_height_bucket bolt h db),
            get_height-delete bolt h g db,
            pruned_bucket b c j p,
          )
          | inr p ↦ ground arith
        ]
  ]

  -- The bucket of a height after one of its channel buckets was written.
  abbrev pub filled : ℕ → OutPoint → HeightChannelBucket bolt → Db bolt → HeightBucket bolt
  filled h cp left db = record (height_bucket_or_empty bolt h db) {
    channels = put cp left (height_bucket_or_empty bolt h db).channels;
  }

  get_height-filled :
      (h : ℕ) (cp : OutPoint) (left : HeightChannelBucket bolt) (db : Db bolt)
      → get_height_bucket bolt h (set_height_channel_bucket bolt h cp left db)
        ≡ some (filled h cp left db)
  unfolding set_height_channel_bucket
  get_height-filled h cp left db = ground (arith, get_height-set bolt h h (filled h cp left db) db)

  abbrev pub written : ℕ → OutPoint → HeightChannelBucket bolt → Db bolt → Db bolt
  written = set_height_channel_bucket bolt

  -- The store before the pruning.
  abbrev pub emptied : ℕ → OutPoint → HeightChannelBucket bolt → Db bolt → Db bolt
  emptied h cp left db =
      set_height_bucket bolt h
        (record (filled h cp left db) { channels = delete cp (filled h cp left db).channels })
        (written h cp left db)

  pub remove_absent :
      (h : ℕ) (cp : OutPoint) (k : PrefixKey) (db : Db bolt)
      → get_height_channel_bucket bolt h cp db ≡ none
      → remove_output_from_height bolt h cp k db ≡ (ok tt, db)
  unfolding remove_output_from_height
  remove_absent h cp k db e = ground arith

  module _ (h : ℕ) (cp : OutPoint) (k : PrefixKey) (db : Db bolt) (b : HeightChannelBucket bolt)
      (e : get_height_channel_bucket bolt h cp db ≡ some b) where
    pub remove_one :
        is_bucket_empty bolt (delete k b) ≡ false
        → remove_output_from_height bolt h cp k db ≡ (ok tt, written h cp (delete k b) db)
    unfolding remove_output_from_height
    remove_one s = ground (arith, get_height-filled h cp (delete k b) db)

    pub remove_last :
        is_bucket_empty bolt (delete k b) ≡ true
        → remove_output_from_height bolt h cp k db
          ≡ (ok tt, (prune_height bolt h (emptied h cp (delete k b) db)).1)
    unfolding remove_output_from_height
    remove_last s = ground (
      arith,
      get_height-filled h cp (delete k b) db,
      prune_total h (emptied h cp (delete k b) db),
    )

    get_height_key-written :
        (g : ℕ) (c : OutPoint) (j : PrefixKey)
        → get_height_key bolt g c j (written h cp (delete k b) db) ≡ (
            if h == g && out_point_eqb cp c && key_eqb k j
            then none
            else get_height_key bolt g c j db)
    unfolding get_height_key
    get_height_key-written g c j = ground (
      arith,
      get_height_key-set bolt h g cp c (delete k b) j db,
      get-delete k j b,
      out_point_eqb_iff cp c,
    )

    get_height_key-emptied :
        (g : ℕ) (c : OutPoint) (j : PrefixKey)
        → is_bucket_empty bolt (delete k b) ≡ true
        → get_height_key bolt g c j (emptied h cp (delete k b) db)
          ≡ get_height_key bolt g c j (written h cp (delete k b) db)
    get_height_key-emptied g c j s =
        let left = delete k b in
        let old = (height_bucket_or_empty bolt h db).channels in
        let last = filled h cp left db in
        ground (
          arith,
          get_height_key-eq bolt g c j (emptied h cp left db),
          get_height_key-eq bolt g c j (written h cp left db),
          get_height-filled h cp left db,
          get_height-set bolt h g (record last { channels = delete cp last.channels })
              (written h cp left db),
          get-delete cp c (put cp left old),
          get-put cp c left old,
          get_of_empty left j s,
          out_point_eqb_iff cp c,
        )

    get_height_key-remove_from :
        (g : ℕ) (c : OutPoint) (j : PrefixKey)
        → get_height_key bolt g c j (remove_output_from_height bolt h cp k db).1 ≡ (
            if h == g && out_point_eqb cp c && key_eqb k j
            then none
            else get_height_key bolt g c j db)
    get_height_key-remove_from g c j = elim (Bool-cases (is_bucket_empty bolt (delete k b))) [
      | inl s ↦
          rw
            (
              remove_last s,
              get_height_key-prune h g c j (emptied h cp (delete k b) db),
              get_height_key-emptied g c j s,
            )
            (get_height_key-written g c j)
      | inr s ↦ rw (remove_one s) (get_height_key-written g c j)
    ]

  -- Removing a key from a height never fails.
  pub remove_total :
      (h : ℕ) (cp : OutPoint) (k : PrefixKey) (db : Db bolt)
      → (remove_output_from_height bolt h cp k db).0 ≡ ok tt
  remove_total h cp k db = elim (Option-cases (get_height_channel_bucket bolt h cp db)) [
    | inl e ↦ rw (remove_absent h cp k db e)
    | inr (b, e) ↦ elim (Bool-cases (is_bucket_empty bolt (delete k b))) [
      | inl s ↦ rw (remove_last h cp k db b e s)
      | inr s ↦ rw (remove_one h cp k db b e s)
    ]
  ]

  -- It removes the key under the channel point at the height, and no other.
  pub get_height_key-remove :
      (h g : ℕ) (cp c : OutPoint) (k j : PrefixKey) (db : Db bolt)
      → get_height_key bolt g c j (remove_output_from_height bolt h cp k db).1 ≡ (
          if h == g && out_point_eqb cp c && key_eqb k j
          then none
          else get_height_key bolt g c j db)
  unfolding get_height_key
  get_height_key-remove h g cp c k j db =
      elim (Option-cases (get_height_channel_bucket bolt h cp db)) [
        | inl e ↦ rw (remove_absent h cp k db e) (ground (arith, out_point_eqb_iff cp c))
        | inr (b, e) ↦ get_height_key-remove_from h cp k db b e g c j
      ]
