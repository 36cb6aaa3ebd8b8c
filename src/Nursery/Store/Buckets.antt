-- ===== src/Nursery/Store/Buckets.antt =====
-- The helpers of lnd/nursery_store.go that walk and prune the buckets. A bucket handle of the code
-- is the path to the bucket here; what is written through a handle is written at the path.
use lndmobile.Prelude.{ℕ, Bool, true, false, Option, none, some, List, [], ◌∷◌}
use lndmobile.Prelude.Assoc.{nat_eq}
use lndmobile.Prelude.Exec.{Result, ok, err, panic, Exec}
use lndmobile.Wire.{OutPoint, out_point_eq}
use lndmobile.Bolt.{Bolt}
use lndmobile.Nursery.Store.{
  PrefixKey, key_eq, Stored, Error, err_bucket_not_empty, no_height_channel_bucket,
  no_height_bucket, ChannelBucket, HeightChannelBucket, HeightBucket, Db,
}

abbrev pub and_then : {A B : Type 0} → Option A → (A → Option B) → Option B
and_then none f = none
and_then (some a) f = f a

abbrev pub or_else : {A : Type 0} → Option A → A → A
or_else none a = a
or_else (some b) a = b

-- Whether an error of `pruneHeight` is returned.
abbrev pub prune_result : Result Error Bool → Result Error (Unit {0})
prune_result (ok b) = ok tt
prune_result (err err_bucket_not_empty) = ok tt
prune_result (err e) = err e
prune_result panic = panic

module _ (bolt : Bolt) where
  open bolt use {Bucket, empty, get, put, delete, keys}

  abbrev pub Store : Type 0 → Type 0
  Store A = Exec Error (Db bolt) A

  unfoldable pub get_channel_bucket : OutPoint → Db bolt → Option (ChannelBucket bolt)
  get_channel_bucket cp db = and_then db.channel_index (get cp)

  unfoldable pub set_channel_bucket : OutPoint → ChannelBucket bolt → Db bolt → Db bolt
  set_channel_bucket cp b db = record db {
    channel_index = some (put cp b (or_else db.channel_index empty));
  }

  unfoldable pub create_channel_bucket : OutPoint → Db bolt → Db bolt
  unfolding get_channel_bucket set_channel_bucket
  create_channel_bucket cp db = set_channel_bucket cp (or_else (get_channel_bucket cp db) empty) db

  -- `chanBucket.Get`, `chanBucket.Put` and `chanBucket.Delete` for the bucket of a channel point.
  unfoldable pub get_output : OutPoint → PrefixKey → Db bolt → Option Stored
  unfolding get_channel_bucket
  get_output cp k db = and_then (get_channel_bucket cp db) (get k)

  unfoldable pub put_output : OutPoint → PrefixKey → Stored → Db bolt → Db bolt
  unfolding get_channel_bucket set_channel_bucket
  put_output cp k v db =
      set_channel_bucket cp (put k v (or_else (get_channel_bucket cp db) empty)) db

  unfoldable pub delete_output : OutPoint → PrefixKey → Db bolt → Db bolt
  unfolding get_channel_bucket set_channel_bucket
  delete_output cp k db =
      set_channel_bucket cp (delete k (or_else (get_channel_bucket cp db) empty)) db

  unfoldable pub get_height_bucket : ℕ → Db bolt → Option (HeightBucket bolt)
  get_height_bucket h db = and_then db.height_index (get h)

  unfoldable pub set_height_bucket : ℕ → HeightBucket bolt → Db bolt → Db bolt
  set_height_bucket h b db = record db {
    height_index = some (put h b (or_else db.height_index empty));
  }

  unfoldable pub delete_height_bucket : ℕ → Db bolt → Db bolt
  delete_height_bucket h db = record db {
    height_index = some (delete h (or_else db.height_index empty));
  }

  -- The bucket that `createHeightBucket` retrieves, or the empty one that it creates.
  unfoldable pub height_bucket_or_empty : ℕ → Db bolt → HeightBucket bolt
  unfolding get_height_bucket
  height_bucket_or_empty h db =
      or_else (get_height_bucket h db) (record { finalized_kndr_txn = none; channels = empty })

  unfoldable pub create_height_bucket : ℕ → Db bolt → Db bolt
  unfolding height_bucket_or_empty set_height_bucket
  create_height_bucket h db = set_height_bucket h (height_bucket_or_empty h db) db

  unfoldable pub get_height_channel_bucket :
      ℕ → OutPoint → Db bolt → Option (HeightChannelBucket bolt)
  unfolding get_height_bucket
  get_height_channel_bucket h cp db = and_then (get_height_bucket h db) (λ b. get cp b.channels)

  unfoldable pub set_height_channel_bucket :
      ℕ → OutPoint → HeightChannelBucket bolt → Db bolt → Db bolt
  unfolding height_bucket_or_empty set_height_bucket
  set_height_channel_bucket h cp c db =
      let b = height_bucket_or_empty h db in
      set_height_bucket h (record b { channels = put cp c b.channels }) db

  unfoldable pub create_height_channel_bucket : ℕ → OutPoint → Db bolt → Db bolt
  unfolding get_height_channel_bucket set_height_channel_bucket
  create_height_channel_bucket h cp db =
      set_height_channel_bucket h cp (or_else (get_height_channel_bucket h cp db) empty) db

  -- `hghtChanBucket.Put(pfxOutputKey, []byte{})`
  unfoldable pub put_height_key : ℕ → OutPoint → PrefixKey → Db bolt → Db bolt
  unfolding get_height_channel_bucket set_height_channel_bucket
  put_height_key h cp k db =
      set_height_channel_bucket h cp (put k tt (or_else (get_height_channel_bucket h cp db) empty))
        db

  unfoldable pub is_bucket_empty : {K V : Type 0} → Bucket K V → Bool
  is_bucket_empty b = elim (keys b) [ [] ↦ true | k ∷ ks ↦ false ]

  -- The loop of `pruneHeight` over the channels at a height.
  unfoldable pub check_pruned :
      Bucket OutPoint (HeightChannelBucket bolt) → List OutPoint → Result Error (Unit {0})
  unfolding is_bucket_empty
  check_pruned b [] = ok tt
  check_pruned b (cp ∷ cps) =
      let rest = check_pruned b cps in
      elim (get cp b) [
        | none ↦ err no_height_channel_bucket
        | some c ↦ elim (is_bucket_empty c) [ true ↦ rest | false ↦ err err_bucket_not_empty ]
      ]

  unfoldable pub prune_height : ℕ → Store Bool
  unfolding get_height_bucket delete_height_bucket check_pruned
  prune_height h db = elim (get_height_bucket h db) [
    | none ↦ (ok false, db)
    | some b ↦ elim (check_pruned b.channels (keys b.channels)) [
      | ok u ↦ (ok true, delete_height_bucket h db)
      | err e ↦ (err e, db)
      | panic ↦ (panic, db)
    ]
  ]

  unfoldable pub remove_output_from_height : ℕ → OutPoint → PrefixKey → Store (Unit {0})
  remove_output_from_height h cp k db = elim (get_height_channel_bucket h cp db) [
    | none ↦ (ok tt, db)
    | some c ↦
        let left = delete k c in
        let db1 = set_height_channel_bucket h cp left db in
        elim (get_height_bucket h db1) [
          | none ↦ (err no_height_bucket, db1)
          | some b ↦ elim (is_bucket_empty left) [
            | false ↦ (ok tt, db1)
            | true ↦
                let db2 = set_height_bucket h (record b { channels = delete cp b.channels }) db1 in
                let (r, db3) = prune_height h db2 in (prune_result r, db3)
          ]
        ]
  ]
