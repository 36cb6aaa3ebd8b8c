-- ===== src/Nursery/Store/Views.antt =====
-- What the store of lnd/nursery_store.go holds: the output under a key of a channel, and whether a
-- key is filed at a height, with a law for each helper that changes a bucket.
use lndmobile.Prelude.{ℕ, ◌≡◌, ◌==◌, ◌&&◌, Option, none, some, arith, if◌then◌else◌}
use lndmobile.Prelude.Assoc.{nat_eq}
use lndmobile.Wire.{OutPoint, out_point_eqb, out_point_eqb_iff, out_point_eq}
use lndmobile.Bolt.{Bolt}
use lndmobile.Nursery.Store.{
  PrefixKey, key_eq, key_eqb, Stored, ChannelBucket, HeightChannelBucket, HeightBucket, Db,
}
use lndmobile.Nursery.Store.Buckets.{
  and_then, or_else, get_channel_bucket, set_channel_bucket, create_channel_bucket, get_output,
  put_output, delete_output, get_height_bucket, set_height_bucket, height_bucket_or_empty,
  get_height_channel_bucket, set_height_channel_bucket, create_height_channel_bucket,
  put_height_key, delete_height_bucket,
}

module _ (bolt : Bolt) where
  open bolt use {Bucket, empty, get, put, delete, keys, get-empty, get-put, get-delete}

  -- Whether a key is filed at a height, under a channel point.
  unfoldable pub get_height_key : ℕ → OutPoint → PrefixKey → Db bolt → Option (Unit {0})
  unfolding get_height_channel_bucket
  get_height_key h cp k db = and_then (get_height_channel_bucket bolt h cp db) (get k)

  pub get_output-set_channel :
      (cp c : OutPoint) (b : ChannelBucket bolt) (k : PrefixKey) (db : Db bolt)
      → get_output bolt c k (set_channel_bucket bolt cp b db)
        ≡ (if out_point_eqb cp c then get k b else get_output bolt c k db)
  unfolding get_output set_channel_bucket
  get_output-set_channel cp c b k db =
      ground (
        arith,
        get-put cp c b (or_else db.channel_index empty),
        get-empty {V = ChannelBucket bolt} c,
      )

  -- Reading a bucket, or the empty one in its place.
  get-or_else :
      (cp : OutPoint) (k : PrefixKey) (db : Db bolt)
      → get k (or_else (get_channel_bucket bolt cp db) empty) ≡ get_output bolt cp k db
  unfolding get_output
  get-or_else cp k db = ground (arith, get-empty {V = Stored} k)

  pub get_output-put :
      (cp c : OutPoint) (k j : PrefixKey) (v : Stored) (db : Db bolt)
      → get_output bolt c j (put_output bolt cp k v db)
        ≡ (if out_point_eqb cp c && key_eqb k j then some v else get_output bolt c j db)
  unfolding put_output
  get_output-put cp c k j v db =
      rw (get_output-set_channel, get-put)
        (ground (arith, get-or_else cp j db, out_point_eqb_iff cp c))

  pub get_output-delete :
      (cp c : OutPoint) (k j : PrefixKey) (db : Db bolt)
      → get_output bolt c j (delete_output bolt cp k db)
        ≡ (if out_point_eqb cp c && key_eqb k j then none else get_output bolt c j db)
  unfolding delete_output
  get_output-delete cp c k j db =
      rw (get_output-set_channel, get-delete)
        (ground (arith, get-or_else cp j db, out_point_eqb_iff cp c))

  pub get_output-create :
      (cp c : OutPoint) (j : PrefixKey) (db : Db bolt)
      → get_output bolt c j (create_channel_bucket bolt cp db) ≡ get_output bolt c j db
  unfolding create_channel_bucket
  get_output-create cp c j db =
      rw (get_output-set_channel) (ground (arith, get-or_else cp j db, out_point_eqb_iff cp c))

  pub get_height-set :
      (h g : ℕ) (b : HeightBucket bolt) (db : Db bolt)
      → get_height_bucket bolt g (set_height_bucket bolt h b db)
        ≡ (if h == g then some b else get_height_bucket bolt g db)
  unfolding get_height_bucket set_height_bucket
  get_height-set h g b db =
      ground
        (arith, get-put h g b (or_else db.height_index empty), get-empty {V = HeightBucket bolt} g)

  pub get_height-delete :
      (h g : ℕ) (db : Db bolt)
      → get_height_bucket bolt g (delete_height_bucket bolt h db)
        ≡ (if h == g then none else get_height_bucket bolt g db)
  unfolding get_height_bucket delete_height_bucket
  get_height-delete h g db =
      ground
        (arith, get-delete h g (or_else db.height_index empty), get-empty {V = HeightBucket bolt} g)

  -- The key as it is read through the bucket of its height.
  abbrev pub in_bucket : OutPoint → PrefixKey → HeightBucket bolt → Option (Unit {0})
  in_bucket cp k b = and_then (get cp b.channels) (get k)

  pub get_height_key-eq :
      (h : ℕ) (cp : OutPoint) (k : PrefixKey) (db : Db bolt)
      → get_height_key h cp k db ≡ and_then (get_height_bucket bolt h db) (in_bucket cp k)
  unfolding get_height_key get_height_channel_bucket
  get_height_key-eq h cp k db = ground arith

  get_height_key-or_empty :
      (h : ℕ) (cp : OutPoint) (k : PrefixKey) (db : Db bolt)
      → in_bucket cp k (height_bucket_or_empty bolt h db) ≡ get_height_key h cp k db
  unfolding get_height_key height_bucket_or_empty
  get_height_key-or_empty h cp k db = ground (arith, get-empty {V = HeightChannelBucket bolt} cp)

  pub get_height_key-set :
      (h g : ℕ) (cp c : OutPoint) (b : HeightChannelBucket bolt) (j : PrefixKey) (db : Db bolt)
      → get_height_key g c j (set_height_channel_bucket bolt h cp b db)
        ≡ (if h == g && out_point_eqb cp c then get j b else get_height_key g c j db)
  unfolding set_height_channel_bucket
  get_height_key-set h g cp c b j db =
      rw (get_height_key-eq, get_height-set)
        (ground (
          arith,
          get-put cp c b (height_bucket_or_empty bolt h db).channels,
          get_height_key-or_empty h c j db,
          get_height_key-eq g c j db,
        ))

  get_height-or_else :
      (h : ℕ) (cp : OutPoint) (k : PrefixKey) (db : Db bolt)
      → get k (or_else (get_height_channel_bucket bolt h cp db) empty) ≡ get_height_key h cp k db
  unfolding get_height_key
  get_height-or_else h cp k db = ground (arith, get-empty {V = Unit {0}} k)

  pub get_height_key-put :
      (h g : ℕ) (cp c : OutPoint) (k j : PrefixKey) (db : Db bolt)
      → get_height_key g c j (put_height_key bolt h cp k db)
        ≡ (if h == g && out_point_eqb cp c && key_eqb k j then some tt else get_height_key g c j db)
  unfolding put_height_key
  get_height_key-put h g cp c k j db =
      rw (get_height_key-set, get-put)
        (ground (arith, get_height-or_else h cp j db, out_point_eqb_iff cp c))

  pub get_height_key-create :
      (h g : ℕ) (cp c : OutPoint) (j : PrefixKey) (db : Db bolt)
      → get_height_key g c j (create_height_channel_bucket bolt h cp db) ≡ get_height_key g c j db
  unfolding create_height_channel_bucket
  get_height_key-create h g cp c j db =
      rw (get_height_key-set) (ground (arith, get_height-or_else h cp j db, out_point_eqb_iff cp c))
