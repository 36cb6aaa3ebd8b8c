-- ===== src/Nursery/Store/Laws.antt =====
-- What the changes of one index leave alone in the other, and of the heights.
use lndmobile.Prelude.{ℕ, ◌≡◌, arith, refl, Option-cases, Bool-cases, inl, inr, ap}
use lndmobile.Prelude.Exec.{ok}
use lndmobile.Wire.{OutPoint}
use lndmobile.Bolt.{Bolt}
use lndmobile.Nursery.Store.{PrefixKey, key_eq, Stored, HeightChannelBucket, Db}
use lndmobile.Nursery.Store.Buckets.{
  create_channel_bucket, get_output, put_output, delete_output, set_channel_bucket,
  set_height_bucket, set_height_channel_bucket, get_height_channel_bucket, delete_height_bucket,
  create_height_channel_bucket, put_height_key, is_bucket_empty, prune_height,
  remove_output_from_height,
}
use lndmobile.Nursery.Store.Transitions.{get_last_graduated_height}
use lndmobile.Nursery.Store.Views.{
  get_height_key, get_output-put, get_output-delete, get_output-create, get_height_key-put,
  get_height_key-create,
}
use lndmobile.Nursery.Store.Removal.{
  get_height_key-remove, remove_total, remove_absent, remove_one, remove_last, written, emptied,
}

module _ (bolt : Bolt) where
  open bolt use {delete}

  -- What the removal of a key from a height leaves alone.
  pub record SameOutputs (d e : Db bolt) : Type 0 where
    pub channels : e.channel_index ≡ d.channel_index
    pub graduated : e.last_graduated_height ≡ d.last_graduated_height
    pub finalized : e.last_finalized_height ≡ d.last_finalized_height

  prune-SameOutputs : (h : ℕ) (db : Db bolt) → SameOutputs db (prune_height bolt h db).1
  unfolding prune_height delete_height_bucket
  prune-SameOutputs h db = ground arith

  written-SameOutputs :
      (h : ℕ) (cp : OutPoint) (b : HeightChannelBucket bolt) (db : Db bolt)
      → SameOutputs db (written bolt h cp b db)
  unfolding set_height_channel_bucket set_height_bucket
  written-SameOutputs h cp b db = record { channels = refl; graduated = refl; finalized = refl }

  emptied-SameOutputs :
      (h : ℕ) (cp : OutPoint) (b : HeightChannelBucket bolt) (db : Db bolt)
      → SameOutputs db (prune_height bolt h (emptied bolt h cp b db)).1
  unfolding set_height_channel_bucket set_height_bucket
  emptied-SameOutputs h cp b db =
      let p = prune-SameOutputs h (emptied bolt h cp b db) in
      record { channels = p.channels; graduated = p.graduated; finalized = p.finalized }

  pub remove-SameOutputs :
      (h : ℕ) (cp : OutPoint) (k : PrefixKey) (db : Db bolt)
      → SameOutputs db (remove_output_from_height bolt h cp k db).1
  remove-SameOutputs h cp k db = elim (Option-cases (get_height_channel_bucket bolt h cp db)) [
    | inl e ↦
        rw (remove_absent bolt h cp k db e)
          (record { channels = refl; graduated = refl; finalized = refl })
    | inr (b, e) ↦ elim (Bool-cases (is_bucket_empty bolt (delete k b))) [
      | inl s ↦ rw (remove_last bolt h cp k db b e s) (emptied-SameOutputs h cp (delete k b) db)
      | inr s ↦ rw (remove_one bolt h cp k db b e s) (written-SameOutputs h cp (delete k b) db)
    ]
  ]

  pub get_output-remove :
      (h : ℕ) (cp c : OutPoint) (k j : PrefixKey) (db : Db bolt)
      → get_output bolt c j (remove_output_from_height bolt h cp k db).1 ≡ get_output bolt c j db
  unfolding get_output
  get_output-remove h cp c k j db = rw (remove-SameOutputs h cp k db).channels

  pub get_output-create_height :
      (h : ℕ) (cp c : OutPoint) (j : PrefixKey) (db : Db bolt)
      → get_output bolt c j (create_height_channel_bucket bolt h cp db) ≡ get_output bolt c j db
  unfolding get_output create_height_channel_bucket set_height_channel_bucket set_height_bucket
  get_output-create_height h cp c j db = refl

  pub get_output-put_height :
      (h : ℕ) (cp c : OutPoint) (k j : PrefixKey) (db : Db bolt)
      → get_output bolt c j (put_height_key bolt h cp k db) ≡ get_output bolt c j db
  unfolding get_output put_height_key set_height_channel_bucket set_height_bucket
  get_output-put_height h cp c k j db = refl

  pub get_height_key-create_channel :
      (g : ℕ) (cp c : OutPoint) (j : PrefixKey) (db : Db bolt)
      → get_height_key bolt g c j (create_channel_bucket bolt cp db) ≡ get_height_key bolt g c j db
  unfolding get_height_key create_channel_bucket set_channel_bucket get_height_channel_bucket
  get_height_key-create_channel g cp c j db = refl

  pub get_height_key-put_output :
      (g : ℕ) (cp c : OutPoint) (k j : PrefixKey) (v : Stored) (db : Db bolt)
      → get_height_key bolt g c j (put_output bolt cp k v db) ≡ get_height_key bolt g c j db
  unfolding get_height_key put_output set_channel_bucket get_height_channel_bucket
  get_height_key-put_output g cp c k j v db = refl

  pub get_height_key-delete_output :
      (g : ℕ) (cp c : OutPoint) (k j : PrefixKey) (db : Db bolt)
      → get_height_key bolt g c j (delete_output bolt cp k db) ≡ get_height_key bolt g c j db
  unfolding get_height_key delete_output set_channel_bucket get_height_channel_bucket
  get_height_key-delete_output g cp c k j db = refl

  pub get_last-create_channel :
      (cp : OutPoint) (db : Db bolt)
      → get_last_graduated_height bolt (create_channel_bucket bolt cp db)
        ≡ get_last_graduated_height bolt db
  unfolding get_last_graduated_height create_channel_bucket set_channel_bucket
  get_last-create_channel cp db = refl

  pub get_last-put_output :
      (cp : OutPoint) (k : PrefixKey) (v : Stored) (db : Db bolt)
      → get_last_graduated_height bolt (put_output bolt cp k v db)
        ≡ get_last_graduated_height bolt db
  unfolding get_last_graduated_height put_output set_channel_bucket
  get_last-put_output cp k v db = refl

  pub get_last-delete_output :
      (cp : OutPoint) (k : PrefixKey) (db : Db bolt)
      → get_last_graduated_height bolt (delete_output bolt cp k db)
        ≡ get_last_graduated_height bolt db
  unfolding get_last_graduated_height delete_output set_channel_bucket
  get_last-delete_output cp k db = refl

  -- Seen from the caller of the removal: it succeeds, and what is read afterwards is known.
  pub remove_result :
      (h : ℕ) (cp : OutPoint) (k : PrefixKey) (db : Db bolt)
      → remove_output_from_height bolt h cp k db
        ≡ (ok tt, (remove_output_from_height bolt h cp k db).1)
  remove_result h cp k db =
      ap (λ r. (r, (remove_output_from_height bolt h cp k db).1)) (remove_total bolt h cp k db)

pub ruleset store_laws = (
  get_output-put, get_output-delete, get_output-create, get_output-remove, get_output-create_height,
  get_output-put_height, get_height_key-put, get_height_key-create, get_height_key-remove,
  get_height_key-create_channel, get_height_key-put_output, get_height_key-delete_output,
  get_last-create_channel, get_last-put_output, get_last-delete_output,
)
