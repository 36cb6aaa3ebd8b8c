-- ===== src/Breach/Observers/Stored.antt =====
-- What is in the store stays there (lnd/breacharbiter.go).
use lndmobile.Prelude.{◌≡◌, true, Option, some, refl, Bool-cases, inl, inr}
use lndmobile.Prelude.Assoc.{nat_eq}
use lndmobile.Wire.{Bytes, out_point_eq, hash_eq, bytes_eq, bytes_eq_iff}
use lndmobile.Bolt.{Bolt}
use lndmobile.Codec.{WireCodec, write_outpoint}
use lndmobile.Breach.Info.{RetributionInfo}
use lndmobile.Breach.Codec.{encode_info}
use lndmobile.Breach.Store.{Db, add, is_breached, create_bucket, get_in, found}
use lndmobile.Breach.Store.Laws.{get_in-put}

module _ (bolt : Bolt) (codec : WireCodec) where
  open bolt use {Bucket}

  -- The retribution of a channel is in the store.
  abbrev pub InStore : Db bolt → RetributionInfo → Type 0
  InStore db r = is_breached bolt codec r.chan_point db ≡ true

  found-put :
      (k j v : Bytes) (b : Option (Bucket Bytes Bytes))
      → found bolt codec (get_in bolt codec j b) ≡ true
      → found bolt codec (get_in bolt codec j (some (bolt.put k v (create_bucket bolt b)))) ≡ true
  found-put k j v b h = elim (Bool-cases (bytes_eq k j)) [
    | inl same ↦ rw (get_in-put bolt codec k j v b, same) refl
    | inr other ↦ rw (get_in-put bolt codec k j v b, other) h
  ]

  pub add-InStore :
      (r q : RetributionInfo) (db : Db bolt) → InStore db q → InStore (add bolt codec r db) q
  unfolding add is_breached
  add-InStore r q db h =
      found-put (write_outpoint codec r.chan_point) (write_outpoint codec q.chan_point)
        (encode_info codec r) db.retribution_bucket h

  pub added-InStore : (r : RetributionInfo) (db : Db bolt) → InStore (add bolt codec r db) r
  unfolding add is_breached
  added-InStore r db =
      let k = write_outpoint codec r.chan_point in
      rw
        (
          get_in-put bolt codec k k (encode_info codec r) db.retribution_bucket,
          (bytes_eq_iff k k).1 refl,
        )
        refl
