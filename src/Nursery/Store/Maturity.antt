-- ===== src/Nursery/Store/Maturity.antt =====
-- When a channel is mature, and what `RemoveChannel` and `FinalizeKinder` do.
use lndmobile.Prelude.{
  ℕ, ◌==◌, ==_iff, ◌&&◌, not, ◌⊎◌, ◌≡◌, ◌≢◌, ◌||◌, Bool, true, false, Option, none, some, List, [],
  ◌∷◌, arith, refl, ap, subst, sym, ◌∙◌, if◌then◌else◌, inl, inr, Option-cases, Bool-cases,
}
use lndmobile.Prelude.Assoc.{nat_eq}
use lndmobile.Prelude.Exec.{
  Result, ok, err, panic, ◌>>◌, pure, modify, ending, returns, fails, panics,
}
use lndmobile.Wire.{MsgTx, OutPoint, out_point_eqb, out_point_eq}
use lndmobile.Bolt.{Bolt, contains}
use lndmobile.Nursery.Store.{
  grad, prefix_eqb, prefix_eqb_iff, PrefixKey, key_eq, key_eqb_iff, Error, err_immature_channel,
  err_contract_not_found, ChannelBucket, HeightBucket, Db,
}
use lndmobile.Nursery.Store.Buckets.{
  Store, and_then, or_else, get_output, get_channel_bucket, get_height_bucket, set_height_bucket,
}
use lndmobile.Nursery.Store.Transitions.{
  for_each, transaction, finalize_kinder, get_last_finalized_height,
}
use lndmobile.Nursery.Store.Queries.{
  get_finalized_txn, is_mature_channel, require_graduated, remove_height_entry, remove_channel,
  for_chan_outputs,
}
use lndmobile.Nursery.Store.Entry.{is_none}
use lndmobile.Nursery.Store.Incubation.{next_of}

module _ (bolt : Bolt) where
  open bolt use {Bucket, empty, get, keys, delete, get-delete, contains-keys, get-put, get-empty}

  -- `FinalizeKinder` records the height. It stores the transaction at the height if it has one and
  -- the height has a bucket, and the transactions of all other heights stay.
  pub finalize_kinder_effect :
      (h : ℕ) (tx : Option MsgTx) (db : Db bolt)
      → ((finalize_kinder bolt h tx db).0 ≡ ok tt)
        × (get_last_finalized_height bolt (finalize_kinder bolt h tx db).1 ≡ h)
        × ((g : ℕ)
            → get_finalized_txn bolt g (finalize_kinder bolt h tx db).1 ≡ (
                if h == g && not (is_none tx) && not (is_none (get_height_bucket bolt h db))
                then tx
                else get_finalized_txn bolt g db))
  unfolding finalize_kinder get_last_finalized_height get_finalized_txn get_height_bucket
      set_height_bucket
  finalize_kinder_effect h none db = (refl, refl, λ g. ground arith)
  finalize_kinder_effect h (some tx) db = elim (Option-cases (and_then db.height_index (get h))) [
    | inl e ↦ (ground arith, ground arith, λ g. ground arith)
    | inr (b, e) ↦ (
      ground arith,
      ground arith,
      λ g. ground (
        arith,
        get-put h g (record b { finalized_kndr_txn = some tx }) (or_else db.height_index empty),
        get-empty {V = HeightBucket bolt} g,
        ==_iff h g,
      ),
    )
  ]

  -- A channel is mature.
  abbrev pub AllGraduated : OutPoint → Db bolt → Type 0
  AllGraduated cp db = (k : PrefixKey) → get_output bolt cp k db ≢ none → k.state ≡ grad

  abbrev all_graduated : ChannelBucket bolt → List PrefixKey → Bool
  all_graduated b [] = true
  all_graduated b (k ∷ ks) = (is_none (get k b) || prefix_eqb k.state grad) && all_graduated b ks

  abbrev require_all : ChannelBucket bolt → PrefixKey → Store bolt (Unit {0})
  require_all b k = elim (get k b) [ none ↦ pure tt | some v ↦ require_graduated bolt k v ]

  abbrev if_all : {S : Type 0} → Bool → S → Result Error (Unit {0}) × S
  if_all true s = (ok tt, s)
  if_all false s = (err err_immature_channel, s)

  for_each-require :
      (b : ChannelBucket bolt) (ks : List PrefixKey) (db : Db bolt)
      → for_each (require_all b) ks db ≡ if_all (all_graduated b ks) db
  unfolding for_each
  for_each-require b [] db = refl
  for_each-require b (k ∷ ks) db = ground (arith, for_each-require b ks db)

  all_graduated→all :
      (b : ChannelBucket bolt) (ks : List PrefixKey) (k : PrefixKey)
      → all_graduated b ks ≡ true
      → contains k ks ≡ true
      → get k b ≢ none
      → k.state ≡ grad
  all_graduated→all b [] k a m n = cc
  all_graduated→all b (j ∷ ks) k a m n =
      ground (arith, key_eqb_iff j k, prefix_eqb_iff k.state grad, all_graduated→all b ks k)

  all→all_graduated :
      (b : ChannelBucket bolt) (ks : List PrefixKey)
      → ((k : PrefixKey) → get k b ≢ none → k.state ≡ grad)
      → all_graduated b ks ≡ true
  all→all_graduated b [] h = refl
  all→all_graduated b (k ∷ ks) h = elim (Option-cases (get k b)) [
    | inl e ↦ ground (arith, all→all_graduated b ks h)
    | inr (v, e) ↦ ground (arith, prefix_eqb_iff k.state grad, h k, all→all_graduated b ks h)
  ]

  is_mature_channel-eq :
      (cp : OutPoint) (db : Db bolt) (b : ChannelBucket bolt)
      → get_channel_bucket bolt cp db ≡ some b
      → is_mature_channel bolt cp db ≡ ok (all_graduated b (keys b))
  unfolding is_mature_channel for_chan_outputs
  is_mature_channel-eq cp db b e = ground (arith, for_each-require b (keys b) db)

  channel_read :
      (cp : OutPoint) (db : Db bolt) (b : ChannelBucket bolt) (k : PrefixKey)
      → get_channel_bucket bolt cp db ≡ some b
      → get_output bolt cp k db ≡ get k b
  unfolding get_output
  channel_read cp db b k e = ap (λ o. and_then o (get k)) e

  channel_key :
      (cp : OutPoint) (db : Db bolt) (b : ChannelBucket bolt) (k : PrefixKey)
      → get_channel_bucket bolt cp db ≡ some b
      → get_output bolt cp k db ≢ none
      → get k b ≢ none
  channel_key cp db b k e s m = s (channel_read cp db b k e ∙ m)

  true≢false : ¬ (true ≡ false)
  true≢false e = cc

  -- `IsMatureChannel` answers for a channel that has a bucket, and fails for another. It answers
  -- yes exactly if every output that the channel holds has graduated.
  pub is_mature_channel_iff :
      (cp : OutPoint) (db : Db bolt)
      → (get_channel_bucket bolt cp db ≡ none
          → is_mature_channel bolt cp db ≡ err err_contract_not_found)
        × (get_channel_bucket bolt cp db ≢ none
            → (is_mature_channel bolt cp db ≡ ok true × AllGraduated cp db)
              ⊎ (is_mature_channel bolt cp db ≡ ok false × ¬ AllGraduated cp db))
  unfolding get_output is_mature_channel for_chan_outputs
  is_mature_channel_iff cp db = (
    λ e. ground arith,
    λ n. elim (Option-cases (get_channel_bucket bolt cp db)) [
      | inl e ↦ ground arith
      | inr (b, e) ↦ elim (Bool-cases (all_graduated b (keys b))) [
        | inl a ↦ inl (
          is_mature_channel-eq cp db b e ∙ ap ok a,
          λ k s.
              all_graduated→all b (keys b) k a ((contains-keys k b).1 (channel_key cp db b k e s))
                (channel_key cp db b k e s),
        )
        | inr a ↦ inr (
          is_mature_channel-eq cp db b e ∙ ap ok a,
          λ all. true≢false (
              sym (
                all→all_graduated b (keys b)
                  (λ k n. all k (λ m. n (sym (channel_read cp db b k e) ∙ m))))
              ∙ a),
        )
      ]
    ],
  )

  err≢ok : {x : Error} → (Path (Result Error (Unit {0})) (err x) (ok tt)) → ⊥
  err≢ok e = cc

  panic≢ok : Path (Result Error (Unit {0})) panic (ok tt) → ⊥
  panic≢ok e = cc

  -- The body of the loop of `RemoveChannel`.
  abbrev drop_entry : OutPoint → ChannelBucket bolt → PrefixKey → Store bolt (Unit {0})
  drop_entry cp b k = elim (get k b) [ none ↦ pure tt | some v ↦ remove_height_entry bolt cp k v ]

  drop_entry-channels :
      (cp : OutPoint) (b : ChannelBucket bolt) (k : PrefixKey) (db : Db bolt)
      → (drop_entry cp b k db).1.channel_index ≡ db.channel_index
  unfolding remove_height_entry set_height_bucket
  drop_entry-channels cp b k db = ground arith

  drop_entry-graduated :
      (cp : OutPoint) (b : ChannelBucket bolt) (k : PrefixKey) (db : Db bolt)
      → (drop_entry cp b k db).0 ≡ ok tt
      → is_none (get k b) || prefix_eqb k.state grad ≡ true
  unfolding remove_height_entry
  drop_entry-graduated cp b k db e = ground arith

  drop_entries :
      (cp : OutPoint) (b : ChannelBucket bolt) (ks : List PrefixKey) (db : Db bolt)
      → (for_each (drop_entry cp b) ks db).0 ≡ ok tt
      → (all_graduated b ks ≡ true)
        × ((for_each (drop_entry cp b) ks db).1.channel_index ≡ db.channel_index)
  unfolding for_each
  drop_entries cp b [] db e = (refl, refl)
  drop_entries cp b (k ∷ ks) db e =
      let round = λ (r : Result Error (Unit {0}) × Db bolt). next_of (drop_entry cp b) ks r in
      elim (ending (drop_entry cp b k db)) [
        | returns u t q ↦
            let g = drop_entry-graduated cp b k db (ap (λ r. r.0) q) in
            let rest = drop_entries cp b ks t (subst (λ r. (round r).0 ≡ ok tt) q e) in
            let same = sym (ap (λ r. r.1.channel_index) q) ∙ drop_entry-channels cp b k db in
            (
              ground arith,
              subst (λ r. (round r).1.channel_index ≡ db.channel_index) (sym q) (rest.1 ∙ same),
            )
        | fails x t q ↦ absurd (err≢ok (subst (λ r. (round r).0 ≡ ok tt) q e))
        | panics t q ↦ absurd (panic≢ok (subst (λ r. (round r).0 ≡ ok tt) q e))
      ]

  abbrev end_removal :
      OutPoint
      → Bucket OutPoint (ChannelBucket bolt)
      → Db bolt
      → Result Error (Unit {0}) × Db bolt
      → Result Error (Unit {0}) × Db bolt
  end_removal cp i db r =
      transaction ((λ s. r) >> modify (λ t. record t { channel_index = some (delete cp i) })) db

  remove_channel-unknown :
      (cp : OutPoint) (i : Bucket OutPoint (ChannelBucket bolt)) (db : Db bolt)
      → db.channel_index ≡ some i
      → get_channel_bucket bolt cp db ≡ none
      → remove_channel bolt cp db ≡ (err err_contract_not_found, db)
  unfolding remove_channel for_chan_outputs
  remove_channel-unknown cp i db e f = ground arith

  remove_channel-eq :
      (cp : OutPoint) (i : Bucket OutPoint (ChannelBucket bolt)) (b : ChannelBucket bolt)
      (db : Db bolt)
      → db.channel_index ≡ some i
      → get_channel_bucket bolt cp db ≡ some b
      → remove_channel bolt cp db ≡ end_removal cp i db (for_each (drop_entry cp b) (keys b) db)
  unfolding remove_channel for_chan_outputs
  remove_channel-eq cp i b db e f = ground arith

  remove_channel-none :
      (cp : OutPoint) (db : Db bolt)
      → db.channel_index ≡ none
      → remove_channel bolt cp db ≡ (ok tt, db)
  unfolding remove_channel
  remove_channel-none cp db e = ground arith

  get_output-removed :
      (cp c : OutPoint) (j : PrefixKey) (i : Bucket OutPoint (ChannelBucket bolt)) (db t : Db bolt)
      → db.channel_index ≡ some i
      → get_output bolt c j (record t { channel_index = some (delete cp i) })
        ≡ (if out_point_eqb cp c then none else get_output bolt c j db)
  unfolding get_output get_channel_bucket
  get_output-removed cp c j i db t e = ground (arith, get-delete cp c i)

  no_output_without_index :
      (c : OutPoint) (j : PrefixKey) (db : Db bolt)
      → db.channel_index ≡ none
      → get_output bolt c j db ≡ none
  unfolding get_output get_channel_bucket
  no_output_without_index c j db e = ground arith

  -- What `RemoveChannel` may do to a store.
  pub data Removal (cp : OutPoint) (db : Db bolt) (r : Result Error (Unit {0}) × Db bolt)
      : Type 0 where
    refused : r.1 ≡ db → r.0 ≢ ok tt → Removal cp db r
    removed :
        r.0 ≡ ok tt
        → AllGraduated cp db
        → ((c : OutPoint) (j : PrefixKey)
            → get_output bolt c j r.1
              ≡ (if out_point_eqb cp c then none else get_output bolt c j db))
        → Removal cp db r

  -- `RemoveChannel` either fails and changes nothing, or it succeeds; then every output of the
  -- channel had graduated, the channel holds no output afterwards, and every other channel holds
  -- what it held.
  pub remove_channel-Removal :
      (cp : OutPoint) (db : Db bolt) → Removal cp db (remove_channel bolt cp db)
  remove_channel-Removal cp db = elim (Option-cases db.channel_index) [
    | inl e ↦ subst (Removal cp db) (sym (remove_channel-none cp db e)) (
        removed refl (λ k n. absurd (n (no_output_without_index cp k db e)))
          (λ c j. ground (arith, no_output_without_index c j db e)))
    | inr (i, e) ↦ elim (Option-cases (get_channel_bucket bolt cp db)) [
      | inl f ↦
          subst (Removal cp db) (sym (remove_channel-unknown cp i db e f)) (refused refl err≢ok)
      | inr (b, f) ↦
          subst (Removal cp db) (sym (remove_channel-eq cp i b db e f))
            (elim (ending (for_each (drop_entry cp b) (keys b) db)) [
              | returns u t q ↦
                  let entries = drop_entries cp b (keys b) db (ap (λ r. r.0) q) in
                  subst (λ r. Removal cp db (end_removal cp i db r)) (sym q)
                    (removed refl
                      (λ k s.
                        let n = channel_key cp db b k f s in
                        all_graduated→all b (keys b) k entries.0 ((contains-keys k b).1 n) n)
                      (λ c j. get_output-removed cp c j i db t e))
              | fails x t q ↦
                  subst (λ r. Removal cp db (end_removal cp i db r)) (sym q) (refused refl err≢ok)
              | panics t q ↦
                  subst (λ r. Removal cp db (end_removal cp i db r)) (sym q) (refused refl panic≢ok)
            ])
    ]
  ]
