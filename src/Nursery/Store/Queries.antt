-- ===== src/Nursery/Store/Queries.antt =====
-- The methods of lnd/nursery_store.go that read the store, and `RemoveChannel`.
use lndmobile.Prelude.{
  ℕ, leb, if◌then◌else◌, Bool, true, false, Option, none, some, List, [], ◌∷◌, ◌++◌,
}
use lndmobile.Prelude.Assoc.{nat_eq}
use lndmobile.Prelude.Exec.{Result, ok, err, panic, pure, raise, gets, modify, ◌>>=◌, ◌>>◌}
use lndmobile.Wire.{MsgTx, OutPoint, out_point_eq}
use lndmobile.Bolt.{Bolt}
use lndmobile.Nursery.Output.{KidOutput, BabyOutput}
use lndmobile.Nursery.Store.{
  Prefix, crib, pscl, kndr, grad, prefix_eqb, PrefixKey, key_eq, Stored, kid, baby, Error,
  err_contract_not_found, err_immature_channel, no_channel_index, no_height_channel_bucket,
  no_channel_bucket, no_output, malformed_output, Db,
}
use lndmobile.Nursery.Store.Buckets.{
  Store, and_then, get_channel_bucket, get_output, get_height_bucket, set_height_bucket,
  get_height_channel_bucket,
}
use lndmobile.Nursery.Store.Transitions.{add32, transaction, for_each, with_state}

-- A loop whose callback appends to a slice.
unfoldable pub collect :
    {A B : Type 0} → (A → Result Error (List B)) → List A → Result Error (List B)
collect f [] = ok []
collect f (x ∷ xs) =
    let rest = collect f xs in
    elim (f x) [
      | ok bs ↦ elim rest [ ok cs ↦ ok (bs ++ cs) | err e ↦ err e | panic ↦ panic ]
      | err e ↦ err e
      | panic ↦ panic
    ]

abbrev pub decode_kid : Stored → Result Error (List KidOutput)
decode_kid (kid o) = ok (o ∷ [])
decode_kid (baby b) = err malformed_output

abbrev pub decode_baby : Stored → Result Error (List BabyOutput)
decode_baby (kid o) = err malformed_output
decode_baby (baby b) = ok (b ∷ [])

-- The loop of `HeightsBelowOrEqual`: the cursor stops at the first key above the bound.
unfoldable pub take_below : ℕ → List ℕ → List ℕ
take_below upper [] = []
take_below upper (h ∷ hs) = let rest = take_below upper hs in if leb h upper then h ∷ rest else []

module _ (bolt : Bolt) where
  open bolt use {Bucket, keys, get, delete}

  unfoldable pub get_finalized_txn : ℕ → Db bolt → Option MsgTx
  unfolding get_height_bucket
  get_finalized_txn h db = and_then (get_height_bucket bolt h db) (λ b. b.finalized_kndr_txn)

  -- What `forEachHeightPrefix` presents, decoded, for one channel and for all channels at a height.
  unfoldable pub collect_channel_prefix :
      {A : Type 0}
      → Prefix
      → ℕ
      → (Stored → Result Error (List A))
      → Db bolt
      → OutPoint
      → Result Error (List A)
  unfolding collect get_height_channel_bucket get_channel_bucket get_output with_state
  collect_channel_prefix p h decode db cp = elim (get_height_channel_bucket bolt h cp db) [
    | none ↦ err no_height_channel_bucket
    | some c ↦ elim (get_channel_bucket bolt cp db) [
      | none ↦ err no_channel_bucket
      | some b ↦
          collect (λ k. elim (get_output bolt cp k db) [ none ↦ err no_output | some v ↦ decode v ])
            (with_state p (keys c))
    ]
  ]

  unfoldable pub collect_height_prefix :
      {A : Type 0} → Prefix → ℕ → (Stored → Result Error (List A)) → Db bolt → Result Error (List A)
  unfolding collect get_height_bucket collect_channel_prefix
  collect_height_prefix p h decode db = elim (get_height_bucket bolt h db) [
    | none ↦ ok []
    | some b ↦ elim db.channel_index [
      | none ↦ err no_channel_index
      | some i ↦ collect (collect_channel_prefix p h decode db) (keys b.channels)
    ]
  ]

  unfoldable pub fetch_class :
      ℕ → Db bolt → Result Error (Option MsgTx × List KidOutput × List BabyOutput)
  unfolding get_finalized_txn collect_height_prefix
  fetch_class h db = elim (collect_height_prefix crib h decode_baby db) [
    | err e ↦ err e
    | panic ↦ panic
    | ok babies ↦ elim (collect_height_prefix kndr h decode_kid db) [
      | err e ↦ err e
      | panic ↦ panic
      | ok kids ↦ ok (get_finalized_txn h db, kids, babies)
    ]
  ]

  abbrev pub channel_list : Db bolt → List OutPoint
  channel_list db = elim db.channel_index [ none ↦ [] | some i ↦ keys i ]

  -- The preschool outputs of one channel; a channel that has no bucket is skipped.
  unfoldable pub preschools_of : Db bolt → OutPoint → Result Error (List KidOutput)
  unfolding collect get_channel_bucket get_output with_state
  preschools_of db cp = elim (get_channel_bucket bolt cp db) [
    | none ↦ ok []
    | some b ↦
        collect (λ k. elim (get k b) [ none ↦ ok [] | some v ↦ decode_kid v ])
          (with_state pscl (keys b))
  ]

  unfoldable pub fetch_preschools : Db bolt → Result Error (List KidOutput)
  unfolding collect preschools_of
  fetch_preschools db = collect (preschools_of db) (channel_list db)

  unfoldable pub heights_below_or_equal : ℕ → Db bolt → List ℕ
  unfolding take_below
  heights_below_or_equal h db = elim db.height_index [ none ↦ [] | some i ↦ take_below h (keys i) ]

  unfoldable pub list_channels : Db bolt → List OutPoint
  list_channels db = channel_list db

  -- `forChanOutputs`: the callback sees each key of the channel bucket with its output.
  unfoldable pub for_chan_outputs :
      OutPoint → (PrefixKey → Stored → Store bolt (Unit {0})) → Store bolt (Unit {0})
  unfolding for_each get_channel_bucket
  for_chan_outputs cp callback = do
    channel ← gets (get_channel_bucket bolt cp)
    elim channel [
      | none ↦ raise err_contract_not_found
      | some b ↦ for_each (λ k. elim (get k b) [ none ↦ pure tt | some v ↦ callback k v ]) (keys b)
    ]

  -- The callback of `IsMatureChannel`.
  abbrev pub require_graduated : PrefixKey → Stored → Store bolt (Unit {0})
  require_graduated k v = if prefix_eqb k.state grad then pure tt else raise err_immature_channel

  unfoldable pub is_mature_channel : OutPoint → Db bolt → Result Error Bool
  unfolding for_chan_outputs
  is_mature_channel cp db = elim (for_chan_outputs cp require_graduated db).0 [
    | ok u ↦ ok true
    | err e ↦ elim e [ err_immature_channel ↦ ok false | other ↦ err other ]
    | panic ↦ panic
  ]

  -- The callback of `RemoveChannel`: it drops the channel's bucket at the height of the output.
  unfoldable pub remove_height_entry : OutPoint → PrefixKey → Stored → Store bolt (Unit {0})
  unfolding get_height_bucket set_height_bucket
  remove_height_entry cp k v =
      if prefix_eqb k.state grad
      then elim v [
        | baby b ↦ raise malformed_output
        | kid o ↦ do
          let height = add32 o.conf_height o.blocks_to_maturity
          found ← gets (get_height_bucket bolt height)
          elim found [
            | none ↦ pure tt
            | some b ↦
                modify
                  (set_height_bucket bolt height (record b { channels = delete cp b.channels }))
          ]
      ]
      else raise err_immature_channel

  unfoldable pub remove_channel : OutPoint → Store bolt (Unit {0})
  unfolding for_chan_outputs remove_height_entry
  remove_channel cp = transaction (do
    index ← gets (λ db. db.channel_index)
    elim index [
      | none ↦ pure tt
      | some i ↦ do
        for_chan_outputs cp (remove_height_entry cp)
        modify (λ db. record db { channel_index = some (delete cp i) })
    ])
