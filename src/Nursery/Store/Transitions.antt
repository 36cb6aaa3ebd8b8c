-- ===== src/Nursery/Store/Transitions.antt =====
-- The methods of lnd/nursery_store.go that change the store. Each runs in one transaction, which is
-- rolled back if it fails. Serialising an output does not fail.
use lndmobile.Prelude.{
  ℕ, ◌+◌, ◌%◌, ◌^◌, leb, ◌==◌, if◌then◌else◌, Option, none, some, List, [], ◌∷◌,
}
use lndmobile.Prelude.Assoc.{nat_eq}
use lndmobile.Prelude.Exec.{ok, err, panic, Exec, pure, raise, gets, modify, ◌>>=◌, ◌>>◌}
use lndmobile.Wire.{MsgTx, OutPoint, out_point_eq}
use lndmobile.Bolt.{Bolt}
use lndmobile.Nursery.Output.{KidOutput, BabyOutput}
use lndmobile.Nursery.Store.{
  Prefix, crib, pscl, kndr, grad, prefix_eqb, PrefixKey, key, with_prefix, key_eq, Stored, kid,
  baby, err_contract_not_found, no_channel_index, no_height_channel_bucket, no_channel_bucket,
  no_output, malformed_output, Error, Db,
}
use lndmobile.Nursery.Store.Buckets.{
  Store, get_channel_bucket, create_channel_bucket, get_output, put_output, delete_output,
  get_height_bucket, set_height_bucket, get_height_channel_bucket, create_height_channel_bucket,
  put_height_key, remove_output_from_height,
}

-- `uint32` addition.
abbrev pub add32 : ℕ → ℕ → ℕ
add32 a b = (a + b) % 2 ^ 32

-- `db.Update`
abbrev pub transaction : {S A : Type 0} → Exec Error S A → Exec Error S A
transaction m s =
    let (r, t) = m s in elim r [ ok a ↦ (ok a, t) | err e ↦ (err e, s) | panic ↦ (panic, s) ]

-- `for _, x := range xs { if err := f(x); err != nil { return err } }`
unfoldable pub for_each :
    {S A : Type 0} → (A → Exec Error S (Unit {0})) → List A → Exec Error S (Unit {0})
for_each f [] s = (ok tt, s)
for_each f (x ∷ xs) s =
    let (r, t) = f x s in
    elim r [ ok u ↦ for_each f xs t | err e ↦ (err e, t) | panic ↦ (panic, t) ]

-- The keys that `c.Seek(prefix)` and `bytes.HasPrefix` select from a bucket.
unfoldable pub with_state : Prefix → List PrefixKey → List PrefixKey
with_state p [] = []
with_state p (k ∷ ks) =
    let rest = with_state p ks in if prefix_eqb p k.state then k ∷ rest else rest

-- The height at which `PreschoolToKinder` files an output, given the last graduated height.
unfoldable pub class_height : KidOutput → ℕ → ℕ
class_height o last =
    let maturity_height =
      if o.blocks_to_maturity == 0
      then o.absolute_maturity
      else add32 o.conf_height o.blocks_to_maturity in
    if leb maturity_height last then add32 last 1 else maturity_height

module _ (bolt : Bolt) where
  open bolt use {keys, get}

  unfoldable pub enter_crib : BabyOutput → Store bolt (Unit {0})
  enter_crib b = do
    let cp = b.kid.origin_chan_point
    let k = key crib b.kid.out_point
    modify (create_channel_bucket bolt cp)
    raw ← gets (get_output bolt cp k)
    elim raw [
      | some v ↦ pure tt
      | none ↦ do
        modify (create_height_channel_bucket bolt b.expiry cp)
        modify (put_output bolt cp k (baby b))
        modify (put_height_key bolt b.expiry cp k)
    ]

  unfoldable pub enter_preschool : KidOutput → Store bolt (Unit {0})
  enter_preschool o = do
    let cp = o.origin_chan_point
    let k = key pscl o.out_point
    modify (create_channel_bucket bolt cp)
    raw ← gets (get_output bolt cp k)
    elim raw [ some v ↦ pure tt | none ↦ modify (put_output bolt cp k (kid o)) ]

  unfoldable pub incubate : List KidOutput → List BabyOutput → Store bolt (Unit {0})
  incubate kids babies = transaction (do for_each enter_preschool kids; for_each enter_crib babies)

  unfoldable pub crib_to_kinder : BabyOutput → Store bolt (Unit {0})
  crib_to_kinder b = transaction (do
    let cp = b.kid.origin_chan_point
    let k = key crib b.kid.out_point
    modify (create_channel_bucket bolt cp)
    modify (delete_output bolt cp k)
    remove_output_from_height bolt b.expiry cp k
    modify (put_output bolt cp (with_prefix kndr k) (kid b.kid))
    let maturity_height = add32 b.kid.conf_height b.kid.blocks_to_maturity
    modify (create_height_channel_bucket bolt maturity_height cp)
    modify (put_height_key bolt maturity_height cp (with_prefix kndr k)))

  unfoldable pub get_last_graduated_height : Db bolt → ℕ
  get_last_graduated_height db = elim db.last_graduated_height [ none ↦ 0 | some h ↦ h ]

  unfoldable pub get_last_finalized_height : Db bolt → ℕ
  get_last_finalized_height db = elim db.last_finalized_height [ none ↦ 0 | some h ↦ h ]

  unfoldable pub preschool_to_kinder : KidOutput → Store bolt (Unit {0})
  preschool_to_kinder o = transaction (do
    let cp = o.origin_chan_point
    let k = key pscl o.out_point
    modify (create_channel_bucket bolt cp)
    modify (delete_output bolt cp k)
    modify (put_output bolt cp (with_prefix kndr k) (kid o))
    last ← gets get_last_graduated_height
    let height = class_height o last
    modify (create_height_channel_bucket bolt height cp)
    modify (put_height_key bolt height cp (with_prefix kndr k)))

  -- The outputs of one channel at a height. The cursor runs over the keys that the bucket has when
  -- the loop begins.
  unfoldable pub for_each_channel_prefix :
      Prefix → ℕ → (Stored → Store bolt (Unit {0})) → OutPoint → Store bolt (Unit {0})
  unfolding for_each with_state get_output get_height_channel_bucket get_channel_bucket
  for_each_channel_prefix p h callback cp = do
    found ← gets (get_height_channel_bucket bolt h cp)
    elim found [
      | none ↦ raise no_height_channel_bucket
      | some c ↦ do
        channel ← gets (get_channel_bucket bolt cp)
        elim channel [
          | none ↦ raise no_channel_bucket
          | some b ↦
              for_each
                (λ k. do
                  output ← gets (get_output bolt cp k)
                  elim output [ none ↦ raise no_output | some v ↦ callback v ])
                (with_state p (keys c))
        ]
    ]

  unfoldable pub for_each_height_prefix :
      Prefix → ℕ → (Stored → Store bolt (Unit {0})) → Store bolt (Unit {0})
  unfolding for_each get_height_bucket for_each_channel_prefix
  for_each_height_prefix p h callback = do
    found ← gets (get_height_bucket bolt h)
    elim found [
      | none ↦ pure tt
      | some b ↦ do
        index ← gets (λ db. db.channel_index)
        elim index [
          | none ↦ raise no_channel_index
          | some i ↦ for_each (for_each_channel_prefix p h callback) (keys b.channels)
        ]
    ]

  -- The callback of `GraduateKinder`. What is stored under a kindergarten key is decoded as a kid.
  unfoldable pub graduate_output : ℕ → Stored → Store bolt (Unit {0})
  graduate_output h (baby b) = raise malformed_output
  graduate_output h (kid o) = do
    let cp = o.origin_chan_point
    let k = key kndr o.out_point
    remove_output_from_height bolt h cp k
    channel ← gets (get_channel_bucket bolt cp)
    elim channel [
      | none ↦ raise err_contract_not_found
      | some b ↦ do
        modify (delete_output bolt cp k)
        modify (put_output bolt cp (with_prefix grad k) (kid o))
    ]

  unfoldable pub graduate_kinder : ℕ → Store bolt (Unit {0})
  unfolding get_height_bucket set_height_bucket for_each_height_prefix
  graduate_kinder h = transaction (do
    found ← gets (get_height_bucket bolt h)
    elim found [
      | none ↦ pure tt
      | some b ↦ do
        modify (set_height_bucket bolt h (record b { finalized_kndr_txn = none }))
        for_each_height_prefix kndr h (graduate_output h)
    ])

  unfoldable pub finalize_kinder : ℕ → Option MsgTx → Store bolt (Unit {0})
  unfolding get_height_bucket set_height_bucket
  finalize_kinder h final_tx = transaction (do
    modify (λ db. record db { last_finalized_height = some h })
    found ← gets (get_height_bucket bolt h)
    elim final_tx [
      | none ↦ pure tt
      | some tx ↦ elim found [
        | none ↦ pure tt
        | some b ↦ modify (set_height_bucket bolt h (record b { finalized_kndr_txn = some tx }))
      ]
    ])

  unfoldable pub graduate_height : ℕ → Store bolt (Unit {0})
  graduate_height h = transaction (modify (λ db. record db { last_graduated_height = some h }))
