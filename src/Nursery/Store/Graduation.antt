-- ===== src/Nursery/Store/Graduation.antt =====
-- What graduating one output does to the store, and which heights `HeightsBelowOrEqual` returns.
use lndmobile.Prelude.{
  ℕ, ◌==◌, ==_iff, ◌&&◌, ◌≡◌, ◌≢◌, ◌↔◌, ◌≤◌, ◌<◌, leb, Bool, true, false, Option, none, some, List,
  [], ◌∷◌, arith, refl, ap, subst, sym, ◌∙◌, if◌then◌else◌, inl, inr, Option-cases, Bool-cases, All,
}
use lndmobile.Prelude.Assoc.{nat_eq}
use lndmobile.Prelude.Exec.{Result, ok, ◌>>◌, ◌>>=◌, raise, gets, modify, Exec}
use lndmobile.Wire.{OutPoint, out_point_eq}
use lndmobile.Bolt.{Bolt, contains}
use lndmobile.Nursery.Output.{KidOutput}
use lndmobile.Nursery.Store.{
  kndr, grad, PrefixKey, key, with_prefix, kid, Error, err_contract_not_found, ChannelBucket, Db,
}
use lndmobile.Nursery.Store.Buckets.{
  and_then, get_output, put_output, delete_output, get_channel_bucket, get_height_bucket,
  remove_output_from_height,
}
use lndmobile.Nursery.Store.Transitions.{graduate_output}
use lndmobile.Nursery.Store.Queries.{take_below, heights_below_or_equal}
use lndmobile.Nursery.Store.Views.{get_height_key}
use lndmobile.Nursery.Store.Laws.{store_laws, remove_result, remove-SameOutputs}
use lndmobile.Nursery.Store.Moves.{at_key, at_height_key}

-- The order of a cursor over heights, which are stored in big-endian order.
abbrev pub Ascending : List ℕ → Type 0
Ascending [] = Unit
Ascending (h ∷ hs) = All (λ g. h < g) hs × Ascending hs

false≢true : Path Bool false true → ⊥
false≢true e = cc

All-contains : (P : ℕ → Type 0) (hs : List ℕ) (g : ℕ) → All P hs → contains g hs ≡ true → P g
All-contains P [] g a m = absurd (false≢true m)
All-contains P (h ∷ hs) g a m = elim (Bool-cases (h == g)) [
  | inl e ↦ subst P ((==_iff h g).0 e) a.0
  | inr e ↦ All-contains P hs g a.1 (ground arith)
]

take_below-contains :
    (upper g : ℕ) (hs : List ℕ)
    → Ascending hs
    → (contains g (take_below upper hs) ≡ true) ↔ (contains g hs && leb g upper ≡ true)
unfolding take_below
take_below-contains upper g [] a = ground arith
take_below-contains upper g (h ∷ hs) a =
    let rest = take_below-contains upper g hs a.1 in
    let above = All-contains (λ x. h < x) hs g a.0 in
    elim (Bool-cases (leb h upper)) [
      | inl e ↦ ground (arith, rest, above, ==_iff h g)
      | inr e ↦ ground (arith, rest, above, ==_iff h g)
    ]

module _ (bolt : Bolt) where
  open bolt use {get, keys, contains-keys}

  same_channel :
      (cp : OutPoint) (db t : Db bolt)
      → t.channel_index ≡ db.channel_index
      → get_channel_bucket bolt cp t ≡ get_channel_bucket bolt cp db
  unfolding get_channel_bucket
  same_channel cp db t e = ap (λ i. and_then i (get cp)) e

  abbrev graduate_found :
      KidOutput → Db bolt → Option (ChannelBucket bolt) → Result Error (Unit {0}) × Db bolt
  graduate_found o t channel =
      (elim channel as (λ x. Exec Error (Db bolt) (Unit {0})) [
        | none ↦ raise err_contract_not_found
        | some b ↦ do
          modify (delete_output bolt o.origin_chan_point (key kndr o.out_point))
          modify (
              put_output bolt o.origin_chan_point (with_prefix grad (key kndr o.out_point)) (kid o))
      ])
        t

  -- The callback once the output was removed from the height.
  abbrev graduate_removed :
      KidOutput → Db bolt → Result Error (Unit {0}) × Db bolt → Result Error (Unit {0}) × Db bolt
  graduate_removed o db r =
      ((λ s. r) >> (do
        channel ← gets (get_channel_bucket bolt o.origin_chan_point)
        elim channel [
          | none ↦ raise err_contract_not_found
          | some b ↦ do
            modify (delete_output bolt o.origin_chan_point (key kndr o.out_point))
            modify (
                put_output bolt o.origin_chan_point (with_prefix grad (key kndr o.out_point))
                  (kid o))
        ]))
        db

  graduate_output-eq :
      (h : ℕ) (o : KidOutput) (db : Db bolt)
      → get_channel_bucket bolt o.origin_chan_point db ≢ none
      → graduate_output bolt h (kid o) db ≡ (
        ok tt,
        put_output bolt o.origin_chan_point (key grad o.out_point) (kid o) (
            delete_output bolt o.origin_chan_point
              (key kndr o.out_point)
              (remove_output_from_height bolt h o.origin_chan_point (key kndr o.out_point) db).1),
      )
  unfolding graduate_output get_channel_bucket
  graduate_output-eq h o db n =
      let cp = o.origin_chan_point in
      let k = key kndr o.out_point in
      let t = (remove_output_from_height bolt h cp k db).1 in
      let same = (remove-SameOutputs bolt h cp k db).channels in
      ap (graduate_removed o db) (remove_result bolt h cp k db)
      ∙ elim (Option-cases (get_channel_bucket bolt cp t)) [
        | inl e ↦ absurd (n (sym (same_channel cp db t same) ∙ e))
        | inr (b, e) ↦ ap (graduate_found o t) e
      ]

  -- Graduating an output of a channel that has a bucket succeeds. It moves the output from the
  -- kindergarten key of its channel to the graduated key, takes the key off the height, and changes
  -- nothing else.
  pub graduate_output_effect :
      (h : ℕ) (o : KidOutput) (db : Db bolt)
      → get_channel_bucket bolt o.origin_chan_point db ≢ none
      → ((graduate_output bolt h (kid o) db).0 ≡ ok tt)
        × ((c : OutPoint) (j : PrefixKey)
            → get_output bolt c j (graduate_output bolt h (kid o) db).1 ≡ (
                if at_key o.origin_chan_point (key grad o.out_point) c j
                then some (kid o)
                else if at_key o.origin_chan_point (key kndr o.out_point) c j
                then none
                else get_output bolt c j db))
        × ((g : ℕ) (c : OutPoint) (j : PrefixKey)
            → get_height_key bolt g c j (graduate_output bolt h (kid o) db).1 ≡ (
                if at_height_key h o.origin_chan_point (key kndr o.out_point) g c j
                then none
                else get_height_key bolt g c j db))
  graduate_output_effect h o db n =
      rw (graduate_output-eq h o db n)
        (refl, λ c j. simp store_laws refl, λ g c j. simp store_laws refl)

  -- `HeightsBelowOrEqual` returns the heights that have a bucket and do not exceed the bound, if the
  -- cursor goes through the heights in ascending order.
  pub heights_below_or_equal_iff :
      (upper g : ℕ) (db : Db bolt)
      → Ascending (elim db.height_index [ none ↦ [] | some i ↦ keys i ])
      → (contains g (heights_below_or_equal bolt upper db) ≡ true)
        ↔ ((get_height_bucket bolt g db ≢ none) × (g ≤ upper))
  unfolding heights_below_or_equal get_height_bucket
  heights_below_or_equal_iff upper g db a = elim (Option-cases db.height_index) [
    | inl e ↦ ground (arith)
    | inr (i, e) ↦
        let below =
          take_below-contains upper g (keys i)
            (subst (λ x. Ascending (elim x [ none ↦ [] | some i ↦ keys i ])) e a) in
        ground (arith, below, contains-keys g i)
  ]
