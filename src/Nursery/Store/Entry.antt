-- ===== src/Nursery/Store/Entry.antt =====
-- How `enterCrib` and `enterPreschool` (lnd/nursery_store.go) enter an output into the store.
use lndmobile.Prelude.{
  ℕ, ◌&&◌, ◌≡◌, Bool, true, false, Option, none, some, arith, ap, ◌∙◌, if◌then◌else◌, inl, inr,
  Option-cases,
}
use lndmobile.Prelude.Exec.{Result, ok}
use lndmobile.Wire.{OutPoint, out_point_eqb_iff}
use lndmobile.Bolt.{Bolt}
use lndmobile.Nursery.Output.{KidOutput, BabyOutput}
use lndmobile.Nursery.Store.{crib, pscl, PrefixKey, key, key_eqb_iff, Stored, kid, baby, Error, Db}
use lndmobile.Nursery.Store.Buckets.{
  or_else, get_output, put_output, create_channel_bucket, create_height_channel_bucket,
  put_height_key,
}
use lndmobile.Nursery.Store.Transitions.{enter_crib, enter_preschool}
use lndmobile.Nursery.Store.Views.{get_height_key, get_output-create}
use lndmobile.Nursery.Store.Laws.{store_laws}
use lndmobile.Nursery.Store.Moves.{at_key, at_height_key}

abbrev pub is_none : {A : Type 0} → Option A → Bool
is_none none = true
is_none (some a) = false

module _ (bolt : Bolt) where
  -- The store after an output was entered that the channel did not hold.
  abbrev cribbed : BabyOutput → Db bolt → Db bolt
  cribbed b db =
      let cp = b.kid.origin_chan_point in
      let k = key crib b.kid.out_point in
      put_height_key bolt b.expiry cp k (
        put_output bolt cp k (baby b)
          (create_height_channel_bucket bolt b.expiry cp (create_channel_bucket bolt cp db)))

  -- The two methods once the channel was read.
  abbrev crib_entry : BabyOutput → Db bolt → Option Stored → Result Error (Unit {0}) × Db bolt
  crib_entry b db none = (ok tt, cribbed b db)
  crib_entry b db (some v) = (ok tt, create_channel_bucket bolt b.kid.origin_chan_point db)

  abbrev preschool_entry : KidOutput → Db bolt → Option Stored → Result Error (Unit {0}) × Db bolt
  preschool_entry o db none = (
    ok tt,
    put_output bolt o.origin_chan_point (key pscl o.out_point) (kid o)
        (create_channel_bucket bolt o.origin_chan_point db),
  )
  preschool_entry o db (some v) = (ok tt, create_channel_bucket bolt o.origin_chan_point db)

  enter_crib-read :
      (b : BabyOutput) (db : Db bolt)
      → enter_crib bolt b db
        ≡ crib_entry b db (
            get_output bolt b.kid.origin_chan_point
              (key crib b.kid.out_point)
              (create_channel_bucket bolt b.kid.origin_chan_point db))
  unfolding enter_crib
  enter_crib-read b db =
      elim (Option-cases (
        get_output bolt b.kid.origin_chan_point (key crib b.kid.out_point)
          (create_channel_bucket bolt b.kid.origin_chan_point db))) [
            | inl e ↦ ground arith
            | inr (v, e) ↦ ground arith
          ]

  enter_preschool-read :
      (o : KidOutput) (db : Db bolt)
      → enter_preschool bolt o db
        ≡ preschool_entry o db (
            get_output bolt o.origin_chan_point
              (key pscl o.out_point)
              (create_channel_bucket bolt o.origin_chan_point db))
  unfolding enter_preschool
  enter_preschool-read o db =
      elim (Option-cases (
        get_output bolt o.origin_chan_point (key pscl o.out_point)
          (create_channel_bucket bolt o.origin_chan_point db))) [
            | inl e ↦ ground arith
            | inr (v, e) ↦ ground arith
          ]

  enter_crib-known :
      (b : BabyOutput) (db : Db bolt) (v : Stored)
      → get_output bolt b.kid.origin_chan_point (key crib b.kid.out_point) db ≡ some v
      → enter_crib bolt b db ≡ (ok tt, create_channel_bucket bolt b.kid.origin_chan_point db)
  enter_crib-known b db v e =
      enter_crib-read b db
      ∙ ap (crib_entry b db) (
          get_output-create bolt b.kid.origin_chan_point b.kid.origin_chan_point
            (key crib b.kid.out_point) db
          ∙ e)

  enter_crib-new :
      (b : BabyOutput) (db : Db bolt)
      → get_output bolt b.kid.origin_chan_point (key crib b.kid.out_point) db ≡ none
      → enter_crib bolt b db ≡ (ok tt, cribbed b db)
  enter_crib-new b db e =
      enter_crib-read b db
      ∙ ap (crib_entry b db) (
          get_output-create bolt b.kid.origin_chan_point b.kid.origin_chan_point
            (key crib b.kid.out_point) db
          ∙ e)

  enter_preschool-known :
      (o : KidOutput) (db : Db bolt) (v : Stored)
      → get_output bolt o.origin_chan_point (key pscl o.out_point) db ≡ some v
      → enter_preschool bolt o db ≡ (ok tt, create_channel_bucket bolt o.origin_chan_point db)
  enter_preschool-known o db v e =
      enter_preschool-read o db
      ∙ ap (preschool_entry o db) (
          get_output-create bolt o.origin_chan_point o.origin_chan_point (key pscl o.out_point) db
          ∙ e)

  enter_preschool-new :
      (o : KidOutput) (db : Db bolt)
      → get_output bolt o.origin_chan_point (key pscl o.out_point) db ≡ none
      → enter_preschool bolt o db ≡ (
        ok tt,
        put_output bolt o.origin_chan_point
            (key pscl o.out_point)
            (kid o)
            (create_channel_bucket bolt o.origin_chan_point db),
      )
  enter_preschool-new o db e =
      enter_preschool-read o db
      ∙ ap (preschool_entry o db) (
          get_output-create bolt o.origin_chan_point o.origin_chan_point (key pscl o.out_point) db
          ∙ e)

  -- `enterCrib` and `enterPreschool` leave a registered output as it is.
  pub get_output-enter_crib :
      (b : BabyOutput) (db : Db bolt) (c : OutPoint) (j : PrefixKey)
      → get_output bolt c j (enter_crib bolt b db).1 ≡ (
          if at_key b.kid.origin_chan_point (key crib b.kid.out_point) c j
          then some (or_else (get_output bolt c j db) (baby b))
          else get_output bolt c j db)
  get_output-enter_crib b db c j =
      let cp = b.kid.origin_chan_point in
      let k = key crib b.kid.out_point in
      elim (Option-cases (get_output bolt cp k db)) [
        | inl e ↦
            rw (enter_crib-new b db e)
              (simp store_laws (ground (arith, key_eqb_iff k j, out_point_eqb_iff cp c)))
        | inr (v, e) ↦
            rw (enter_crib-known b db v e)
              (simp store_laws (ground (arith, key_eqb_iff k j, out_point_eqb_iff cp c)))
      ]

  pub get_height_key-enter_crib :
      (b : BabyOutput) (db : Db bolt) (h : ℕ) (c : OutPoint) (j : PrefixKey)
      → get_height_key bolt h c j (enter_crib bolt b db).1 ≡ (
          if at_height_key b.expiry b.kid.origin_chan_point (key crib b.kid.out_point) h c j
            && is_none (get_output bolt c j db)
          then some tt
          else get_height_key bolt h c j db)
  get_height_key-enter_crib b db h c j =
      let cp = b.kid.origin_chan_point in
      let k = key crib b.kid.out_point in
      elim (Option-cases (get_output bolt cp k db)) [
        | inl e ↦
            rw (enter_crib-new b db e)
              (simp store_laws (ground (arith, key_eqb_iff k j, out_point_eqb_iff cp c)))
        | inr (v, e) ↦
            rw (enter_crib-known b db v e)
              (simp store_laws (ground (arith, key_eqb_iff k j, out_point_eqb_iff cp c)))
      ]

  pub get_output-enter_preschool :
      (o : KidOutput) (db : Db bolt) (c : OutPoint) (j : PrefixKey)
      → get_output bolt c j (enter_preschool bolt o db).1 ≡ (
          if at_key o.origin_chan_point (key pscl o.out_point) c j
          then some (or_else (get_output bolt c j db) (kid o))
          else get_output bolt c j db)
  get_output-enter_preschool o db c j =
      let cp = o.origin_chan_point in
      let k = key pscl o.out_point in
      elim (Option-cases (get_output bolt cp k db)) [
        | inl e ↦
            rw (enter_preschool-new o db e)
              (simp store_laws (ground (arith, key_eqb_iff k j, out_point_eqb_iff cp c)))
        | inr (v, e) ↦
            rw (enter_preschool-known o db v e)
              (simp store_laws (ground (arith, key_eqb_iff k j, out_point_eqb_iff cp c)))
      ]

  pub get_height_key-enter_preschool :
      (o : KidOutput) (db : Db bolt) (h : ℕ) (c : OutPoint) (j : PrefixKey)
      → get_height_key bolt h c j (enter_preschool bolt o db).1 ≡ get_height_key bolt h c j db
  get_height_key-enter_preschool o db h c j =
      let cp = o.origin_chan_point in
      let k = key pscl o.out_point in
      elim (Option-cases (get_output bolt cp k db)) [
        | inl e ↦
            rw (enter_preschool-new o db e)
              (simp store_laws (ground (arith, key_eqb_iff k j, out_point_eqb_iff cp c)))
        | inr (v, e) ↦
            rw (enter_preschool-known o db v e)
              (simp store_laws (ground (arith, key_eqb_iff k j, out_point_eqb_iff cp c)))
      ]

  pub enter_crib_ok : (b : BabyOutput) (db : Db bolt) → (enter_crib bolt b db).0 ≡ ok tt
  enter_crib_ok b db =
      elim (Option-cases (get_output bolt b.kid.origin_chan_point (key crib b.kid.out_point) db)) [
        | inl e ↦ ap (λ r. r.0) (enter_crib-new b db e)
        | inr (v, e) ↦ ap (λ r. r.0) (enter_crib-known b db v e)
      ]

  pub enter_preschool_ok : (o : KidOutput) (db : Db bolt) → (enter_preschool bolt o db).0 ≡ ok tt
  enter_preschool_ok o db =
      elim (Option-cases (get_output bolt o.origin_chan_point (key pscl o.out_point) db)) [
        | inl e ↦ ap (λ r. r.0) (enter_preschool-new o db e)
        | inr (v, e) ↦ ap (λ r. r.0) (enter_preschool-known o db v e)
      ]
