-- ===== src/Nursery/Store/Consistency.antt =====
-- What it means that the channel index and the height index of the store agree, and the methods
-- of lnd/nursery_store.go that move outputs.
use lndmobile.Prelude.{
  ℕ, ==_iff, ◌&&◌, ◌≡◌, ◌↔◌, Bool, true, false, Option, none, some, List, arith, inl, inr,
  Bool-cases,
}
use lndmobile.Wire.{OutPoint, out_point_eqb, out_point_eqb_iff}
use lndmobile.Bolt.{Bolt}
use lndmobile.Nursery.Output.{KidOutput, BabyOutput}
use lndmobile.Nursery.Store.{crib, pscl, kndr, grad, key, Stored, kid, baby, Db}
use lndmobile.Nursery.Store.Buckets.{and_then, get_output}
use lndmobile.Nursery.Store.Transitions.{
  enter_crib, enter_preschool, incubate, crib_to_kinder, preschool_to_kinder, add32, class_height,
  get_last_graduated_height,
}
use lndmobile.Nursery.Store.Views.{get_height_key}
use lndmobile.Nursery.Store.Moves.{
  get_output-crib_to_kinder, get_height_key-crib_to_kinder, get_output-preschool_to_kinder,
  get_height_key-preschool_to_kinder,
}
use lndmobile.Nursery.Store.Incubation.{Succeeds, succeeds, incubate-Succeeds}
use lndmobile.Nursery.Store.Entry.{
  enter_crib_ok, enter_preschool_ok, get_output-enter_crib, get_height_key-enter_crib,
  get_output-enter_preschool, get_height_key-enter_preschool,
}

-- The height at which an output of the crib is filed.
abbrev pub expiry_of : Stored → Option ℕ
expiry_of (kid o) = none
expiry_of (baby b) = some b.expiry

abbrev pub is_kid : Stored → Bool
is_kid (kid o) = true
is_kid (baby b) = false

module _ (bolt : Bolt) where
  pub record Consistent (db : Db bolt) : Type 0 where
    -- An output of the crib is filed at its expiry and nowhere else.
    pub crib_filed :
        (h : ℕ) (c p : OutPoint)
        → (get_height_key bolt h c (key crib p) db ≡ some tt)
          ↔ (and_then (get_output bolt c (key crib p) db) expiry_of ≡ some h)
    -- What is filed for the kindergarten is there, and is a kid.
    pub kndr_stored :
        (h : ℕ) (c p : OutPoint)
        → get_height_key bolt h c (key kndr p) db ≡ some tt
        → (o : KidOutput) × (get_output bolt c (key kndr p) db ≡ some (kid o))
    -- An output of the kindergarten is filed at some height.
    pub kndr_filed :
        (c p : OutPoint) (v : Stored)
        → get_output bolt c (key kndr p) db ≡ some v
        → (h : ℕ) × (get_height_key bolt h c (key kndr p) db ≡ some tt)
    -- Nothing else is filed.
    pub no_pscl : (h : ℕ) (c p : OutPoint) → get_height_key bolt h c (key pscl p) db ≡ none
    pub no_grad : (h : ℕ) (c p : OutPoint) → get_height_key bolt h c (key grad p) db ≡ none

  -- `CribToKinder` keeps the indexes consistent, if the crib has an output under the key of the one
  -- that it is given, with the same expiry.
  pub crib_to_kinder-Consistent :
      (b v : BabyOutput) (db : Db bolt)
      → Consistent db
      → get_output bolt b.kid.origin_chan_point (key crib b.kid.out_point) db ≡ some (baby v)
      → v.expiry ≡ b.expiry
      → Consistent (crib_to_kinder bolt b db).1
  crib_to_kinder-Consistent b v db s e x =
      let out = get_output-crib_to_kinder bolt b db in
      let at = get_height_key-crib_to_kinder bolt b db in
      let cp = b.kid.origin_chan_point in
      let op = b.kid.out_point in
      let height = add32 b.kid.conf_height b.kid.blocks_to_maturity in
      record {
        crib_filed = λ h c p. ground (
          arith,
          at h c (key crib p),
          out c (key crib p),
          s.crib_filed h c p,
          out_point_eqb_iff cp c,
          out_point_eqb_iff op p,
          ==_iff b.expiry h,
        );
        kndr_stored = λ h c p f. elim (Bool-cases (out_point_eqb cp c && out_point_eqb op p)) [
          | inl i ↦ (b.kid, ground (arith, out c (key kndr p)))
          | inr i ↦
              (let k = s.kndr_stored h c p (ground (arith, at h c (key kndr p))) in
                (k.0, ground (arith, out c (key kndr p))))
        ];
        kndr_filed = λ c p v f. elim (Bool-cases (out_point_eqb cp c && out_point_eqb op p)) [
          | inl i ↦ (height, ground (arith, at height c (key kndr p)))
          | inr i ↦
              (let k = s.kndr_filed c p v (ground (arith, out c (key kndr p))) in
                (k.0, ground (arith, at k.0 c (key kndr p))))
        ];
        no_pscl = λ h c p. ground (arith, at h c (key pscl p), s.no_pscl h c p);
        no_grad = λ h c p. ground (arith, at h c (key grad p), s.no_grad h c p);
      }

  -- `PreschoolToKinder` keeps the indexes consistent, for any output.
  pub preschool_to_kinder-Consistent :
      (o : KidOutput) (db : Db bolt) → Consistent db → Consistent (preschool_to_kinder bolt o db).1
  preschool_to_kinder-Consistent o db s =
      let out = get_output-preschool_to_kinder bolt o db in
      let at = get_height_key-preschool_to_kinder bolt o db in
      let cp = o.origin_chan_point in
      let op = o.out_point in
      let height = class_height o (get_last_graduated_height bolt db) in
      record {
        crib_filed =
            λ h c p. ground (arith, at h c (key crib p), out c (key crib p), s.crib_filed h c p);
        kndr_stored = λ h c p f. elim (Bool-cases (out_point_eqb cp c && out_point_eqb op p)) [
          | inl i ↦ (o, ground (arith, out c (key kndr p)))
          | inr i ↦
              let k = s.kndr_stored h c p (ground (arith, at h c (key kndr p))) in
              (k.0, ground (arith, out c (key kndr p)))
        ];
        kndr_filed = λ c p v f. elim (Bool-cases (out_point_eqb cp c && out_point_eqb op p)) [
          | inl i ↦ (height, ground (arith, at height c (key kndr p)))
          | inr i ↦
              let k = s.kndr_filed c p v (ground (arith, out c (key kndr p))) in
              (k.0, ground (arith, at k.0 c (key kndr p)))
        ];
        no_pscl = λ h c p. ground (arith, at h c (key pscl p), s.no_pscl h c p);
        no_grad = λ h c p. ground (arith, at h c (key grad p), s.no_grad h c p);
      }

  enter_crib-Consistent :
      (b : BabyOutput) (db : Db bolt) → Consistent db → Consistent (enter_crib bolt b db).1
  enter_crib-Consistent b db s =
      let out = get_output-enter_crib bolt b db in
      let at = get_height_key-enter_crib bolt b db in
      let cp = b.kid.origin_chan_point in
      let op = b.kid.out_point in
      record {
        crib_filed = λ h c p.
            ground (
              arith,
              at h c (key crib p),
              out c (key crib p),
              s.crib_filed h c p,
              ==_iff b.expiry h,
            );
        kndr_stored = λ h c p f.
            let k = s.kndr_stored h c p (ground (arith, at h c (key kndr p))) in
            (k.0, ground (arith, out c (key kndr p)));
        kndr_filed = λ c p v f.
            let k = s.kndr_filed c p v (ground (arith, out c (key kndr p))) in
            (k.0, ground (arith, at k.0 c (key kndr p)));
        no_pscl = λ h c p. ground (arith, at h c (key pscl p), s.no_pscl h c p);
        no_grad = λ h c p. ground (arith, at h c (key grad p), s.no_grad h c p);
      }

  enter_preschool-Consistent :
      (o : KidOutput) (db : Db bolt) → Consistent db → Consistent (enter_preschool bolt o db).1
  enter_preschool-Consistent o db s =
      let out = get_output-enter_preschool bolt o db in
      let at = get_height_key-enter_preschool bolt o db in
      record {
        crib_filed =
            λ h c p. ground (arith, at h c (key crib p), out c (key crib p), s.crib_filed h c p);
        kndr_stored = λ h c p f.
            let k = s.kndr_stored h c p (ground (arith, at h c (key kndr p))) in
            (k.0, ground (arith, out c (key kndr p)));
        kndr_filed = λ c p v f.
            let k = s.kndr_filed c p v (ground (arith, out c (key kndr p))) in
            (k.0, ground (arith, at k.0 c (key kndr p)));
        no_pscl = λ h c p. ground (arith, at h c (key pscl p), s.no_pscl h c p);
        no_grad = λ h c p. ground (arith, at h c (key grad p), s.no_grad h c p);
      }

  -- `Incubate` succeeds and keeps the indexes consistent, for any outputs.
  pub incubate-Consistent :
      (kids : List KidOutput) (babies : List BabyOutput) (db : Db bolt)
      → Consistent db
      → Succeeds Consistent (incubate bolt kids babies db)
  incubate-Consistent kids babies db s =
      incubate-Succeeds bolt kids babies Consistent
        (λ o e t. succeeds (enter_preschool_ok bolt o e) (enter_preschool-Consistent o e t))
        (λ b e t. succeeds (enter_crib_ok bolt b e) (enter_crib-Consistent b e t)) db s
