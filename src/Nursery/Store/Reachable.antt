-- ===== src/Nursery/Store/Reachable.antt =====
-- The stores that the methods of lnd/nursery_store.go lead to.
use lndmobile.Prelude.{
  ℕ, ◌≡◌, Option, none, some, List, arith, refl, ap, sym, ◌∙◌, subst, none≢some,
}
use lndmobile.Wire.{OutPoint}
use lndmobile.Bolt.{Bolt}
use lndmobile.Nursery.Output.{KidOutput, BabyOutput}
use lndmobile.Nursery.Store.{PrefixKey, crib, pscl, kndr, grad, key, baby, Db}
use lndmobile.Nursery.Store.Buckets.{
  get_output, get_channel_bucket, get_height_channel_bucket, get_height_bucket,
}
use lndmobile.Nursery.Store.Transitions.{
  incubate, crib_to_kinder, preschool_to_kinder, graduate_height,
}
use lndmobile.Nursery.Store.Views.{get_height_key}
use lndmobile.Nursery.Store.Consistency.{
  Consistent, incubate-Consistent, crib_to_kinder-Consistent, preschool_to_kinder-Consistent,
}

module _ (bolt : Bolt) where
  abbrev pub fresh_db : Option ℕ → Option ℕ → Db bolt
  fresh_db f g = record {
    last_finalized_height = f;
    last_graduated_height = g;
    channel_index = none;
    height_index = none;
  }

  abbrev pub confirmed_at : ℕ → BabyOutput → BabyOutput
  confirmed_at height b = record b { kid = record b.kid { conf_height = height } }

  -- The stores that a store without outputs becomes, by calls that succeed or fail. An output is
  -- moved from the crib with the fields that it is stored with there, but for its height of
  -- confirmation, which `waitForTimeoutConf` sets before it calls CribToKinder.
  pub data Reachable : Db bolt → Type 0 where
    fresh : (f g : Option ℕ) → Reachable (fresh_db f g)
    incubated :
        {old : Db bolt} (kids : List KidOutput) (babies : List BabyOutput)
        → Reachable old
        → Reachable (incubate bolt kids babies old).1
    crib_moved :
        {old : Db bolt} (b : BabyOutput) (height : ℕ)
        → get_output bolt b.kid.origin_chan_point (key crib b.kid.out_point) old ≡ some (baby b)
        → Reachable old
        → Reachable (crib_to_kinder bolt (confirmed_at height b) old).1
    preschool_moved :
        {old : Db bolt} (o : KidOutput)
        → Reachable old
        → Reachable (preschool_to_kinder bolt o old).1
    height_graduated :
        {old : Db bolt} (h : ℕ) → Reachable old → Reachable (graduate_height bolt h old).1

  no_keys :
      (f g : Option ℕ) (h : ℕ) (c : OutPoint) (p : PrefixKey)
      → get_height_key bolt h c p (fresh_db f g) ≡ none
  unfolding get_height_key get_height_channel_bucket get_height_bucket
  no_keys f g h c p = refl

  no_outputs :
      (f g : Option ℕ) (c : OutPoint) (p : PrefixKey) → get_output bolt c p (fresh_db f g) ≡ none
  unfolding get_output get_channel_bucket
  no_outputs f g c p = refl

  fresh-Consistent : (f g : Option ℕ) → Consistent bolt (fresh_db f g)
  fresh-Consistent f g = record {
    crib_filed =
        λ h c p. ground (arith, no_keys f g h c (key crib p), no_outputs f g c (key crib p));
    kndr_stored = λ h c p x. absurd (none≢some (sym (no_keys f g h c (key kndr p)) ∙ x));
    kndr_filed = λ c p v x. absurd (none≢some (sym (no_outputs f g c (key kndr p)) ∙ x));
    no_pscl = λ h c p. no_keys f g h c (key pscl p);
    no_grad = λ h c p. no_keys f g h c (key grad p);
  }

  graduate_height-Consistent :
      (h : ℕ) (db : Db bolt) → Consistent bolt db → Consistent bolt (graduate_height bolt h db).1
  unfolding graduate_height get_output get_channel_bucket get_height_key get_height_channel_bucket
      get_height_bucket
  graduate_height-Consistent h db s = record {
    crib_filed = s.crib_filed;
    kndr_stored = s.kndr_stored;
    kndr_filed = s.kndr_filed;
    no_pscl = s.no_pscl;
    no_grad = s.no_grad;
  }

  -- In every store that Incubate, CribToKinder, PreschoolToKinder and GraduateHeight lead to, in any
  -- order, from one without outputs, where CribToKinder is given
  -- an output as the crib has it with any height of confirmation, the channel index and the height
  -- index agree.
  pub reachable-Consistent : (db : Db bolt) → Reachable db → Consistent bolt db
  reachable-Consistent db (fresh f g) = fresh-Consistent f g
  reachable-Consistent db (incubated {old} kids babies r) =
      let s = incubate-Consistent bolt kids babies old (reachable-Consistent old r) in
      subst (Consistent bolt) (sym (ap (λ x. x.1) s.result)) s.holds
  reachable-Consistent db (crib_moved {old} b height e r) =
      crib_to_kinder-Consistent bolt (confirmed_at height b) b old (reachable-Consistent old r) e
        refl
  reachable-Consistent db (preschool_moved {old} o r) =
      preschool_to_kinder-Consistent bolt o old (reachable-Consistent old r)
  reachable-Consistent db (height_graduated {old} h r) =
      graduate_height-Consistent h old (reachable-Consistent old r)
