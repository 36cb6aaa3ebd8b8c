-- ===== src/Nursery/Incubator/Closing.antt =====
-- When the nursery removes a channel (lnd/utxonursery.go).
use lndmobile.Prelude.{
  ◌≡◌, ◌≢◌, ◌⊎◌, inl, inr, Option, none, some, refl, ap, sym, ◌∙◌, subst, if◌then◌else◌,
  Option-cases,
}
use lndmobile.Prelude.Exec.{Result, ok, err, panic}
use lndmobile.Wire.{OutPoint, out_point_eqb}
use lndmobile.Bolt.{Bolt}
use lndmobile.Nursery.Store.{PrefixKey, Error, Db}
use lndmobile.Nursery.Store.Buckets.{get_output, get_channel_bucket}
use lndmobile.Nursery.Store.Queries.{remove_channel}
use lndmobile.Nursery.Store.Maturity.{
  AllGraduated, is_mature_channel_iff, Removal, refused, removed, remove_channel-Removal,
}
use lndmobile.Nursery.Incubator.{Chain, Fault, Nursery, stored}
use lndmobile.Nursery.Incubator.Confirmations.{when_mature, close_and_remove_if_mature}

module _ {World : Type 0} (bolt : Bolt) (chain : Chain World) where
  -- What becomes of a channel.
  pub data Closing (cp : OutPoint) (s : Nursery World bolt)
      (r : Result Fault (Unit {0}) × Nursery World bolt) : Type 0 where
    left :
        r ≡ (ok tt, s)
        → (get_channel_bucket bolt cp s.db ≡ none) ⊎ (¬ AllGraduated bolt cp s.db)
        → Closing cp s r
    failed : AllGraduated bolt cp s.db → r.0 ≢ ok tt → r.1.db ≡ s.db → Closing cp s r
    closed :
        AllGraduated bolt cp s.db
        → r.0 ≡ ok tt
        → ((c : OutPoint) (j : PrefixKey)
            → get_output bolt c j r.1.db
              ≡ (if out_point_eqb cp c then none else get_output bolt c j s.db))
        → Closing cp s r

  stored-db :
      (s : Nursery World bolt) (r : Result Error (Unit {0}) × Db bolt)
      → (stored bolt s r).1.db ≡ r.1
  stored-db s (ok u, db) = refl
  stored-db s (err e, db) = refl
  stored-db s (panic, db) = refl

  stored-ok :
      (s : Nursery World bolt) (r : Result Error (Unit {0}) × Db bolt)
      → (stored bolt s r).0 ≡ ok tt
      → r.0 ≡ ok tt
  stored-ok s (ok u, db) e = refl
  stored-ok s (err x, db) e = cc
  stored-ok s (panic, db) e = cc

  removal-Closing :
      (cp : OutPoint) (s : Nursery World bolt) (r : Result Error (Unit {0}) × Db bolt)
      → AllGraduated bolt cp s.db
      → Removal bolt cp s.db r
      → Closing cp s (stored bolt s r)
  removal-Closing cp s r a (refused same n) =
      failed a (λ e. n (stored-ok s r e)) (stored-db s r ∙ same)
  removal-Closing cp s r a (removed k _ reads) =
      closed a (ap (λ x. (stored bolt s (x, r.1)).0) k)
        (λ c j. ap (get_output bolt c j) (stored-db s r) ∙ reads c j)

  -- `closeAndRemoveIfMature` changes nothing, without an error, for a channel that the store does not
  -- know or that has an output that has not graduated. For another one it removes the outputs of the
  -- channel and no others, or it fails and leaves the store as it was.
  pub close_and_remove_if_mature-Closing :
      (cp : OutPoint) (s : Nursery World bolt)
      → Closing cp s (close_and_remove_if_mature bolt chain cp s)
  unfolding close_and_remove_if_mature
  close_and_remove_if_mature-Closing cp s =
      let (unknown, known) = is_mature_channel_iff bolt cp s.db in
      elim (Option-cases (get_channel_bucket bolt cp s.db)) [
        | inl e ↦
            subst (λ x. Closing cp s (when_mature bolt chain cp x s)) (sym (unknown e))
              (left refl (inl e))
        | inr (b, e) ↦ elim (known (λ n. some≢none (sym e ∙ n))) [
          | inl (i, a) ↦
              subst (λ x. Closing cp s (when_mature bolt chain cp x s)) (sym i)
                (removal-Closing cp s (remove_channel bolt cp s.db) a
                  (remove_channel-Removal bolt cp s.db))
          | inr (i, n) ↦
              subst (λ x. Closing cp s (when_mature bolt chain cp x s)) (sym i) (left refl (inr n))
        ]
      ]
    where
      some≢none : {A : Type 0} {a : A} → Path (Option A) (some a) none → ⊥
      some≢none e = cc
