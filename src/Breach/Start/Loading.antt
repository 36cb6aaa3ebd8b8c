-- ===== src/Breach/Start/Loading.antt =====
-- The first steps of `breachArbiter.Start` (lnd/breacharbiter.go), which load the retributions.
use lndmobile.Prelude.{
  ℕ, ◌≡◌, Bool, true, false, Option, none, some, List, [], ◌∷◌, All, if◌then◌else◌, refl,
}
use lndmobile.Prelude.Assoc.{lookup, insert, delete}
use lndmobile.Prelude.Exec.{Result, ok, err, panic, Reply, value, failure, Exec, follow, ◌>>=◌}
use lndmobile.Wire.{Bytes, hash_eq, OutPoint, out_point_eq, out_point_eqb}
use lndmobile.Bolt.{Bolt}
use lndmobile.Codec.{WireCodec}
use lndmobile.Breach.Info.{RetributionInfo}
use lndmobile.Breach.Codec.{decode_info}
use lndmobile.Breach.Store.{
  Error, Db, visit, visit_decoded, visit_next, for_each, for_all_in, for_all, remove,
}
use lndmobile.Breach.Start.{
  CloseSummary, Daemon, Starting, ask, collect, loaded, load, removed, reconcile_known,
  reconcile_one, reconcile,
}

-- What holds of the state if a method succeeds.
abbrev pub OnSuccess : {E S A : Type 0} → (A → S → Type 0) → Result E A × S → Type 0
OnSuccess P (ok a, s) = P a s
OnSuccess P (err e, s) = Unit
OnSuccess P (panic, s) = Unit

follow-OnSuccess :
    {E S A B : Type 0} (P : A → S → Type 0) (Q : B → S → Type 0) (f : A → Exec E S B)
    (r : Result E A × S)
    → OnSuccess P r
    → ((a : A) (s : S) → P a s → OnSuccess Q (f a s))
    → OnSuccess Q (follow f r)
follow-OnSuccess P Q f (ok a, s) h g = g a s h
follow-OnSuccess P Q f (err e, s) h g = tt
follow-OnSuccess P Q f (panic, s) h g = tt

pub bind-OnSuccess :
    {E S A B : Type 0} (P : A → S → Type 0) (Q : B → S → Type 0) (m : Exec E S A)
    (f : A → Exec E S B) (s : S)
    → OnSuccess P (m s)
    → ((a : A) (t : S) → P a t → OnSuccess Q (f a t))
    → OnSuccess Q ((m >>= f) s)
bind-OnSuccess P Q m f s h g = follow-OnSuccess P Q f (m s) h g

pub OnSuccess-map :
    {E S A : Type 0} (P Q : A → S → Type 0) (r : Result E A × S)
    → ((a : A) (s : S) → P a s → Q a s)
    → OnSuccess P r
    → OnSuccess Q r
OnSuccess-map P Q (ok a, s) f h = f a s h
OnSuccess-map P Q (err e, s) f h = tt
OnSuccess-map P Q (panic, s) f h = tt

-- The retributions are filed under their channel points.
abbrev pub Keyed : List (OutPoint × RetributionInfo) → Type 0
Keyed m = All (λ x. x.1.chan_point ≡ x.0) m

All-if :
    (P : OutPoint × RetributionInfo → Type 0) (b : Bool) (xs ys : List (OutPoint × RetributionInfo))
    → All P xs
    → All P ys
    → All P (if b then xs else ys)
All-if P true xs ys f g = f
All-if P false xs ys f g = g

insert-Keyed :
    (r : RetributionInfo) (m : List (OutPoint × RetributionInfo))
    → Keyed m
    → Keyed (insert r.chan_point r m)
unfolding insert
insert-Keyed r [] h = (refl, tt)
insert-Keyed r ((o, q) ∷ m) h =
    All-if (λ x. x.1.chan_point ≡ x.0) (out_point_eqb o r.chan_point) ((r.chan_point, r) ∷ m)
      ((o, q) ∷ insert r.chan_point r m) (refl, h.1) (h.0, insert-Keyed r m h.1)

delete-Keyed : (p : OutPoint) (m : List (OutPoint × RetributionInfo)) → Keyed m → Keyed (delete p m)
unfolding delete
delete-Keyed p [] h = tt
delete-Keyed p ((o, q) ∷ m) h =
    let rest = delete-Keyed p m h.1 in
    All-if (λ x. x.1.chan_point ≡ x.0) (out_point_eqb o p) (delete p m) ((o, q) ∷ delete p m) rest
      (h.0, rest)

abbrev pub Infos : Type 0
Infos = List (OutPoint × RetributionInfo)

abbrev pub is_some : {A : Type 0} → Option A → Bool
is_some none = false
is_some (some a) = true

pub value_injective : {A : Type 0} {a b : A} → Path (Reply A) (value a) (value b) → a ≡ b
value_injective e = cc

module _ (bolt : Bolt) (codec : WireCodec) (daemon : Daemon) where
  open bolt use {Bucket, get, keys}

  abbrev cb : RetributionInfo → Exec Error Infos (Unit {0})
  cb = collect bolt codec daemon

  decoded-Keyed :
      (x : Result ℕ RetributionInfo) (m : Infos)
      → Keyed m
      → Keyed (visit_decoded bolt codec cb x m).1
  decoded-Keyed (ok r) m h = insert-Keyed r m h
  decoded-Keyed (err e) m h = h
  decoded-Keyed panic m h = h

  followed-Keyed :
      (r : Result Error (Unit {0}) × Infos) (rest : Exec Error Infos (Unit {0}))
      → Keyed r.1
      → ((m : Infos) → Keyed m → Keyed (rest m).1)
      → Keyed (follow (λ _. rest) r).1
  followed-Keyed (ok a, m) rest h g = g m h
  followed-Keyed (err e, m) rest h g = h
  followed-Keyed (panic, m) rest h g = h

  next-Keyed :
      (x : Option Bytes) (rest : Exec Error Infos (Unit {0})) (m : Infos)
      → ((m : Infos) → Keyed m → Keyed (rest m).1)
      → Keyed m
      → Keyed (visit_next bolt codec cb x rest m).1
  unfolding visit
  next-Keyed none rest m g h = g m h
  next-Keyed (some bs) rest m g h =
      followed-Keyed (visit bolt codec cb bs m) rest (decoded-Keyed (decode_info codec bs).0 m h) g

  for_each-Keyed :
      (b : Bucket Bytes Bytes) (ks : List Bytes) (m : Infos)
      → Keyed m
      → Keyed (for_each bolt codec cb b ks m).1
  unfolding for_each
  for_each-Keyed b [] m h = h
  for_each-Keyed b (k ∷ ks) m h =
      next-Keyed (get k b) (for_each bolt codec cb b ks) m (for_each-Keyed b ks) h

  for_all-Keyed :
      (b : Option (Bucket Bytes Bytes)) (m : Infos)
      → Keyed m
      → Keyed (for_all_in bolt codec cb b m).1
  unfolding for_all_in
  for_all-Keyed none m h = h
  for_all-Keyed (some b) m h = for_each-Keyed b (keys b) m h

  -- Nothing is watched yet, and nothing launched.
  pub record Prepared (s : Starting bolt) : Type 0 where
    pub keyed : Keyed s.infos
    pub unwatched : s.channels_to_watch ≡ []
    pub unlaunched : s.launched ≡ []

  loaded-Prepared :
      (r : Result Error (Unit {0}) × Infos) (s : Starting bolt)
      → Prepared s
      → Keyed r.1
      → OnSuccess (λ a t. Prepared t) (loaded bolt codec daemon r s)
  loaded-Prepared (ok a, m) s p k = record {
    keyed = k;
    unwatched = p.unwatched;
    unlaunched = p.unlaunched;
  }
  loaded-Prepared (err e, m) s p k = tt
  loaded-Prepared (panic, m) s p k = tt

  pub load-Prepared :
      (s : Starting bolt) → Prepared s → OnSuccess (λ a t. Prepared t) (load bolt codec daemon s)
  unfolding load for_all
  load-Prepared s p =
      loaded-Prepared (for_all bolt codec cb s.db s.infos) s p
        (for_all-Keyed s.db.retribution_bucket s.infos p.keyed)

  pub ask-OnSuccess :
      {A : Type 0} (P : A → Starting bolt → Type 0) (r : Reply A) (s : Starting bolt)
      → ((a : A) → r ≡ value a → P a s)
      → OnSuccess P (ask bolt codec daemon r s)
  ask-OnSuccess P (value a) s h = h a refl
  ask-OnSuccess P (failure e) s h = tt

  removed-Prepared :
      (o : OutPoint) (r : Result Error (Unit {0}) × Db bolt) (s : Starting bolt)
      → Prepared s
      → OnSuccess (λ a t. Prepared t) (removed bolt codec daemon o r s)
  removed-Prepared o (ok a, db) s p = record {
    keyed = delete-Keyed o s.infos p.keyed;
    unwatched = p.unwatched;
    unlaunched = p.unlaunched;
  }
  removed-Prepared o (err e, db) s p = tt
  removed-Prepared o (panic, db) s p = tt

  known-Prepared :
      (o : OutPoint) (x : Option RetributionInfo) (s : Starting bolt)
      → Prepared s
      → OnSuccess (λ a t. Prepared t) (reconcile_known bolt codec daemon o x s)
  known-Prepared o none s p = p
  known-Prepared o (some r) s p = removed-Prepared o (remove bolt codec o s.db) s p

  one-Prepared :
      (o : OutPoint) (pending : Bool) (s : Starting bolt)
      → Prepared s
      → OnSuccess (λ a t. Prepared t) (reconcile_one bolt codec daemon o pending s)
  one-Prepared o true s p = p
  one-Prepared o false s p = known-Prepared o (lookup o s.infos) s p

  pub reconcile-Prepared :
      (cs : List CloseSummary) (s : Starting bolt)
      → Prepared s
      → OnSuccess (λ a t. Prepared t) (reconcile bolt codec daemon cs s)
  unfolding reconcile
  reconcile-Prepared [] s p = p
  reconcile-Prepared (c ∷ cs) s p =
      bind-OnSuccess (λ a t. Prepared t) (λ a t. Prepared t)
        (reconcile_one bolt codec daemon c.chan_point c.is_pending)
        (λ _. reconcile bolt codec daemon cs) s (one-Prepared c.chan_point c.is_pending s p)
        (λ a t q. reconcile-Prepared cs t q)
