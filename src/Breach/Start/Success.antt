-- ===== src/Breach/Start/Success.antt =====
-- When `breachArbiter.Start` (lnd/breacharbiter.go) succeeds.
use lndmobile.Prelude.{
  ◌≡◌, ◌⊎◌, inl, inr, Bool, true, false, not, map, Option, none, some, List, [], ◌∷◌, ◌++◌, All,
  refl, ap, sym, ◌∙◌, subst, none≢some,
}
use lndmobile.Prelude.Assoc.{lookup, insert}
use lndmobile.Prelude.Exec.{Result, ok, err, panic, Reply, value, Exec, modify, follow, ◌>>=◌, ◌>>◌}
use lndmobile.Wire.{Bytes, OutPoint, out_point_eq}
use lndmobile.Bolt.{Bolt, contains}
use lndmobile.Codec.{WireCodec}
use lndmobile.Breach.Info.{RetributionInfo}
use lndmobile.Breach.Store.{Error, for_all_in, for_all, remove}
use lndmobile.Breach.Store.Reference.{Op, IsOp}
use lndmobile.Breach.Store.Views.{each}
use lndmobile.Breach.Store.Contract.{store_after, for_all-Presents}
use lndmobile.Breach.Start.{
  CloseSummary, StartError, Daemon, Starting, ask, collect, loaded, load, removed, reconcile_known,
  reconcile_one, reconcile, subscribe_unless, subscribe_one, subscribe, launch_all, launch_infos,
  watch_active, reconcile_closed, start_steps, start_arbiter,
}
use lndmobile.Breach.Start.Loading.{OnSuccess}
use lndmobile.Breach.Start.Partition.{IsPartition, start_arbiter-IsPartition}

-- A method succeeds, with a property of the state.
abbrev pub IsOk : {E S A : Type 0} → (A → S → Type 0) → Result E A × S → Type 0
IsOk P (ok a, s) = P a s
IsOk P (err e, s) = ⊥
IsOk P (panic, s) = ⊥

follow-IsOk :
    {E S A B : Type 0} (P : A → S → Type 0) (Q : B → S → Type 0) (f : A → Exec E S B)
    (r : Result E A × S)
    → IsOk P r
    → ((a : A) (s : S) → P a s → IsOk Q (f a s))
    → IsOk Q (follow f r)
follow-IsOk P Q f (ok a, s) h g = g a s h
follow-IsOk P Q f (err e, s) h g = absurd h
follow-IsOk P Q f (panic, s) h g = absurd h

bind-IsOk :
    {E S A B : Type 0} (P : A → S → Type 0) (Q : B → S → Type 0) (m : Exec E S A)
    (f : A → Exec E S B) (s : S)
    → IsOk P (m s)
    → ((a : A) (t : S) → P a t → IsOk Q (f a t))
    → IsOk Q ((m >>= f) s)
bind-IsOk P Q m f s h g = follow-IsOk P Q f (m s) h g

ok_result :
    {E S A : Type 0} (P Q : A → S → Type 0) (r : Result E A × S)
    → IsOk P r
    → OnSuccess Q r
    → (a : A) × (s : S) × (r ≡ (ok a, s)) × Q a s
ok_result P Q (ok a, s) h q = (a, s, refl, q)
ok_result P Q (err e, s) h q = absurd h
ok_result P Q (panic, s) h q = absurd h

module _ (bolt : Bolt) (codec : WireCodec) (daemon : Daemon) where
  open bolt use {Bucket}

  -- The daemon answers without an error.
  pub record Answers (closed : List CloseSummary) (active : List OutPoint) : Type 0 where
    pub fetch_closed_channels : daemon.fetch_closed_channels ≡ value closed
    pub fetch_all_channels : daemon.fetch_all_channels ≡ value active
    pub subscribe_channel_events : (o : OutPoint) → daemon.subscribe_channel_events o ≡ value tt
    pub register_confirmations_ntfn :
        (r : RetributionInfo) → daemon.register_confirmations_ntfn r ≡ value tt

  abbrev created : Option (Bucket Bytes Bytes) → Bool
  created none = false
  created (some _) = true

  -- There are retributions only if there is a bucket for them.
  abbrev HasBucket : Starting bolt → Type 0
  HasBucket s = (s.infos ≡ []) ⊎ (created s.db.retribution_bucket ≡ true)

  abbrev Good : {A : Type 0} → Result StartError A × Starting bolt → Type 0
  Good r = IsOk (λ a s. HasBucket s) r

  ask-IsOk :
      {A : Type 0} (P : A → Starting bolt → Type 0) (r : Reply A) (a : A) (s : Starting bolt)
      → r ≡ value a
      → P a s
      → IsOk P (ask bolt codec daemon r s)
  ask-IsOk P r a s e h = subst (λ x. IsOk P (ask bolt codec daemon x s)) (sym e) h

  each-IsOk :
      (rs : List RetributionInfo) (m : List (OutPoint × RetributionInfo))
      → IsOk (λ a t. Unit) (each (collect bolt codec daemon) rs m)
  each-IsOk [] m = tt
  each-IsOk (r ∷ rs) m = each-IsOk rs (insert r.chan_point r m)

  -- A state with some bucket of retributions.
  abbrev state :
      Option (Bucket Bytes Bytes)
      → Option (Bucket Bytes Bytes)
      → List (OutPoint × RetributionInfo)
      → List OutPoint
      → List RetributionInfo
      → Starting bolt
  state b j m cs l = record {
    db = record { retribution_bucket = b; justice_txn_bucket = j };
    infos = m;
    channels_to_watch = cs;
    launched = l;
  }

  removed-Good :
      (o : OutPoint) (b j : Option (Bucket Bytes Bytes)) (m : List (OutPoint × RetributionInfo))
      (cs : List OutPoint) (l : List RetributionInfo)
      → created b ≡ true
      → let s = state b j m cs l in Good (removed bolt codec daemon o (remove bolt codec o s.db) s)
  unfolding remove
  removed-Good o none j m cs l c = cc
  removed-Good o (some b) j m cs l c = inr refl

  known-Good :
      (o : OutPoint) (x : Option RetributionInfo) (s : Starting bolt)
      → lookup o s.infos ≡ x
      → HasBucket s
      → Good (reconcile_known bolt codec daemon o x s)
  unfolding lookup
  known-Good o none s e h = h
  known-Good o (some r) s e (inl empty) = absurd (none≢some (sym (ap (lookup o) empty) ∙ e))
  known-Good o (some r) s e (inr c) =
      removed-Good o s.db.retribution_bucket s.db.justice_txn_bucket s.infos s.channels_to_watch
        s.launched c

  one-Good :
      (o : OutPoint) (pending : Bool) (s : Starting bolt)
      → HasBucket s
      → Good (reconcile_one bolt codec daemon o pending s)
  one-Good o true s h = h
  one-Good o false s h = known-Good o (lookup o s.infos) s refl h

  reconcile-Good :
      (cs : List CloseSummary) (s : Starting bolt)
      → HasBucket s
      → Good (reconcile bolt codec daemon cs s)
  unfolding reconcile
  reconcile-Good [] s h = h
  reconcile-Good (c ∷ cs) s h =
      bind-IsOk (λ a t. HasBucket t) (λ a t. HasBucket t)
        (reconcile_one bolt codec daemon c.chan_point c.is_pending)
        (λ _. reconcile bolt codec daemon cs) s (one-Good c.chan_point c.is_pending s h)
        (λ a t q. reconcile-Good cs t q)

  loaded-Good :
      (r : Result Error (Unit {0}) × List (OutPoint × RetributionInfo)) (s : Starting bolt)
      → IsOk (λ a t. Unit {0}) r
      → created s.db.retribution_bucket ≡ true
      → Good (loaded bolt codec daemon r s)
  loaded-Good (ok a, m) s h c = inr c
  loaded-Good (err e, m) s h c = absurd h
  loaded-Good (panic, m) s h c = absurd h

  load-Good :
      (b j : Option (Bucket Bytes Bytes))
      → IsOk (λ a t. Unit {0}) (for_all_in bolt codec (collect bolt codec daemon) b [])
      → Good (load bolt codec daemon (state b j [] [] []))
  unfolding load for_all for_all_in
  load-Good none j h = inl refl
  load-Good (some b) j h =
      loaded-Good (for_all_in bolt codec (collect bolt codec daemon) (some b) [])
        (state (some b) j [] [] []) h refl

  abbrev Ends : {A : Type 0} → Result StartError A × Starting bolt → Type 0
  Ends r = IsOk (λ a t. Unit {0}) r

  module _ (closed : List CloseSummary) (active : List OutPoint)
      (answers : Answers closed active) where
    subscribe_unless-Ends :
        (o : OutPoint) (x : Option RetributionInfo) (s : Starting bolt)
        → Ends (subscribe_unless bolt codec daemon o x s)
    subscribe_unless-Ends o (some r) s = tt
    subscribe_unless-Ends o none s =
        bind-IsOk (λ a t. Unit {0}) (λ a t. Unit {0})
          (ask bolt codec daemon (daemon.subscribe_channel_events o))
          (λ _. modify (λ t. record t { channels_to_watch = t.channels_to_watch ++ o ∷ [] })) s
          (ask-IsOk (λ a t. Unit {0}) (daemon.subscribe_channel_events o) tt s
            (answers.subscribe_channel_events o) tt)
          (λ a t h. tt)

    subscribe-Ends :
        (os : List OutPoint) (s : Starting bolt) → Ends (subscribe bolt codec daemon os s)
    unfolding subscribe
    subscribe-Ends [] s = tt
    subscribe-Ends (o ∷ os) s =
        bind-IsOk (λ a t. Unit {0}) (λ a t. Unit {0}) (subscribe_one bolt codec daemon o)
          (λ _. subscribe bolt codec daemon os) s (subscribe_unless-Ends o (lookup o s.infos) s)
          (λ a t h. subscribe-Ends os t)

    launch_all-Ends :
        (m : List (OutPoint × RetributionInfo)) (s : Starting bolt)
        → Ends (launch_all bolt codec daemon m s)
    unfolding launch_all
    launch_all-Ends [] s = tt
    launch_all-Ends ((o, r) ∷ m) s =
        let add = λ (t : Starting bolt). record t { launched = r ∷ t.launched } in
        let first = ask bolt codec daemon (daemon.register_confirmations_ntfn r) in
        bind-IsOk (λ a t. Unit {0}) (λ a t. Unit {0}) (first >> modify add)
          (λ _. launch_all bolt codec daemon m) s
          (bind-IsOk (λ a t. Unit {0}) (λ a t. Unit {0}) first (λ _. modify add) s
            (ask-IsOk (λ a t. Unit {0}) (daemon.register_confirmations_ntfn r) tt s
              (answers.register_confirmations_ntfn r) tt)
            (λ a t h. tt))
          (λ a t h. launch_all-Ends m t)

    watch_active-Ends :
        (os : List OutPoint) (s : Starting bolt) → Ends (watch_active bolt codec daemon os s)
    unfolding watch_active launch_infos
    watch_active-Ends os s =
        bind-IsOk (λ a t. Unit {0}) (λ a t. Unit {0}) (subscribe bolt codec daemon os)
          (λ _. launch_infos bolt codec daemon) s (subscribe-Ends os s)
          (λ a t h. launch_all-Ends t.infos t)

    reconcile_closed-Ends :
        (cs : List CloseSummary) (s : Starting bolt)
        → HasBucket s
        → Ends (reconcile_closed bolt codec daemon cs s)
    unfolding reconcile_closed
    reconcile_closed-Ends cs s h =
        let fetch = ask bolt codec daemon daemon.fetch_all_channels in
        bind-IsOk (λ a t. HasBucket t) (λ a t. Unit {0}) (reconcile bolt codec daemon cs)
          (λ _. fetch >>= watch_active bolt codec daemon) s (reconcile-Good cs s h)
          (λ a t q.
            bind-IsOk (λ a t. Unit {0}) (λ a t. Unit {0}) fetch (watch_active bolt codec daemon) t
              (ask-IsOk (λ a t. Unit {0}) daemon.fetch_all_channels active t
                answers.fetch_all_channels tt)
              (λ os u h. watch_active-Ends os u))

    start_arbiter-Ends :
        (b j : Option (Bucket Bytes Bytes))
        → IsOk (λ a t. Unit {0}) (for_all_in bolt codec (collect bolt codec daemon) b [])
        → Ends (
            start_arbiter bolt codec daemon
              (record { retribution_bucket = b; justice_txn_bucket = j }))
    unfolding start_arbiter start_steps
    start_arbiter-Ends b j h =
        let fetch = ask bolt codec daemon daemon.fetch_closed_channels in
        bind-IsOk (λ a t. HasBucket t) (λ a t. Unit {0}) (load bolt codec daemon)
          (λ _. fetch >>= reconcile_closed bolt codec daemon) (state b j [] [] []) (load-Good b j h)
          (λ a t q.
            bind-IsOk (λ cs u. HasBucket u) (λ a u. Unit {0}) fetch
              (reconcile_closed bolt codec daemon) t
              (ask-IsOk (λ cs u. HasBucket u) daemon.fetch_closed_channels closed t
                answers.fetch_closed_channels q)
              (λ cs u g. reconcile_closed-Ends cs u g))

    -- With a daemon that answers, and a database that any calls of the store with arguments that can be
    -- encoded have made of an empty one, Start succeeds, and afterwards an active channel is watched
    -- exactly if no retribution was launched for it.
    pub start_arbiter_partitions :
        (ops : List Op) (o : OutPoint)
        → All (IsOp codec) ops
        → contains o active ≡ true
        → (t : Starting bolt) × (start_arbiter bolt codec daemon (store_after bolt codec ops).1
            ≡ (ok tt, t))
          × (contains o t.channels_to_watch ≡ not (contains o (map (λ r. r.chan_point) t.launched)))
    unfolding for_all
    start_arbiter_partitions ops o a known =
        let db = (store_after bolt codec ops).1 in
        let (list, run, members) = for_all-Presents bolt codec (collect bolt codec daemon) ops a in
        let whole = subst (λ f. IsOk (λ a t. Unit {0}) (f [])) (sym run) (each-IsOk list []) in
        let (u, t, e, p) =
          ok_result (λ a t. Unit {0}) (λ a t. IsPartition bolt codec daemon active t)
            (start_arbiter bolt codec daemon db)
            (start_arbiter-Ends db.retribution_bucket db.justice_txn_bucket whole)
            (start_arbiter-IsPartition bolt codec daemon db active answers.fetch_all_channels) in
        (t, e, p o known)
