-- ===== src/Breach/Start/Partition.antt =====
-- Which channels are watched and which are under retribution after `breachArbiter.Start`
-- (lnd/breacharbiter.go).
use lndmobile.Prelude.{
  ◌≡◌, true, not, ◌||◌, ◌&&◌, Option, none, some, List, [], ◌∷◌, ◌++◌, map, arith, refl, ap, sym,
  ◌∙◌, subst,
}
use lndmobile.Prelude.Assoc.{lookup}
use lndmobile.Prelude.Exec.{value, modify, ◌>>=◌, ◌>>◌}
use lndmobile.Wire.{hash_eq, OutPoint, out_point_eq, out_point_eqb, out_point_eqb_iff}
use lndmobile.Bolt.{Bolt, contains}
use lndmobile.Codec.{WireCodec}
use lndmobile.Breach.Info.{RetributionInfo}
use lndmobile.Breach.Store.{Db}
use lndmobile.Breach.Start.{
  CloseSummary, Daemon, Starting, ask, load, reconcile, subscribe_unless, subscribe_one, subscribe,
  launch_all, launch_infos, watch_active, reconcile_closed, start_steps, start_arbiter,
}
use lndmobile.Breach.Start.Loading.{
  OnSuccess, OnSuccess-map, bind-OnSuccess, value_injective, Keyed, Infos, is_some, Prepared,
  load-Prepared, ask-OnSuccess, reconcile-Prepared,
}

module _ (bolt : Bolt) (codec : WireCodec) (daemon : Daemon) where
  contains-append :
      (o p : OutPoint) (xs : List OutPoint)
      → contains o (xs ++ p ∷ []) ≡ contains o xs || out_point_eqb p o
  contains-append o p [] = ground arith
  contains-append o p (x ∷ xs) = ground (arith, contains-append o p xs)

  -- The channels that were watched, and those of some more that have no retribution.
  pub record Watched (s : Starting bolt) (os : List OutPoint) (t : Starting bolt) : Type 0 where
    infos : t.infos ≡ s.infos
    launched : t.launched ≡ s.launched
    channels :
        (o : OutPoint)
        → contains o t.channels_to_watch
          ≡ contains o s.channels_to_watch || (contains o os && not (is_some (lookup o s.infos)))

  subscribe_unless-Watched :
      (o : OutPoint) (x : Option RetributionInfo) (s : Starting bolt)
      → lookup o s.infos ≡ x
      → OnSuccess (λ a t. Watched s (o ∷ []) t) (subscribe_unless bolt codec daemon o x s)
  subscribe_unless-Watched o (some r) s e = record {
    infos = refl;
    launched = refl;
    channels = λ p. ground (arith, out_point_eqb_iff o p, e);
  }
  subscribe_unless-Watched o none s e =
      bind-OnSuccess (λ a t. t ≡ s) (λ a t. Watched s (o ∷ []) t)
        (ask bolt codec daemon (daemon.subscribe_channel_events o))
        (λ _. modify (λ t. record t { channels_to_watch = t.channels_to_watch ++ o ∷ [] })) s
        (ask-OnSuccess bolt codec daemon (λ a t. t ≡ s) (daemon.subscribe_channel_events o) s
          (λ a f. refl))
        (λ a t same. record {
          infos = ap (λ u. u.infos) same;
          launched = ap (λ u. u.launched) same;
          channels = λ p.
              contains-append p o t.channels_to_watch
              ∙ ap (λ u. contains p u.channels_to_watch || out_point_eqb o p) same
              ∙ ground (arith, out_point_eqb_iff o p, e);
        })

  Watched-trans :
      (s t u : Starting bolt) (o : OutPoint) (os : List OutPoint)
      → Watched s (o ∷ []) t
      → Watched t os u
      → Watched s (o ∷ os) u
  Watched-trans s t u o os a b = record {
    infos = b.infos ∙ a.infos;
    launched = b.launched ∙ a.launched;
    channels =
        λ p. ground (arith, a.channels p, b.channels p, ap (λ m. is_some (lookup p m)) a.infos);
  }

  subscribe-Watched :
      (os : List OutPoint) (s : Starting bolt)
      → OnSuccess (λ a t. Watched s os t) (subscribe bolt codec daemon os s)
  unfolding subscribe
  subscribe-Watched [] s = record { infos = refl; launched = refl; channels = λ p. ground arith }
  subscribe-Watched (o ∷ os) s =
      bind-OnSuccess (λ a t. Watched s (o ∷ []) t) (λ a u. Watched s (o ∷ os) u)
        (subscribe_one bolt codec daemon o) (λ _. subscribe bolt codec daemon os) s
        (subscribe_unless-Watched o (lookup o s.infos) s refl)
        (λ a t w.
          OnSuccess-map (λ b u. Watched t os u) (λ b u. Watched s (o ∷ os) u)
            (subscribe bolt codec daemon os t) (λ b u h. Watched-trans s t u o os w h)
            (subscribe-Watched os t))

  -- The retributions that were launched, and those of a map.
  pub record Launched (s : Starting bolt) (m : Infos) (t : Starting bolt) : Type 0 where
    channels : t.channels_to_watch ≡ s.channels_to_watch
    points :
        (o : OutPoint)
        → contains o (map (λ r. r.chan_point) t.launched)
          ≡ contains o (map (λ r. r.chan_point) s.launched) || is_some (lookup o m)

  Launched-trans :
      (s t : Starting bolt) (o : OutPoint) (r : RetributionInfo) (m : Infos)
      → r.chan_point ≡ o
      → Launched (record s { launched = r ∷ s.launched }) m t
      → Launched s ((o, r) ∷ m) t
  unfolding lookup
  Launched-trans s t o r m k h = record {
    channels = h.channels;
    points = λ p. ground (arith, h.points p, ap (λ c. out_point_eqb c p) k);
  }

  launch_all-Launched :
      (m : Infos) (s : Starting bolt)
      → Keyed m
      → OnSuccess (λ a t. Launched s m t) (launch_all bolt codec daemon m s)
  unfolding launch_all lookup
  launch_all-Launched [] s k = record { channels = refl; points = λ o. ground arith }
  launch_all-Launched ((o, r) ∷ m) s k =
      let add = λ (t : Starting bolt). record t { launched = r ∷ t.launched } in
      let first = ask bolt codec daemon (daemon.register_confirmations_ntfn r) in
      bind-OnSuccess (λ a t. t ≡ add s) (λ a u. Launched s ((o, r) ∷ m) u) (first >> modify add)
        (λ _. launch_all bolt codec daemon m) s
        (bind-OnSuccess (λ a t. t ≡ s) (λ a t. t ≡ add s) first (λ _. modify add) s
          (ask-OnSuccess bolt codec daemon (λ a t. t ≡ s) (daemon.register_confirmations_ntfn r) s
            (λ a f. refl))
          (λ a t same. ap add same))
        (λ a t same.
          subst
            (λ u. OnSuccess (λ b v. Launched s ((o, r) ∷ m) v) (launch_all bolt codec daemon m u))
            (sym same)
            (OnSuccess-map (λ b u. Launched (add s) m u) (λ b u. Launched s ((o, r) ∷ m) u)
              (launch_all bolt codec daemon m (add s)) (λ b u h. Launched-trans s u o r m k.0 h)
              (launch_all-Launched m (add s) k.1)))

  -- Every active channel is either watched, or a breach of it is under retribution.
  abbrev pub IsPartition : List OutPoint → Starting bolt → Type 0
  IsPartition active t =
      (o : OutPoint)
      → contains o active ≡ true
      → contains o t.channels_to_watch ≡ not (contains o (map (λ r. r.chan_point) t.launched))

  partition :
      (active : List OutPoint) (s t u : Starting bolt)
      → Prepared bolt codec daemon s
      → Watched s active t
      → Launched t t.infos u
      → IsPartition active u
  partition active s t u p w l o a = ground (
    arith,
    w.channels o,
    l.points o,
    ap (λ m. is_some (lookup o m)) w.infos,
    ap (contains o) p.unwatched,
    ap (λ x. contains o (map (λ r. r.chan_point) x)) (w.launched ∙ p.unlaunched),
    ap (contains o) l.channels,
  )

  launch_infos-IsPartition :
      (active : List OutPoint) (s t : Starting bolt)
      → Prepared bolt codec daemon s
      → Watched s active t
      → OnSuccess (λ a u. IsPartition active u) (launch_infos bolt codec daemon t)
  unfolding launch_infos
  launch_infos-IsPartition active s t p w =
      OnSuccess-map (λ a u. Launched t t.infos u) (λ a u. IsPartition active u)
        (launch_all bolt codec daemon t.infos t) (λ a u l. partition active s t u p w l)
        (launch_all-Launched t.infos t (subst Keyed (sym w.infos) p.keyed))

  watch_active-IsPartition :
      (active : List OutPoint) (s : Starting bolt)
      → Prepared bolt codec daemon s
      → OnSuccess (λ a u. IsPartition active u) (watch_active bolt codec daemon active s)
  unfolding watch_active
  watch_active-IsPartition active s p =
      bind-OnSuccess (λ a t. Watched s active t) (λ a u. IsPartition active u)
        (subscribe bolt codec daemon active) (λ _. launch_infos bolt codec daemon) s
        (subscribe-Watched active s) (λ a t w. launch_infos-IsPartition active s t p w)

  reconcile_closed-IsPartition :
      (active : List OutPoint) (closed : List CloseSummary) (s : Starting bolt)
      → daemon.fetch_all_channels ≡ value active
      → Prepared bolt codec daemon s
      → OnSuccess (λ a u. IsPartition active u) (reconcile_closed bolt codec daemon closed s)
  unfolding reconcile_closed
  reconcile_closed-IsPartition active closed s e p =
      let fetch = ask bolt codec daemon daemon.fetch_all_channels in
      bind-OnSuccess (λ a t. Prepared bolt codec daemon t) (λ a u. IsPartition active u)
        (reconcile bolt codec daemon closed) (λ _. fetch >>= watch_active bolt codec daemon) s
        (reconcile-Prepared bolt codec daemon closed s p)
        (λ a t q.
          bind-OnSuccess (λ os u. (os ≡ active) × Prepared bolt codec daemon u)
            (λ b u. IsPartition active u) fetch (watch_active bolt codec daemon) t
            (ask-OnSuccess bolt codec daemon (λ os u. (os ≡ active) × Prepared bolt codec daemon u)
              daemon.fetch_all_channels t (λ os f. (value_injective (sym f ∙ e), q)))
            (λ os u h.
              subst
                (λ xs.
                  OnSuccess (λ b v. IsPartition active v) (watch_active bolt codec daemon xs u))
                (sym h.0) (watch_active-IsPartition active u h.1)))

  -- After a start that succeeds, with any database and any channels that are closed, an active channel
  -- is watched exactly if no retribution was launched for it, so that each is in one of the two cases.
  pub start_arbiter-IsPartition :
      (db : Db bolt) (active : List OutPoint)
      → daemon.fetch_all_channels ≡ value active
      → OnSuccess (λ a t. IsPartition active t) (start_arbiter bolt codec daemon db)
  unfolding start_arbiter start_steps
  start_arbiter-IsPartition db active e =
      let s : Starting bolt = record {
        db = db;
        infos = [];
        channels_to_watch = [];
        launched = [];
      } in
      let fetch = ask bolt codec daemon daemon.fetch_closed_channels in
      bind-OnSuccess (λ a t. Prepared bolt codec daemon t) (λ a u. IsPartition active u)
        (load bolt codec daemon) (λ _. fetch >>= reconcile_closed bolt codec daemon) s
        (load-Prepared bolt codec daemon s
          (record { keyed = tt; unwatched = refl; unlaunched = refl }))
        (λ a t p.
          bind-OnSuccess (λ closed u. Prepared bolt codec daemon u) (λ b u. IsPartition active u)
            fetch (reconcile_closed bolt codec daemon) t
            (ask-OnSuccess bolt codec daemon (λ closed u. Prepared bolt codec daemon u)
              daemon.fetch_closed_channels t (λ closed f. p))
            (λ closed u q. reconcile_closed-IsPartition active closed u e q))
