-- ===== src/Nursery/Incubator/Accepted.antt =====
-- Which broadcasts of `graduateClass` were accepted (lnd/utxonursery.go).
use lndmobile.Prelude.{
  ℕ, ◌≡◌, Option, none, some, List, [], ◌∷◌, All, true, refl, ap, sym, subst, Bool, false, ltb,
  if◌then◌else◌,
}
use lndmobile.Prelude.Assoc.{nat_eq, lookup}
use lndmobile.Prelude.Exec.{
  Result, ok, err, panic, Reply, value, failure, ◌>>=◌, ◌>>◌, bind_returned, err≢ok, pure,
}
use lndmobile.Wire.{Bytes, MsgTx}
use lndmobile.Bolt.{Bolt}
use lndmobile.Nursery.Output.{KidOutput, BabyOutput}
use lndmobile.Nursery.Store.{Error, Db}
use lndmobile.Nursery.Store.Transitions.{
  graduate_height, finalize_kinder, get_last_finalized_height,
}
use lndmobile.Nursery.Store.Queries.{fetch_class}
use lndmobile.Breach.Wallet.{Wallet}
use lndmobile.Nursery.Incubator.{
  Chain, Task, Nursery, Act, stored, answer, request, query, update, each, new_baby_var, baby_var,
  some_or_crash, go, publish_replied, publish, await,
}
use lndmobile.Nursery.Incubator.Classes.{
  publish_crib, await_timeout, register_timeout_conf, register_sweep_conf, sweep_mature_outputs,
  sweep_crib_output, sweep_own, sweep_crib_outputs, finalize_class, sweep_if_any, mark_graduated,
  sweep_class, graduate_fetched, graduate_class, new_sweep, persist_sweep,
}
use lndmobile.Nursery.Incubator.Finalized.{new_sweep-NewSweep}

module _ {World : Type 0} (bolt : Bolt) where
  -- Every broadcast so far was accepted.
  abbrev pub AllAccepted : Nursery World bolt → Type 0
  AllAccepted s = All (λ b. b.accepted ≡ true) s.published

  -- A method that returns without an error has only made broadcasts that were accepted.
  abbrev pub Accepts : {A : Type 0} → Act World bolt A → Type 0
  Accepts {A} m =
      (a : A) (s t : Nursery World bolt) → m s ≡ (ok a, t) → AllAccepted s → AllAccepted t

  -- A method that publishes nothing.
  silent-Accepts :
      {A : Type 0} (m : Act World bolt A)
      → ((s : Nursery World bolt) → (m s).1.published ≡ s.published)
      → Accepts m
  silent-Accepts m q a s t e h =
      subst (λ u. AllAccepted u) (ap (λ r. r.1) e)
        (subst (λ l. All (λ b. b.accepted ≡ true) l) (sym (q s)) h)

  bind-Accepts :
      {A B : Type 0} (m : Act World bolt A) (f : A → Act World bolt B)
      → Accepts m
      → ((a : A) → Accepts (f a))
      → Accepts (m >>= f)
  bind-Accepts m f p q b s t e h =
      let r = bind_returned m f s e in
      q r.result b r.after t r.rest (p r.result s r.after r.equation h)

  if-Accepts :
      {A : Type 0} (b : Bool) (m n : Act World bolt A)
      → Accepts m
      → Accepts n
      → Accepts (if b then m else n)
  if-Accepts true m n p q = p
  if-Accepts false m n p q = q

  answer_silent :
      {A : Type 0} (s : Nursery World bolt) (r : Reply A × World)
      → (answer bolt s r).1.published ≡ s.published
  answer_silent s (value a, w) = refl
  answer_silent s (failure e, w) = refl

  stored_silent :
      {A : Type 0} (s : Nursery World bolt) (r : Result Error A × Db bolt)
      → (stored bolt s r).1.published ≡ s.published
  stored_silent s (ok a, db) = refl
  stored_silent s (err e, db) = refl
  stored_silent s (panic, db) = refl

  crash_silent :
      {A : Type 0} (o : Option A) (s : Nursery World bolt)
      → (some_or_crash bolt o s).1.published ≡ s.published
  crash_silent none s = refl
  crash_silent (some a) s = refl

  each-Accepts :
      {A : Type 0} (f : A → Act World bolt (Unit {0})) (xs : List A)
      → ((x : A) → Accepts (f x))
      → Accepts (each bolt f xs)
  unfolding each
  each-Accepts f [] p = silent-Accepts (each bolt f []) (λ s. refl)
  each-Accepts f (x ∷ xs) p =
      bind-Accepts (f x) (λ _. each bolt f xs) (p x) (λ _. each-Accepts f xs p)

module _ {World : Type 0} (bolt : Bolt) (wallet : Wallet World) (chain : Chain World) where
  publish_replied-Accepted :
      (tx : MsgTx) (s t : Nursery World bolt) (r : Reply (Unit {0}) × World)
      → publish_replied bolt tx s r ≡ (ok tt, t)
      → AllAccepted bolt s
      → AllAccepted bolt t
  publish_replied-Accepted tx s t (value _, w) e h =
      subst (λ u. AllAccepted bolt u) (ap (λ x. x.1) e) (refl, h)
  publish_replied-Accepted tx s t (failure x, w) e h = absurd (err≢ok (ap (λ y. y.0) e))

  publish-Accepts : (tx : MsgTx) → Accepts bolt (publish bolt chain tx)
  unfolding publish
  publish-Accepts tx a s t e h =
      publish_replied-Accepted tx s t (chain.publish_transaction tx s.world) e h

  await-Accepts :
      (txid : Bytes) (hint : ℕ) (task : Task) → Accepts bolt (await bolt chain txid hint task)
  await-Accepts txid hint task =
      let ask = chain.register_confirmations_ntfn txid chain.conf_depth hint in
      bind-Accepts bolt (request bolt ask) (λ _. go bolt task)
        (silent-Accepts bolt (request bolt ask) (λ s. answer_silent bolt s (ask s.world)))
        (λ _. silent-Accepts bolt (go bolt task) (λ s. refl))

  baby_var-Accepts : (v : ℕ) → Accepts bolt (baby_var {World = World} bolt v)
  baby_var-Accepts v =
      silent-Accepts bolt (baby_var bolt v) (λ s. crash_silent bolt (lookup v s.baby_vars) s)

  register_timeout_conf-Accepts :
      (v hint : ℕ) → Accepts bolt (register_timeout_conf bolt wallet chain v hint)
  unfolding register_timeout_conf
  register_timeout_conf-Accepts v hint =
      bind-Accepts bolt (baby_var bolt v) (await_timeout bolt wallet chain v hint)
        (baby_var-Accepts v) (λ b. await-Accepts (wallet.tx_hash b.timeout_tx) hint _)

  sweep_crib_output-Accepts : (h v : ℕ) → Accepts bolt (sweep_crib_output bolt wallet chain h v)
  unfolding sweep_crib_output
  sweep_crib_output-Accepts h v =
      bind-Accepts bolt (baby_var bolt v) (publish_crib bolt wallet chain h v) (baby_var-Accepts v)
        (λ b.
          bind-Accepts bolt (publish bolt chain b.timeout_tx)
            (λ _. register_timeout_conf bolt wallet chain v h) (publish-Accepts b.timeout_tx)
            (λ _. register_timeout_conf-Accepts v h))

  sweep_crib_outputs-Accepts :
      (h : ℕ) (bs : List BabyOutput) → Accepts bolt (sweep_crib_outputs bolt wallet chain h bs)
  unfolding sweep_crib_outputs
  sweep_crib_outputs-Accepts h bs = each-Accepts bolt (sweep_own bolt wallet chain h) bs (λ b.
      bind-Accepts bolt (new_baby_var bolt b) (sweep_crib_output bolt wallet chain h)
        (silent-Accepts bolt (new_baby_var bolt b) (λ s. refl))
        (λ v. sweep_crib_output-Accepts h v))

  sweep_if_any-Accepts :
      (h : ℕ) (os : List KidOutput) (o : Option MsgTx)
      → Accepts bolt (sweep_if_any bolt wallet chain h os o)
  unfolding sweep_if_any sweep_mature_outputs register_sweep_conf
  sweep_if_any-Accepts h os none =
      silent-Accepts bolt (sweep_if_any bolt wallet chain h os none) (λ s. refl)
  sweep_if_any-Accepts h os (some tx) =
      bind-Accepts bolt (publish bolt chain tx) (λ _. register_sweep_conf bolt wallet chain tx os h)
        (publish-Accepts tx) (λ _. await-Accepts (wallet.tx_hash tx) h _)

  update-Accepts :
      (m : Db bolt → Result Error (Unit {0}) × Db bolt)
      → Accepts bolt (update {World = World} bolt m)
  update-Accepts m = silent-Accepts bolt (update bolt m) (λ s. stored_silent bolt s (m s.db))

  new_sweep-Accepts :
      (h : ℕ) (final : Option MsgTx) (os : List KidOutput)
      → Accepts bolt (new_sweep bolt wallet chain h final os)
  new_sweep-Accepts h final os =
      silent-Accepts bolt (new_sweep bolt wallet chain h final os)
        (λ s. (new_sweep-NewSweep bolt wallet chain h final os s).same_published)

  persist_sweep-Accepts :
      (h : ℕ) (tx : Option MsgTx) → Accepts bolt (persist_sweep bolt wallet chain h tx)
  persist_sweep-Accepts h tx =
      bind-Accepts bolt (update bolt (finalize_kinder bolt h tx)) (λ _ s. (ok tx, s))
        (update-Accepts (finalize_kinder bolt h tx))
        (λ _. silent-Accepts bolt (λ s. (ok tx, s)) (λ s. refl))

  finalize_class-Accepts :
      (h : ℕ) (final : Option MsgTx) (os : List KidOutput) (last : ℕ)
      → Accepts bolt (finalize_class bolt wallet chain h final os last)
  unfolding finalize_class
  finalize_class-Accepts h final os last =
      if-Accepts bolt (ltb last h)
        (new_sweep bolt wallet chain h final os >>= persist_sweep bolt wallet chain h) (pure final)
        (bind-Accepts bolt (new_sweep bolt wallet chain h final os)
          (persist_sweep bolt wallet chain h) (new_sweep-Accepts h final os)
          (persist_sweep-Accepts h))
        (silent-Accepts bolt (pure final) (λ s. refl))

  sweep_class-Accepts :
      (h : ℕ) (kids : List KidOutput) (cribs : List BabyOutput) (o : Option MsgTx)
      → Accepts bolt (sweep_class bolt wallet chain h kids cribs o)
  sweep_class-Accepts h kids cribs o =
      bind-Accepts bolt (sweep_if_any bolt wallet chain h kids o)
        (λ _. sweep_crib_outputs bolt wallet chain h cribs >> mark_graduated bolt wallet chain h)
        (sweep_if_any-Accepts h kids o)
        (λ _.
          bind-Accepts bolt (sweep_crib_outputs bolt wallet chain h cribs)
            (λ _. mark_graduated bolt wallet chain h) (sweep_crib_outputs-Accepts h cribs)
            (λ _. update-Accepts (graduate_height bolt h)))

  graduate_fetched-Accepts :
      (h : ℕ) (c : Option MsgTx × List KidOutput × List BabyOutput)
      → Accepts bolt (graduate_fetched bolt wallet chain h c)
  unfolding graduate_fetched
  graduate_fetched-Accepts h (final, kids, cribs) a s =
      let last = get_last_finalized_height bolt s.db in
      bind-Accepts bolt (finalize_class bolt wallet chain h final kids last)
        (sweep_class bolt wallet chain h kids cribs) (finalize_class-Accepts h final kids last)
        (sweep_class-Accepts h kids cribs) a s

  pub graduate_class-Accepts : (h : ℕ) → Accepts bolt (graduate_class bolt wallet chain h)
  unfolding graduate_class
  graduate_class-Accepts h a s =
      let s0 : Nursery World bolt = record s { best_height = h } in
      bind-Accepts bolt (query bolt (fetch_class bolt h)) (graduate_fetched bolt wallet chain h)
        (silent-Accepts bolt (query bolt (fetch_class bolt h))
          (λ s. stored_silent bolt s (fetch_class bolt h s.db, s.db)))
        (graduate_fetched-Accepts h) a s0
