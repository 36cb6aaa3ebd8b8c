-- ===== src/Nursery/Incubator/Effects.antt =====
-- What the nursery's calls do to the store and to the transactions that were published
-- (lnd/utxonursery.go).
use lndmobile.Prelude.{
  ℕ, ◌≡◌, ◌⊎◌, inl, inr, Option, none, some, List, [], ◌∷◌, ◌++◌, All, true, false, arith, refl, ap,
  sym, ◌∙◌, subst, ==_iff,
}
use mathlib.Core.List.{append_assoc}
use lndmobile.Prelude.Assoc.{nat_eq, lookup, lookup-insert}
use lndmobile.Prelude.Exec.{Reply, value, failure, ok, ◌>>=◌, after_bind, follow}
use lndmobile.Wire.{Bytes, MsgTx}
use lndmobile.Bolt.{Bolt}
use lndmobile.Nursery.Output.{KidOutput, BabyOutput}
use lndmobile.Breach.Wallet.{Wallet}
use lndmobile.Nursery.Incubator.{
  Chain, Task, sweep_conf, timeout_conf, Nursery, Act, request, answer, each, new_baby_var,
  baby_var, some_or_crash, go, Broadcast, publish_replied, publish, await,
}
use lndmobile.Nursery.Incubator.Classes.{
  await_timeout, publish_crib, sweep_own, register_timeout_conf, sweep_crib_output,
  sweep_crib_outputs, register_sweep_conf, sweep_mature_outputs, sweep_if_any,
}

All-append : {A : Type 0} (P : A → Type 0) (xs ys : List A) → All P xs → All P ys → All P (xs ++ ys)
All-append P [] ys a b = b
All-append P (x ∷ xs) ys a b = (a.0, All-append P xs ys a.1 b)

pub All-map :
    {A : Type 0} (P R : A → Type 0) (xs : List A) → ((x : A) → P x → R x) → All P xs → All R xs
All-map P R [] f a = tt
All-map P R (x ∷ xs) f a = (f x a.0, All-map P R xs f a.1)

-- The transaction of one of some crib outputs.
abbrev pub IsTimeoutOf : List BabyOutput → MsgTx → Type 0
IsTimeoutOf [] tx = ⊥
IsTimeoutOf (b ∷ bs) tx = (b.timeout_tx ≡ tx) ⊎ IsTimeoutOf bs tx

module _ {World : Type 0} (bolt : Bolt) where
  -- The store stays as it is, and only transactions of a kind are published.
  pub record Publishes (Q : MsgTx → Type 0) (s t : Nursery World bolt) : Type 0 where
    pub same_db : t.db ≡ s.db
    pub new : List (Broadcast bolt)
    pub adds : t.published ≡ new ++ s.published
    pub all_new : All (λ b. Q b.tx × (b.store ≡ s.db)) new

  pub nothing : {Q : MsgTx → Type 0} (s : Nursery World bolt) → Publishes Q s s
  nothing s = record { same_db = refl; new = []; adds = refl; all_new = tt }

  pub then_too :
      {Q : MsgTx → Type 0} {s t u : Nursery World bolt}
      → Publishes Q s t
      → Publishes Q t u
      → Publishes Q s u
  then_too {Q} {s} p q = record {
    same_db = q.same_db ∙ p.same_db;
    new = q.new ++ p.new;
    adds = q.adds ∙ ap (λ l. q.new ++ l) p.adds ∙ sym (append_assoc q.new p.new s.published);
    all_new =
        All-append _ q.new p.new (All-map _ _ q.new (λ b i. (i.0, i.1 ∙ p.same_db)) q.all_new)
          p.all_new;
  }

  pub bind-Publishes :
      {A B : Type 0} (Q : MsgTx → Type 0) (m : Act World bolt A) (f : A → Act World bolt B)
      (s : Nursery World bolt)
      → Publishes Q s (m s).1
      → ((a : A) (t : Nursery World bolt) → m s ≡ (ok a, t) → Publishes Q t (f a t).1)
      → Publishes Q s ((m >>= f) s).1
  bind-Publishes Q m f s p k =
      after_bind (Publishes Q s) m f s p
        (λ a t e. then_too (subst (λ r. Publishes Q s r.1) e p) (k a t e))

  pub answer-Publishes :
      {A : Type 0} (Q : MsgTx → Type 0) (s : Nursery World bolt) (r : Reply A × World)
      → Publishes Q s (answer bolt s r).1
  answer-Publishes Q s (value a, w) = record { same_db = refl; new = []; adds = refl; all_new = tt }
  answer-Publishes Q s (failure e, w) = record {
    same_db = refl;
    new = [];
    adds = refl;
    all_new = tt;
  }

  some_or_crash-Publishes :
      {A : Type 0} (Q : MsgTx → Type 0) (o : Option A) (s : Nursery World bolt)
      → Publishes Q s (some_or_crash bolt o s).1
  some_or_crash-Publishes Q none s = nothing s
  some_or_crash-Publishes Q (some a) s = nothing s

module _ {World : Type 0} (bolt : Bolt) (wallet : Wallet World) (chain : Chain World) where
  publish_replied-Publishes :
      (Q : MsgTx → Type 0) (tx : MsgTx) (s : Nursery World bolt) (r : Reply (Unit {0}) × World)
      → Q tx
      → Publishes bolt Q s (publish_replied bolt tx s r).1
  publish_replied-Publishes Q tx s (value _, w) q = record {
    same_db = refl;
    new = record { tx = tx; store = s.db; accepted = true } ∷ [];
    adds = refl;
    all_new = ((q, refl), tt);
  }
  publish_replied-Publishes Q tx s (failure e, w) q = record {
    same_db = refl;
    new = record { tx = tx; store = s.db; accepted = false } ∷ [];
    adds = refl;
    all_new = ((q, refl), tt);
  }

  publish-Publishes :
      (Q : MsgTx → Type 0) (tx : MsgTx) (s : Nursery World bolt)
      → Q tx
      → Publishes bolt Q s (publish bolt chain tx s).1
  unfolding publish
  publish-Publishes Q tx s q =
      publish_replied-Publishes Q tx s (chain.publish_transaction tx s.world) q

  await-Publishes :
      (Q : MsgTx → Type 0) (txid : Bytes) (hint : ℕ) (task : Task) (s : Nursery World bolt)
      → Publishes bolt Q s (await bolt chain txid hint task s).1
  await-Publishes Q txid hint task s =
      let ask = chain.register_confirmations_ntfn txid chain.conf_depth hint in
      bind-Publishes bolt Q (request bolt ask) (λ _. go bolt task) s
        (answer-Publishes bolt Q s (ask s.world))
        (λ _ u _. record { same_db = refl; new = []; adds = refl; all_new = tt })

  register_timeout_conf-Publishes :
      (Q : MsgTx → Type 0) (var hint : ℕ) (s : Nursery World bolt)
      → Publishes bolt Q s (register_timeout_conf bolt wallet chain var hint s).1
  unfolding register_timeout_conf
  register_timeout_conf-Publishes Q var hint s =
      bind-Publishes bolt Q (baby_var bolt var) (await_timeout bolt wallet chain var hint) s
        (some_or_crash-Publishes bolt Q (lookup var s.baby_vars) s)
        (λ b t _. await-Publishes Q (wallet.tx_hash b.timeout_tx) hint (timeout_conf var) t)

  publish_crib-Publishes :
      (Q : MsgTx → Type 0) (h var : ℕ) (b : BabyOutput) (s : Nursery World bolt)
      → Q b.timeout_tx
      → Publishes bolt Q s (publish_crib bolt wallet chain h var b s).1
  publish_crib-Publishes Q h var b s q =
      bind-Publishes bolt Q (publish bolt chain b.timeout_tx)
        (λ _. register_timeout_conf bolt wallet chain var h) s
        (publish-Publishes Q b.timeout_tx s q) (λ _ t _. register_timeout_conf-Publishes Q var h t)

  pub sweep_crib_output-Publishes :
      (Q : MsgTx → Type 0) (h var : ℕ) (b : BabyOutput) (s : Nursery World bolt)
      → lookup var s.baby_vars ≡ some b
      → Q b.timeout_tx
      → Publishes bolt Q s (sweep_crib_output bolt wallet chain h var s).1
  unfolding sweep_crib_output
  sweep_crib_output-Publishes Q h var b s e q =
      subst
        (λ o.
          Publishes bolt Q s
            (follow (publish_crib bolt wallet chain h var) (some_or_crash bolt o s)).1)
        (sym e) (publish_crib-Publishes Q h var b s q)

  sweep_own-Publishes :
      (Q : MsgTx → Type 0) (h : ℕ) (b : BabyOutput) (s : Nursery World bolt)
      → Q b.timeout_tx
      → Publishes bolt Q s (sweep_own bolt wallet chain h b s).1
  sweep_own-Publishes Q h b s q =
      let t : Nursery World bolt = (new_baby_var bolt b s).1 in
      then_too bolt {s = s} {t = t} (record { same_db = refl; new = []; adds = refl; all_new = tt })
        (sweep_crib_output-Publishes Q h s.next_var b t
          (lookup-insert s.next_var s.next_var b s.baby_vars
            ∙ ground (arith, ==_iff s.next_var s.next_var))
          q)

  pub sweep_crib_outputs-Publishes :
      (Q : MsgTx → Type 0) (h : ℕ) (bs : List BabyOutput) (s : Nursery World bolt)
      → ((tx : MsgTx) → IsTimeoutOf bs tx → Q tx)
      → Publishes bolt Q s (sweep_crib_outputs bolt wallet chain h bs s).1
  unfolding sweep_crib_outputs each
  sweep_crib_outputs-Publishes Q h [] s q = nothing bolt s
  sweep_crib_outputs-Publishes Q h (b ∷ bs) s q =
      bind-Publishes bolt Q (sweep_own bolt wallet chain h b)
        (λ _. each bolt (sweep_own bolt wallet chain h) bs) s
        (sweep_own-Publishes Q h b s (q b.timeout_tx (inl refl)))
        (λ _ t _. sweep_crib_outputs-Publishes Q h bs t (λ tx i. q tx (inr i)))

  pub sweep_if_any-Publishes :
      (Q : MsgTx → Type 0) (h : ℕ) (os : List KidOutput) (o : Option MsgTx) (s : Nursery World bolt)
      → ((tx : MsgTx) → o ≡ some tx → Q tx)
      → Publishes bolt Q s (sweep_if_any bolt wallet chain h os o s).1
  unfolding sweep_if_any sweep_mature_outputs register_sweep_conf
  sweep_if_any-Publishes Q h os none s q = nothing bolt s
  sweep_if_any-Publishes Q h os (some tx) s q =
      bind-Publishes bolt Q (publish bolt chain tx)
        (λ _. register_sweep_conf bolt wallet chain tx os h) s
        (publish-Publishes Q tx s (q tx refl))
        (λ _ t _. await-Publishes Q (wallet.tx_hash tx) h (sweep_conf h os) t)
