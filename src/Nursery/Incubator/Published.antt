-- ===== src/Nursery/Incubator/Published.antt =====
-- What `graduateClass` publishes, and which height it records (lnd/utxonursery.go).
use lndmobile.Prelude.{
  ℕ, ◌≡◌, ◌≢◌, ◌⊎◌, inl, inr, Option, some, List, ◌++◌, All, refl, ap, sym, ◌∙◌, subst,
}
use lndmobile.Prelude.Assoc.{nat_eq}
use lndmobile.Prelude.Exec.{
  Result, ok, err, panic, follow, ◌>>=◌, ◌>>◌, ending, returns, fails, panics,
}
use lndmobile.Wire.{MsgTx}
use lndmobile.Bolt.{Bolt}
use lndmobile.Nursery.Output.{KidOutput, BabyOutput}
use lndmobile.Nursery.Store.{Db}
use lndmobile.Nursery.Store.Buckets.{get_height_bucket}
use lndmobile.Nursery.Store.Transitions.{graduate_height, get_last_finalized_height}
use lndmobile.Nursery.Store.Queries.{get_finalized_txn, fetch_class}
use lndmobile.Breach.Wallet.{Wallet}
use lndmobile.Nursery.Incubator.{Chain, Fault, Broadcast, Nursery, Act, stored}
use lndmobile.Nursery.Incubator.Classes.{
  finalize_class, sweep_if_any, sweep_crib_outputs, mark_graduated, sweep_class, graduate_fetched,
  graduate_class,
}
use lndmobile.Nursery.Incubator.Effects.{
  All-map, Publishes, nothing, then_too, IsTimeoutOf, sweep_crib_outputs-Publishes,
  sweep_if_any-Publishes,
}
use lndmobile.Nursery.Incubator.Accepted.{AllAccepted, graduate_class-Accepts}
use lndmobile.Nursery.Incubator.Finalized.{
  fetch_class-finalized, fetch_class-bucket, finalize_class-Finalizes,
}

module _ {World : Type 0} (bolt : Bolt) (wallet : Wallet World) (chain : Chain World) where
  -- The sweep transaction that a store has for a height, or one of the crib outputs.
  abbrev pub IsStored : ℕ → List BabyOutput → Db bolt → MsgTx → Type 0
  IsStored h cribs db tx = (get_finalized_txn bolt h db ≡ some tx) ⊎ IsTimeoutOf cribs tx

  -- How a class is done with: what is published, and the height that is recorded.
  pub record Graduates (h : ℕ) (cribs : List BabyOutput) (s : Nursery World bolt)
      (r : Result Fault (Unit {0}) × Nursery World bolt) : Type 0 where
    pub new : List (Broadcast bolt)
    pub adds : r.1.published ≡ new ++ s.published
    pub all_stored : All (λ b. IsStored h cribs b.store b.tx) new
    pub height :
        ((r.0 ≡ ok tt) × (r.1.db.last_graduated_height ≡ some h))
        ⊎ ((r.0 ≢ ok tt) × (r.1.db.last_graduated_height ≡ s.db.last_graduated_height))

  at_broadcast :
      (h : ℕ) (cribs : List BabyOutput) (db : Db bolt) (bs : List (Broadcast bolt))
      → All (λ b. IsStored h cribs db b.tx × (b.store ≡ db)) bs
      → All (λ b. IsStored h cribs b.store b.tx) bs
  at_broadcast h cribs db bs =
      All-map _ _ bs (λ b i. subst (λ d. IsStored h cribs d b.tx) (sym i.1) i.0)

  -- The same for the steps from a state in which the class is finalized.
  stopped :
      (h : ℕ) (cribs : List BabyOutput) (s u : Nursery World bolt) (r : Result Fault (Unit {0}))
      → Publishes bolt (IsStored h cribs s.db) s u
      → r ≢ ok tt
      → Graduates h cribs s (r, u)
  stopped h cribs s u r p n = record {
    new = p.new;
    adds = p.adds;
    all_stored = at_broadcast h cribs s.db p.new p.all_new;
    height = inr (n, ap (λ db. db.last_graduated_height) p.same_db);
  }

  bind-Graduates :
      {A : Type 0} (h : ℕ) (cribs : List BabyOutput) (s u : Nursery World bolt)
      (m : Act World bolt A) (f : A → Act World bolt (Unit {0}))
      → Publishes bolt (IsStored h cribs s.db) s u
      → Publishes bolt (IsStored h cribs s.db) u (m u).1
      → ((a : A) (v : Nursery World bolt)
          → Publishes bolt (IsStored h cribs s.db) s v
          → Graduates h cribs s (f a v))
      → Graduates h cribs s ((m >>= f) u)
  bind-Graduates h cribs s u m f p q k =
      let Q = IsStored h cribs s.db in
      elim (ending (m u)) [
        | returns a v e ↦
            subst (λ r. Graduates h cribs s (follow f r)) (sym e)
              (k a v (then_too bolt p (subst (λ r. Publishes bolt Q u r.1) e q)))
        | fails x v e ↦
            subst (λ r. Graduates h cribs s (follow f r)) (sym e)
              (stopped h cribs s v (err x)
                (then_too bolt p (subst (λ r. Publishes bolt Q u r.1) e q)) (λ z. cc))
        | panics v e ↦
            subst (λ r. Graduates h cribs s (follow f r)) (sym e)
              (stopped h cribs s v panic (then_too bolt p (subst (λ r. Publishes bolt Q u r.1) e q))
                (λ z. cc))
      ]

  mark-Graduates :
      (h : ℕ) (cribs : List BabyOutput) (s v : Nursery World bolt)
      → Publishes bolt (IsStored h cribs s.db) s v
      → Graduates h cribs s (mark_graduated bolt wallet chain h v)
  unfolding graduate_height get_finalized_txn get_height_bucket
  mark-Graduates h cribs s v p = record {
    new = p.new;
    adds = p.adds;
    all_stored = at_broadcast h cribs s.db p.new p.all_new;
    height = inl (refl, refl);
  }

  sweep_class-Graduates :
      (h : ℕ) (kids : List KidOutput) (cribs : List BabyOutput) (o : Option MsgTx)
      (s : Nursery World bolt)
      → ((x : MsgTx) → o ≡ some x → get_finalized_txn bolt h s.db ≡ some x)
      → Graduates h cribs s (sweep_class bolt wallet chain h kids cribs o s)
  sweep_class-Graduates h kids cribs o s k =
      let Q = IsStored h cribs s.db in
      bind-Graduates h cribs s s (sweep_if_any bolt wallet chain h kids o)
        (λ _. sweep_crib_outputs bolt wallet chain h cribs >> mark_graduated bolt wallet chain h)
        (nothing bolt s)
        (sweep_if_any-Publishes bolt wallet chain Q h kids o s (λ x e. inl (k x e)))
        (λ _ u p.
          bind-Graduates h cribs s u (sweep_crib_outputs bolt wallet chain h cribs)
            (λ _. mark_graduated bolt wallet chain h) p
            (sweep_crib_outputs-Publishes bolt wallet chain Q h cribs u (λ x i. inr i))
            (λ _ v q. mark-Graduates h cribs s v q))

  moved-Graduates :
      (h : ℕ) (cribs : List BabyOutput) (s t : Nursery World bolt)
      (r : Result Fault (Unit {0}) × Nursery World bolt)
      → t.published ≡ s.published
      → t.db.last_graduated_height ≡ s.db.last_graduated_height
      → Graduates h cribs t r
      → Graduates h cribs s r
  moved-Graduates h cribs s t r p d g = record {
    new = g.new;
    adds = g.adds ∙ ap (λ l. g.new ++ l) p;
    all_stored = g.all_stored;
    height = elim g.height [ inl x ↦ inl x | inr x ↦ inr (x.0, x.1 ∙ d) ];
  }

  graduate_fetched-Graduates :
      (h : ℕ) (final : Option MsgTx) (kids : List KidOutput) (cribs : List BabyOutput)
      (s : Nursery World bolt)
      → fetch_class bolt h s.db ≡ ok (final, kids, cribs)
      → Graduates h cribs s (graduate_fetched bolt wallet chain h (final, kids, cribs) s)
  unfolding graduate_fetched
  graduate_fetched-Graduates h final kids cribs s e =
      let last = get_last_finalized_height bolt s.db in
      let m = finalize_class bolt wallet chain h final kids last in
      let f = sweep_class bolt wallet chain h kids cribs in
      let z = finalize_class-Finalizes bolt wallet chain h final kids last s (
        fetch_class-finalized bolt h s.db final kids cribs e,
        fetch_class-bucket bolt h s.db final kids cribs e,
      ) in
      elim (ending (m s)) [
        | returns tx t i ↦
            subst (λ r. Graduates h cribs s (follow f r)) (sym i)
              (moved-Graduates h cribs s t (f tx t)
                (ap (λ r. r.1.published) (sym i) ∙ z.same_published)
                (ap (λ r. r.1.db.last_graduated_height) (sym i) ∙ z.same_graduated)
                (sweep_class-Graduates h kids cribs tx t (λ x. z.persisted tx t x i)))
        | fails x t i ↦
            subst (λ r. Graduates h cribs s (follow f r)) (sym i)
              (moved-Graduates h cribs s t (err x, t)
                (ap (λ r. r.1.published) (sym i) ∙ z.same_published)
                (ap (λ r. r.1.db.last_graduated_height) (sym i) ∙ z.same_graduated)
                (stopped h cribs t t (err x) (nothing bolt t) (λ y. cc)))
        | panics t i ↦
            subst (λ r. Graduates h cribs s (follow f r)) (sym i)
              (moved-Graduates h cribs s t (panic, t)
                (ap (λ r. r.1.published) (sym i) ∙ z.same_published)
                (ap (λ r. r.1.db.last_graduated_height) (sym i) ∙ z.same_graduated)
                (stopped h cribs t t panic (nothing bolt t) (λ y. cc)))
      ]

  graduate_class-recorded :
      (h : ℕ) (final : Option MsgTx) (kids : List KidOutput) (cribs : List BabyOutput)
      (s : Nursery World bolt)
      → fetch_class bolt h s.db ≡ ok (final, kids, cribs)
      → Graduates h cribs s (graduate_class bolt wallet chain h s)
  unfolding graduate_class
  graduate_class-recorded h final kids cribs s e =
      let s0 : Nursery World bolt = record s { best_height = h } in
      subst
        (λ x.
          Graduates h cribs s
            (follow (graduate_fetched bolt wallet chain h) (stored bolt s0 (x, s0.db))))
        (sym e)
        (moved-Graduates h cribs s s0 (graduate_fetched bolt wallet chain h (final, kids, cribs) s0)
          refl refl (graduate_fetched-Graduates h final kids cribs s0 e))

  -- Whatever comes of the calls of other packages, every transaction that `graduateClass` publishes
  -- for a height, whose class is read from the store without an error, is at the time of the broadcast
  -- the sweep transaction that the store has for the height, or is the timeout transaction of a crib
  -- output of the class. The height becomes the last graduated one if `graduateClass` returns without
  -- an error, and otherwise the last graduated height stays as it is. If it returns without an error,
  -- every broadcast was accepted, as far as those before it were.
  pub graduate_class-Graduates :
      (h : ℕ) (final : Option MsgTx) (kids : List KidOutput) (cribs : List BabyOutput)
      (s : Nursery World bolt)
      → fetch_class bolt h s.db ≡ ok (final, kids, cribs)
      → Graduates h cribs s (graduate_class bolt wallet chain h s)
        × ((graduate_class bolt wallet chain h s).0 ≡ ok tt
            → AllAccepted bolt s
            → AllAccepted bolt (graduate_class bolt wallet chain h s).1)
  graduate_class-Graduates h final kids cribs s e = (
    graduate_class-recorded h final kids cribs s e,
    λ i a.
        let r = graduate_class bolt wallet chain h s in
        graduate_class-Accepts bolt wallet chain h tt s r.1 (ap (λ x. (x, r.1)) i) a,
  )
