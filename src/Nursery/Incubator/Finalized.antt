-- ===== src/Nursery/Incubator/Finalized.antt =====
-- How `graduateClass` comes by the sweep transaction of a height (lnd/utxonursery.go).
use lndmobile.Prelude.{
  ℕ, ◌≡◌, ◌≢◌, ◌⊎◌, inl, inr, Option, none, some, List, [], ◌∷◌, arith, refl, ap, sym, ◌∙◌, subst,
  ltb, Bool-cases, if◌then◌else◌,
}
use lndmobile.Prelude.Assoc.{nat_eq}
use lndmobile.Prelude.Exec.{
  Result, ok, err, panic, pure, follow, ◌>>=◌, ending, returns, fails, panics,
}
use lndmobile.Wire.{MsgTx}
use lndmobile.Bolt.{Bolt}
use lndmobile.Nursery.Output.{KidOutput, BabyOutput}
use lndmobile.Nursery.Store.{Error, Db}
use lndmobile.Nursery.Store.Buckets.{get_height_bucket}
use lndmobile.Nursery.Store.Transitions.{finalize_kinder}
use lndmobile.Nursery.Store.Queries.{get_finalized_txn, fetch_class, collect_height_prefix}
use lndmobile.Nursery.Store.Maturity.{finalize_kinder_effect}
use lndmobile.Nursery.Sweep.{create_sweep_tx}
use lndmobile.Breach.Wallet.{Wallet, Txn}
use lndmobile.Nursery.Incubator.{Chain, Fault, Nursery, stored}
use lndmobile.Nursery.Incubator.Classes.{sweep_txn, new_sweep, persist_sweep, finalize_class}

module _ (bolt : Bolt) where
  -- What is fetched at a height is stored there.
  pub fetch_class-finalized :
      (h : ℕ) (db : Db bolt) (f : Option MsgTx) (kids : List KidOutput) (babies : List BabyOutput)
      → fetch_class bolt h db ≡ ok (f, kids, babies)
      → f ≡ get_finalized_txn bolt h db
  unfolding fetch_class
  fetch_class-finalized h db f kids babies e = ground arith

  pub fetch_class-bucket :
      (h : ℕ) (db : Db bolt) (f : Option MsgTx) (kids : List KidOutput) (babies : List BabyOutput)
      → fetch_class bolt h db ≡ ok (f, kids, babies)
      → get_height_bucket bolt h db ≡ none
      → kids ≡ []
  unfolding fetch_class collect_height_prefix
  fetch_class-bucket h db f kids babies e b = ground arith

  get_finalized-bucket :
      (h : ℕ) (db : Db bolt) (x : MsgTx)
      → get_finalized_txn bolt h db ≡ some x
      → get_height_bucket bolt h db ≢ none
  unfolding get_finalized_txn
  get_finalized-bucket h db x e b = ground arith

  finalize_kinder-read :
      (h : ℕ) (x : MsgTx) (db : Db bolt)
      → get_height_bucket bolt h db ≢ none
      → get_finalized_txn bolt h (finalize_kinder bolt h (some x) db).1 ≡ some x
  finalize_kinder-read h x db b = (finalize_kinder_effect bolt h (some x) db).2 h ∙ ground arith

  finalize_kinder-graduated :
      (h : ℕ) (tx : Option MsgTx) (db : Db bolt)
      → (finalize_kinder bolt h tx db).1.last_graduated_height ≡ db.last_graduated_height
  unfolding finalize_kinder
  finalize_kinder-graduated h none db = refl
  finalize_kinder-graduated h (some tx) db = ground arith

module _ {World : Type 0} (bolt : Bolt) (wallet : Wallet World) (chain : Chain World) where
  -- What the new sweep transaction of a height leaves as it is, and when there is one.
  pub record NewSweep (final : Option MsgTx) (kids : List KidOutput) (s : Nursery World bolt)
      (r : Result Fault (Option MsgTx) × Nursery World bolt) : Type 0 where
    same_db : r.1.db ≡ s.db
    pub same_published : r.1.published ≡ s.published
    made :
        (tx : Option MsgTx) (t : Nursery World bolt) → r ≡ (ok tx, t) → (tx ≡ final) ⊎ (kids ≢ [])

  sweep_txn-NewSweep :
      (final : Option MsgTx) (o : KidOutput) (os : List KidOutput) (s : Nursery World bolt)
      (r : Result ℕ Txn × World)
      → NewSweep final (o ∷ os) s (sweep_txn bolt wallet chain r s)
  sweep_txn-NewSweep final o os s (ok txn, w) = record {
    same_db = refl;
    same_published = refl;
    made = λ tx t e. inr (λ k. cc);
  }
  sweep_txn-NewSweep final o os s (err e, w) = record {
    same_db = refl;
    same_published = refl;
    made = λ tx t e. inr (λ k. cc);
  }
  sweep_txn-NewSweep final o os s (panic, w) = record {
    same_db = refl;
    same_published = refl;
    made = λ tx t e. inr (λ k. cc);
  }

  pub new_sweep-NewSweep :
      (h : ℕ) (final : Option MsgTx) (kids : List KidOutput) (s : Nursery World bolt)
      → NewSweep final kids s (new_sweep bolt wallet chain h final kids s)
  unfolding new_sweep
  new_sweep-NewSweep h final [] s = record {
    same_db = refl;
    same_published = refl;
    made = λ tx t e. inl cc;
  }
  new_sweep-NewSweep h final (o ∷ os) s =
      sweep_txn-NewSweep final o os s (create_sweep_tx wallet (o ∷ os) h s.world)

  -- `FinalizeKinder` does not fail.
  stored_ok :
      (s : Nursery World bolt) (r : Result Error (Unit {0}) × Db bolt)
      → r.0 ≡ ok tt
      → stored bolt s r ≡ (ok tt, record s { db = r.1 })
  stored_ok s r e = ap (λ x. stored bolt s (x, r.1)) e

  persist_sweep-eq :
      (h : ℕ) (tx : Option MsgTx) (s : Nursery World bolt)
      → persist_sweep bolt wallet chain h tx s
        ≡ (ok tx, record s { db = (finalize_kinder bolt h tx s.db).1 })
  persist_sweep-eq h tx s =
      ap (follow (λ _. pure tx))
        (stored_ok s (finalize_kinder bolt h tx s.db) (finalize_kinder_effect bolt h tx s.db).0)

  -- What is finalized is stored, and nothing is published before.
  pub record Finalizes (h : ℕ) (s : Nursery World bolt)
      (r : Result Fault (Option MsgTx) × Nursery World bolt) : Type 0 where
    pub same_graduated : r.1.db.last_graduated_height ≡ s.db.last_graduated_height
    pub same_published : r.1.published ≡ s.published
    pub persisted :
        (tx : Option MsgTx) (t : Nursery World bolt) (x : MsgTx)
        → r ≡ (ok tx, t)
        → tx ≡ some x
        → get_finalized_txn bolt h t.db ≡ some x

  ok_injective : {a c : Option MsgTx} → Path (Result Fault (Option MsgTx)) (ok a) (ok c) → a ≡ c
  ok_injective e = cc

  persist_sweep-Finalizes :
      (h : ℕ) (tx : Option MsgTx) (s : Nursery World bolt)
      → ((x : MsgTx) → tx ≡ some x → get_height_bucket bolt h s.db ≢ none)
      → Finalizes h s (persist_sweep bolt wallet chain h tx s)
  persist_sweep-Finalizes h tx s b = subst (Finalizes h s) (sym (persist_sweep-eq h tx s)) (record {
    same_graduated = finalize_kinder-graduated bolt h tx s.db;
    same_published = refl;
    persisted = λ tx' t x e i.
        let same : tx ≡ tx' = ok_injective (ap (λ r. r.0) e) in
        subst (λ u. get_finalized_txn bolt h u.db ≡ some x) (ap (λ r. r.1) e)
          (subst (λ o. get_finalized_txn bolt h (finalize_kinder bolt h o s.db).1 ≡ some x)
            (sym (same ∙ i)) (finalize_kinder-read bolt h x s.db (b x (same ∙ i))));
  })

  -- What is fetched at a height, as far as it matters here.
  abbrev pub IsFetched : ℕ → Option MsgTx → List KidOutput → Db bolt → Type 0
  IsFetched h final kids db =
      (final ≡ get_finalized_txn bolt h db) × (get_height_bucket bolt h db ≡ none → kids ≡ [])

  moved-Finalizes :
      (h : ℕ) (s t : Nursery World bolt) (r : Result Fault (Option MsgTx) × Nursery World bolt)
      → t.db ≡ s.db
      → t.published ≡ s.published
      → Finalizes h t r
      → Finalizes h s r
  moved-Finalizes h s t r d p f = record {
    same_graduated = f.same_graduated ∙ ap (λ db. db.last_graduated_height) d;
    same_published = f.same_published ∙ p;
    persisted = f.persisted;
  }

  new_sweep-Finalizes :
      (h : ℕ) (final : Option MsgTx) (kids : List KidOutput) (s : Nursery World bolt)
      → IsFetched h final kids s.db
      → Finalizes h s
          ((new_sweep bolt wallet chain h final kids >>= persist_sweep bolt wallet chain h) s)
  new_sweep-Finalizes h final kids s i =
      let n = new_sweep-NewSweep h final kids s in
      elim (ending (new_sweep bolt wallet chain h final kids s)) [
        | returns tx t e ↦
            let d : t.db ≡ s.db = ap (λ r. r.1.db) (sym e) ∙ n.same_db in
            let p : t.published ≡ s.published =
              ap (λ r. r.1.published) (sym e) ∙ n.same_published in
            let b : (x : MsgTx) → tx ≡ some x → get_height_bucket bolt h t.db ≢ none = λ x k z.
              elim (n.made tx t e) [
                | inl same ↦
                    get_finalized-bucket bolt h s.db x (sym i.0 ∙ sym same ∙ k)
                      (ap (get_height_bucket bolt h) (sym d) ∙ z)
                | inr some_kids ↦ some_kids (i.1 (ap (get_height_bucket bolt h) (sym d) ∙ z))
              ] in
            subst (λ r. Finalizes h s (follow (persist_sweep bolt wallet chain h) r)) (sym e)
              (moved-Finalizes h s t (persist_sweep bolt wallet chain h tx t) d p
                (persist_sweep-Finalizes h tx t b))
        | fails x t e ↦
            subst (λ r. Finalizes h s (follow (persist_sweep bolt wallet chain h) r)) (sym e)
              (record {
                same_graduated =
                    ap (λ db. db.last_graduated_height) (ap (λ r. r.1.db) (sym e) ∙ n.same_db);
                same_published = ap (λ r. r.1.published) (sym e) ∙ n.same_published;
                persisted = λ tx u x' k. cc;
              })
        | panics t e ↦
            subst (λ r. Finalizes h s (follow (persist_sweep bolt wallet chain h) r)) (sym e)
              (record {
                same_graduated =
                    ap (λ db. db.last_graduated_height) (ap (λ r. r.1.db) (sym e) ∙ n.same_db);
                same_published = ap (λ r. r.1.published) (sym e) ∙ n.same_published;
                persisted = λ tx u x' k. cc;
              })
      ]

  kept-Finalizes :
      (h : ℕ) (final : Option MsgTx) (s : Nursery World bolt)
      → final ≡ get_finalized_txn bolt h s.db
      → Finalizes h s (ok final, s)
  kept-Finalizes h final s i = record {
    same_graduated = refl;
    same_published = refl;
    persisted = λ tx t x e k.
        subst (λ u. get_finalized_txn bolt h u.db ≡ some x) (ap (λ r. r.1) e)
          (sym i ∙ ok_injective (ap (λ r. r.0) e) ∙ k);
  }

  pub finalize_class-Finalizes :
      (h : ℕ) (final : Option MsgTx) (kids : List KidOutput) (last : ℕ) (s : Nursery World bolt)
      → IsFetched h final kids s.db
      → Finalizes h s (finalize_class bolt wallet chain h final kids last s)
  unfolding finalize_class
  finalize_class-Finalizes h final kids last s i = elim (Bool-cases (ltb last h)) [
    | inl e ↦
        subst
          (λ b. Finalizes h s (
            (if b
                then new_sweep bolt wallet chain h final kids >>= persist_sweep bolt wallet chain h
                else pure final)
              s))
          (sym e) (new_sweep-Finalizes h final kids s i)
    | inr e ↦
        subst
          (λ b. Finalizes h s (
            (if b
                then new_sweep bolt wallet chain h final kids >>= persist_sweep bolt wallet chain h
                else pure final)
              s))
          (sym e) (kept-Finalizes h final s i.0)
  ]
