-- ===== src/Breach/Justice/Signing.antt =====
-- The witnesses of a sweep (`addWitness` of lnd/breacharbiter.go).
use lndmobile.Prelude.{
  ℕ, suc, ◌+◌, ◌≡◌, some, List, [], ◌∷◌, ◌++◌, map, length, arith, refl, ap, sym, ◌∙◌,
  length-append,
}
use mathlib.Core.List.{append_assoc}
use lndmobile.Prelude.Exec.{runs, follow, ending, returns, fails, panics, ok, value, ◌>>=◌}
use lndmobile.Wire.{Bytes}
use lndmobile.Nursery.Output.{BreachedOutput}
use lndmobile.Breach.Wallet.{Wallet, TxIn, Txn, call, answered}
use lndmobile.Breach.Justice.{unsigned_input, set_witness, attach, add_witness, add_witnesses}

-- A transaction without its witnesses, which is what a signature commits to.
abbrev pub strip_input : TxIn → TxIn
strip_input x = record x { witness = [] }

abbrev pub strip : Txn → Txn
strip t = record t { tx_in = map strip_input t.tx_in }

set_witness_middle :
    (xs : List TxIn) (x : TxIn) (ys : List TxIn) (w : List Bytes)
    → set_witness (length xs) w (xs ++ x ∷ ys) ≡ some (xs ++ record x { witness = w } ∷ ys)
unfolding set_witness
set_witness_middle [] x ys w = refl
set_witness_middle (z ∷ xs) x ys w = rw (set_witness_middle xs x ys w) refl

strip_middle :
    (xs : List TxIn) (x y : TxIn) (ys : List TxIn)
    → strip_input x ≡ strip_input y
    → map strip_input (xs ++ x ∷ ys) ≡ map strip_input (xs ++ y ∷ ys)
strip_middle [] x y ys e = ap (λ z. z ∷ map strip_input ys) e
strip_middle (z ∷ xs) x y ys e = ap (λ l. strip_input z ∷ l) (strip_middle xs x y ys e)

-- The inputs of a transaction spend the outputs, one by one.
abbrev pub Spends : List BreachedOutput → List TxIn → Type 0
Spends [] [] = Unit
Spends (o ∷ os) (x ∷ xs) = (x.previous_out_point ≡ o.out_point) × Spends os xs
Spends _ _ = ⊥

pub unsigned-Spends : (os : List BreachedOutput) → Spends os (map unsigned_input os)
unsigned-Spends [] = tt
unsigned-Spends (o ∷ os) = (refl, unsigned-Spends os)

module _ {World : Type 0} (wallet : Wallet World) where
  open wallet use {
    gen_sweep_script, estimate_fee_per_vsize, fee_for_vsize, Estimator, no_weight, add_p2wkh_output,
    vsize, gen_witness, check_transaction_sanity,
  }

  -- An input spends an output, with a witness for it at its index of the transaction.
  pub record SignedInput (final : Txn) (idx : ℕ) (o : BreachedOutput) (x : TxIn) : Type 0 where
    pub spends : x.previous_out_point ≡ o.out_point
    pub txn : Txn
    pub before : World
    pub after : World
    pub signed : gen_witness o.witness_type o.sign_desc txn idx before ≡ (value x.witness, after)
    pub committed : strip txn ≡ strip final

  -- The inputs spend the outputs, one by one.
  abbrev pub AllSigned : Txn → ℕ → List BreachedOutput → List TxIn → Type 0
  AllSigned final idx [] [] = Unit
  AllSigned final idx (o ∷ os) (x ∷ xs) =
      SignedInput final idx o x × AllSigned final (suc idx) os xs
  AllSigned final idx _ _ = ⊥

  -- The signer has a witness for an output at an index of a transaction, whatever witnesses the
  -- transaction has already.
  abbrev pub CanSign : Txn → ℕ → BreachedOutput → Type 0
  CanSign form idx o =
      (t : Txn) (w : World)
      → strip t ≡ strip form
      → (x : List Bytes) × (w' : World) × (gen_witness o.witness_type o.sign_desc t idx w
          ≡ (value x, w'))

  -- The signer has a witness for each of some outputs, at the indices from the given one on.
  abbrev pub CanSignAll : Txn → ℕ → List BreachedOutput → Type 0
  CanSignAll form idx [] = Unit
  CanSignAll form idx (o ∷ os) = CanSign form idx o × CanSignAll form (suc idx) os

  pub cast-AllSigned :
      (a b : Txn) (idx : ℕ) (os : List BreachedOutput) (xs : List TxIn)
      → strip a ≡ strip b
      → AllSigned a idx os xs
      → AllSigned b idx os xs
  cast-AllSigned a b idx [] [] e h = h
  cast-AllSigned a b idx (o ∷ os) (x ∷ xs) e h =
      let s = h.0 in
      (
        record {
          spends = s.spends;
          txn = s.txn;
          before = s.before;
          after = s.after;
          signed = s.signed;
          committed = s.committed ∙ e;
        },
        cast-AllSigned a b (suc idx) os xs e h.1,
      )
  cast-AllSigned a b idx [] (x ∷ xs) e h = h
  cast-AllSigned a b idx (o ∷ os) [] e h = h

  pub record Signing (form final : Txn) (done : List TxIn) (idx : ℕ) (os : List BreachedOutput)
      (xs : List TxIn) (txn : Txn) (w : World) : Type 0 where
    pub ins : List TxIn
    pub after : World
    pub result :
        add_witnesses wallet idx os txn w ≡ (ok (record form { tx_in = done ++ ins }), after)
    pub all : AllSigned final idx os ins
    pub stripped : map strip_input ins ≡ map strip_input xs

  add_witness_lem :
      (form : Txn) (done : List TxIn) (o : BreachedOutput) (i : TxIn) (left : List TxIn) (idx : ℕ)
      (txn : Txn) (w : World) (x : List Bytes) (w' : World)
      → idx ≡ length done
      → txn ≡ record form { tx_in = done ++ i ∷ left }
      → gen_witness o.witness_type o.sign_desc txn idx w ≡ (value x, w')
      → add_witness wallet idx o txn w
        ≡ (ok (record form { tx_in = done ++ record i { witness = x } ∷ left }), w')
  unfolding add_witness
  add_witness_lem form done o i left idx txn w x w' l e g =
      let t : Txn = record form { tx_in = done ++ i ∷ left } in
      runs (call (gen_witness o.witness_type o.sign_desc txn idx))
        (λ y. attach wallet txn (set_witness idx y txn.tx_in)) (ap answered g)
      ∙ ap (λ u. attach wallet u (set_witness idx x u.tx_in) w') e
      ∙ ap (λ k. attach wallet t (set_witness k x t.tx_in) w') l
      ∙ ap (λ m. attach wallet t m w') (set_witness_middle done i left x)

  -- The transaction is `form` with the inputs `xs` behind those that are done.
  pub signing :
      (form final : Txn) (done : List TxIn) (idx : ℕ) (os : List BreachedOutput) (xs : List TxIn)
      (txn : Txn) (w : World)
      → Spends os xs
      → idx ≡ length done
      → txn ≡ record form { tx_in = done ++ xs }
      → strip txn ≡ strip final
      → CanSignAll final idx os
      → Signing form final done idx os xs txn w
  unfolding add_witnesses
  signing form final done idx [] [] txn w p l i e s = record {
    ins = [];
    after = w;
    result = ap (λ t. (ok t, w)) i;
    all = tt;
    stripped = refl;
  }
  signing form final done idx (o ∷ os) (y ∷ ys) txn w p l i e s =
      let (x, w', g) = s.0 txn w e in
      let here : TxIn = record y { witness = x } in
      let txn' : Txn = record form { tx_in = done ++ here ∷ ys } in
      let shift = append_assoc done (here ∷ []) in
      let e' : strip txn' ≡ strip final =
        ap (λ l. record form { tx_in = l }) (strip_middle done here y ys refl)
        ∙ ap strip (sym i)
        ∙ e in
      let rest =
        signing form final (done ++ here ∷ []) (suc idx) os ys txn' w' p.1
          (omega (arith, length-append done (here ∷ [])))
          (ap (λ l. record form { tx_in = l }) (sym (shift ys))) e' s.1 in
      record {
        ins = here ∷ rest.ins;
        after = rest.after;
        result =
            runs (add_witness wallet idx o txn) (add_witnesses wallet (suc idx) os)
              (add_witness_lem form done o y ys idx txn w x w' l i g)
            ∙ rest.result
            ∙ ap (λ l. (ok (record form { tx_in = l }), rest.after)) (shift rest.ins);
        all = (
          record { spends = p.0; txn = txn; before = w; after = w'; signed = g; committed = e },
          rest.all,
        );
        stripped = ap (λ l. strip_input y ∷ l) rest.stripped;
      }
  signing form final done idx [] (y ∷ ys) txn w p l i e s = absurd p
  signing form final done idx (o ∷ os) [] txn w p l i e s = absurd p

  -- To sign two lists in turn is to sign them behind each other.
  pub add_witnesses-append :
      (idx : ℕ) (os ps : List BreachedOutput) (txn : Txn) (w : World)
      → add_witnesses wallet idx (os ++ ps) txn w
        ≡ (add_witnesses wallet idx os txn >>= add_witnesses wallet (idx + length os) ps) w
  unfolding add_witnesses
  add_witnesses-append idx [] ps txn w = ap (λ n. add_witnesses wallet n ps txn w) (omega arith)
  add_witnesses-append idx (o ∷ os) ps txn w = elim (ending (add_witness wallet idx o txn w)) [
    | returns t v e ↦
        runs (add_witness wallet idx o txn) (add_witnesses wallet (suc idx) (os ++ ps)) e
        ∙ add_witnesses-append (suc idx) os ps t v
        ∙ ap (λ n. follow (add_witnesses wallet n ps) (add_witnesses wallet (suc idx) os t v))
            (omega arith)
        ∙ ap (follow (add_witnesses wallet (idx + length (o ∷ os)) ps))
            (sym (runs (add_witness wallet idx o txn) (add_witnesses wallet (suc idx) os) e))
    | fails x v e ↦
        ap (follow (add_witnesses wallet (suc idx) (os ++ ps))) e
        ∙ sym (
            ap
              (λ r.
                follow (add_witnesses wallet (idx + length (o ∷ os)) ps)
                  (follow (add_witnesses wallet (suc idx) os) r))
              e)
    | panics v e ↦
        ap (follow (add_witnesses wallet (suc idx) (os ++ ps))) e
        ∙ sym (
            ap
              (λ r.
                follow (add_witnesses wallet (idx + length (o ∷ os)) ps)
                  (follow (add_witnesses wallet (suc idx) os) r))
              e)
  ]
