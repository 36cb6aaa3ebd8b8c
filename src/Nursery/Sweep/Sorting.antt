-- ===== src/Nursery/Sweep/Sorting.antt =====
-- The loop of `createSweepTx` (lnd/utxonursery.go) that sorts the outputs of a class.
use lndmobile.Prelude.{ℕ, ◌≡◌, ◌⊎◌, inl, inr, some, List, [], ◌∷◌, ◌++◌, All, sym, subst}
use mathlib.Core.List.{Perm, perm_middle, append_assoc, append-nil}
use mathlib.Core.List.Perm
use lndmobile.Nursery.Output.{KidOutput}
use lndmobile.Breach.Wallet.{Wallet}
use lndmobile.Nursery.Sweep.{Lock, csv, cltv, input_class, Sorted, sort_output, sort_outputs}

All-snoc :
    (P : KidOutput → Type 0) (xs : List KidOutput) (y : KidOutput)
    → All P xs
    → P y
    → All P (xs ++ y ∷ [])
All-snoc P [] y a p = (p, tt)
All-snoc P (x ∷ xs) y a p = (a.0, All-snoc P xs y a.1 p)

-- One output, taken from the front of a list to the end of the first part, or of the second one.
perm_front :
    (o : KidOutput) (os cs bs : List KidOutput)
    → Perm (os ++ ((cs ++ o ∷ []) ++ bs)) (o ∷ os ++ (cs ++ bs))
perm_front o os cs bs =
    subst (λ l. Perm (os ++ l) (o ∷ os ++ (cs ++ bs))) (sym (append_assoc cs (o ∷ []) bs))
      (Perm.trans (Perm.append_left os (perm_middle cs bs)) (perm_middle os (cs ++ bs)))

perm_back :
    (o : KidOutput) (os cs bs : List KidOutput)
    → Perm (os ++ (cs ++ (bs ++ o ∷ []))) (o ∷ os ++ (cs ++ bs))
perm_back o os cs bs =
    subst (λ l. Perm (os ++ (cs ++ (bs ++ o ∷ []))) (o ∷ os ++ (cs ++ l))) (append-nil bs)
      (Perm.trans (Perm.append_left os (Perm.append_left cs (perm_middle bs []))) (
        Perm.trans (Perm.append_left os (perm_middle cs (bs ++ [])))
          (perm_middle os (cs ++ (bs ++ [])))))

module _ {World : Type 0} (wallet : Wallet World) where
  -- The outputs of a kind, and those that are not skipped.
  abbrev pub HasLock : Lock → KidOutput → Type 0
  HasLock l o = (n : ℕ) × (input_class wallet o.breached.witness_type ≡ some (n, l))

  abbrev pub IsSpendable : KidOutput → Type 0
  IsSpendable o = HasLock csv o ⊎ HasLock cltv o

  pub record Sorts (os : List KidOutput) (s t : Sorted wallet) : Type 0 where
    pub all_outputs :
        Perm (t.csv_outputs ++ t.cltv_outputs) (os ++ (s.csv_outputs ++ s.cltv_outputs))
    pub csvs : All (HasLock csv) s.csv_outputs → All (HasLock csv) t.csv_outputs
    pub cltvs : All (HasLock cltv) s.cltv_outputs → All (HasLock cltv) t.cltv_outputs

  pub sort_outputs-Sorts :
      (os : List KidOutput) (s : Sorted wallet)
      → All IsSpendable os
      → Sorts os s (sort_outputs wallet os s)
  unfolding sort_outputs
  sort_outputs-Sorts [] s k = record {
    all_outputs = Perm.refl (s.csv_outputs ++ s.cltv_outputs);
    csvs = λ a. a;
    cltvs = λ a. a;
  }
  sort_outputs-Sorts (o ∷ os) s (inl (n, e), k) =
      let r = sort_outputs-Sorts os (sort_output wallet (some (n, csv)) o s) k in
      subst (λ c. Sorts (o ∷ os) s (sort_outputs wallet os (sort_output wallet c o s))) (sym e)
        (record {
          all_outputs = Perm.trans r.all_outputs (perm_front o os s.csv_outputs s.cltv_outputs);
          csvs = λ a. r.csvs (All-snoc (HasLock csv) s.csv_outputs o a (n, e));
          cltvs = r.cltvs;
        })
  sort_outputs-Sorts (o ∷ os) s (inr (n, e), k) =
      let r = sort_outputs-Sorts os (sort_output wallet (some (n, cltv)) o s) k in
      subst (λ c. Sorts (o ∷ os) s (sort_outputs wallet os (sort_output wallet c o s))) (sym e)
        (record {
          all_outputs = Perm.trans r.all_outputs (perm_back o os s.csv_outputs s.cltv_outputs);
          csvs = r.csvs;
          cltvs = λ a. r.cltvs (All-snoc (HasLock cltv) s.cltv_outputs o a (n, e));
        })
