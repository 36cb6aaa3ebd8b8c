-- ===== src/Breach/Observers/Signals.antt =====
-- The signals of the observers (lnd/breacharbiter.go): the map from channels to them, and those that
-- were closed.
use lndmobile.Prelude.{ℕ, suc, ◌<◌, ◌≡◌, ==_iff, true, false, some, List, [], ◌∷◌, arith, refl}
use lndmobile.Prelude.Assoc.{nat_eq, lookup, insert, delete, lookup-insert, lookup-delete}
use lndmobile.Wire.{OutPoint, out_point_eqb_iff, out_point_eq}
use lndmobile.Bolt.{contains}

pub record Signals (observers : List (OutPoint × ℕ)) (closed : List ℕ) (next : ℕ) : Type 0 where
  -- A signal of an observer was made and is open.
  pub made : (o : OutPoint) (n : ℕ) → lookup o observers ≡ some n → n < next
  pub is_open : (o : OutPoint) (n : ℕ) → lookup o observers ≡ some n → contains n closed ≡ false
  -- No two channels share one.
  pub distinct :
      (o p : OutPoint) (n : ℕ) → lookup o observers ≡ some n → lookup p observers ≡ some n → o ≡ p
  pub closed_made : (n : ℕ) → contains n closed ≡ true → n < next

pub no-Signals : Signals [] [] 0
unfolding lookup
no-Signals = record {
  made = λ o n e. cc;
  is_open = λ o n e. refl;
  distinct = λ o p n e f. cc;
  closed_made = λ n e. cc;
}

module _ (observers : List (OutPoint × ℕ)) (closed : List ℕ) (next : ℕ)
    (s : Signals observers closed next) (o : OutPoint) where
  pub insert-Signals : Signals (insert o next observers) closed (suc next)
  insert-Signals = record {
    made = λ p n e. ground (arith, lookup-insert o p next observers, s.made p n);
    is_open =
        λ p n e. ground (arith, lookup-insert o p next observers, s.is_open p n, s.closed_made n);
    distinct = λ p q n e f. ground (
      arith,
      lookup-insert o p next observers,
      lookup-insert o q next observers,
      s.distinct p q n,
      s.made p n,
      s.made q n,
      out_point_eqb_iff o p,
      out_point_eqb_iff o q,
    );
    closed_made = λ n e. omega (arith, s.closed_made n e);
  }

  pub delete-Signals : Signals (delete o observers) closed next
  delete-Signals = record {
    made = λ p n e. ground (arith, lookup-delete o p observers, s.made p n);
    is_open = λ p n e. ground (arith, lookup-delete o p observers, s.is_open p n);
    distinct = λ p q n e f.
        ground (arith, lookup-delete o p observers, lookup-delete o q observers, s.distinct p q n);
    closed_made = s.closed_made;
  }

  module _ (old : ℕ) (known : lookup o observers ≡ some old) where
    pub replace-Signals : Signals (insert o next observers) (old ∷ closed) (suc next)
    replace-Signals = record {
      made = λ p n e. ground (arith, lookup-insert o p next observers, s.made p n);
      is_open = λ p n e. ground (
        arith,
        lookup-insert o p next observers,
        s.is_open p n,
        s.closed_made n,
        s.made o old known,
        ==_iff old n,
        s.distinct o p n,
        out_point_eqb_iff o p,
        known,
      );
      distinct = λ p q n e f. ground (
        arith,
        lookup-insert o p next observers,
        lookup-insert o q next observers,
        s.distinct p q n,
        s.made p n,
        s.made q n,
        out_point_eqb_iff o p,
        out_point_eqb_iff o q,
      );
      closed_made = λ n e. ground (arith, s.closed_made n, s.made o old known, ==_iff old n);
    }

    pub kill-Signals : Signals (delete o observers) (old ∷ closed) next
    kill-Signals = record {
      made = λ p n e. ground (arith, lookup-delete o p observers, s.made p n);
      is_open = λ p n e. ground (
        arith,
        lookup-delete o p observers,
        s.is_open p n,
        ==_iff old n,
        s.distinct o p n,
        out_point_eqb_iff o p,
        known,
      );
      distinct = λ p q n e f.
          ground
            (arith, lookup-delete o p observers, lookup-delete o q observers, s.distinct p q n);
      closed_made = λ n e. ground (arith, s.closed_made n, s.made o old known, ==_iff old n);
    }
