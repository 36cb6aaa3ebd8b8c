-- ===== src/ChanCloser/Fee/Convergence.antt =====
-- How near one round of `calcCompromiseFee` comes to the offer of a remote party that repeats it.
use lndmobile.Prelude.{
  ℕ, ◌+◌, ◌-◌, ◌*◌, ◌/◌, ◌≤◌, ◌<◌, ◌≡◌, ◌≢◌, ◌⊎◌, inl, inr, ◌&&◌, leb, ltb, Bool-cases, arith,
}
use lndmobile.Prelude.Int.{pos, eqb_ℤ, eqb_ℤ_iff}
use lndmobile.ChanCloser.Fee.{Amount, calc_compromise_fee}
use lndmobile.ChanCloser.Fee.Range.{fee_bound, IsWithin30}
use lndmobile.ChanCloser.Fee.Compromise.{
  compromise_ideal, compromise_accepts, compromise_up, compromise_down, out_of_range,
}

-- How many satoshis two fees are apart.
abbrev pub distance : ℕ → ℕ → ℕ
distance a b = (a - b) + (b - a)

-- What one round leaves to the next: agreement is nearer, and not out of reach.
pub record IsNearer (l r : ℕ) (c : Amount) : Type 0 where
  pub fee : ℕ
  pub is_fee : c ≡ pos fee
  pub reach : (10 ≤ fee) ⊎ (r ≤ fee)
  pub below : fee < fee_bound
  pub nearer : distance fee r ≤ distance l r - 1

module _ (i : Amount) (l r : ℕ) (hl : l < fee_bound) (hr : r < fee_bound) (seven : 7 ≤ r) where
  agreed : (c : Amount) → c ≡ pos r → IsNearer l r c
  agreed c e = record {
    fee = r;
    is_fee = e;
    reach = inr (omega arith);
    below = hr;
    nearer = omega arith;
  }

  rachets :
      i ≢ pos r
      → ¬ IsWithin30 l (pos r)
      → (10 ≤ l) ⊎ (r ≤ l)
      → IsNearer l r (calc_compromise_fee i (pos l) (pos r))
  rachets n w big = elim (Bool-cases (ltb l r)) [
    | inl up ↦ record {
      fee = l + l / 10;
      is_fee =
          compromise_up i l (pos r) hl (ground arith) n
            (out_of_range i l (pos r) hl (ground arith) n w) (ground arith);
      reach = ground arith;
      below = ground arith;
      nearer = ground arith;
    }
    | inr down ↦ record {
      fee = l - l / 10;
      is_fee =
          compromise_down i l (pos r) hl (ground arith) n
            (out_of_range i l (pos r) hl (ground arith) n w) (ground arith);
      reach = ground arith;
      below = ground arith;
      nearer = ground arith;
    }
  ]

  pub round_lem : (10 ≤ l) ⊎ (r ≤ l) → IsNearer l r (calc_compromise_fee i (pos l) (pos r))
  round_lem big = elim (Bool-cases (eqb_ℤ i (pos r))) [
    | inl e ↦ agreed _ (rw ((eqb_ℤ_iff i (pos r)).0 e) (compromise_ideal (pos r) (pos l)))
    | inr e ↦
        let n : i ≢ pos r = λ p. cc ((eqb_ℤ_iff i (pos r)).1 p) in
        elim (Bool-cases (leb (7 * l) (10 * r) && leb (10 * r) (13 * l))) [
          | inl w ↦ agreed _ (compromise_accepts i l (pos r) hl (ground arith) n (ground arith))
          | inr w ↦ rachets n (λ v. ground arith) big
        ]
  ]
