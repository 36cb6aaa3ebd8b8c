-- ===== src/ChanCloser/Fee/Compromise.antt =====
-- One round of `calcCompromiseFee`.
use lndmobile.Prelude.{ℕ, ◌+◌, ◌-◌, ◌/◌, ◌≤◌, ◌<◌, ◌≡◌, ◌≢◌, inl, inr, Bool-cases, false, arith}
use lndmobile.Prelude.Int.{pos, ◌≤ℤ◌, ◌<ℤ◌}
use lndmobile.ChanCloser.Fee.{Amount, fee_in_acceptable_range, calc_compromise_fee}
use lndmobile.ChanCloser.Fee.Range.{
  fee_bound, rachet_up, rachet_down, IsWithin30, fee_in_acceptable_range_iff,
}

-- The remote party's fee is taken over as soon as it is our ideal fee.
pub compromise_ideal : (i l : Amount) → calc_compromise_fee i l i ≡ i
unfolding calc_compromise_fee
compromise_ideal i l = ground arith

-- A first answer is our ideal fee, whatever was offered.
pub compromise_first : (i r : Amount) → calc_compromise_fee i (pos 0) r ≡ i
unfolding calc_compromise_fee
compromise_first i r = ground arith

module _ (i : Amount) (l : ℕ) (r : Amount) (h : l < fee_bound) (p : 0 < l) (n : i ≢ r) where
  pub compromise_accepts : IsWithin30 l r → calc_compromise_fee i (pos l) r ≡ r
  unfolding calc_compromise_fee
  compromise_accepts w = ground (arith, (fee_in_acceptable_range_iff l r h).1)

  pub compromise_up :
      fee_in_acceptable_range (pos l) r ≡ false
      → pos l <ℤ r
      → calc_compromise_fee i (pos l) r ≡ pos (l + l / 10)
  unfolding calc_compromise_fee
  compromise_up o u = ground (arith, rachet_up l h)

  pub compromise_down :
      fee_in_acceptable_range (pos l) r ≡ false
      → r <ℤ pos l
      → calc_compromise_fee i (pos l) r ≡ pos (l - l / 10)
  unfolding calc_compromise_fee
  compromise_down o u = ground (arith, rachet_down l h)

  pub out_of_range : ¬ IsWithin30 l r → fee_in_acceptable_range (pos l) r ≡ false
  out_of_range w = elim (Bool-cases (fee_in_acceptable_range (pos l) r)) [
    | inl e ↦ absurd (w ((fee_in_acceptable_range_iff l r h).0 e))
    | inr e ↦ e
  ]

  -- While the remote fee is not our ideal fee and our last fee is from 10 up to 2^61 - 1 satoshis,
  -- the next fee is strictly nearer to the remote fee than the last one, and never beyond it.
  pub compromise_moves :
      10 ≤ l
      → (pos l <ℤ r
          → (pos l <ℤ calc_compromise_fee i (pos l) r) × (calc_compromise_fee i (pos l) r ≤ℤ r))
        × (r <ℤ pos l
            → (r ≤ℤ calc_compromise_fee i (pos l) r) × (calc_compromise_fee i (pos l) r <ℤ pos l))
  compromise_moves ten = elim (Bool-cases (fee_in_acceptable_range (pos l) r)) [
    | inl e ↦
        let c = compromise_accepts ((fee_in_acceptable_range_iff l r h).0 e) in rw c (omega arith)
    | inr e ↦
        let w = (fee_in_acceptable_range_iff l r h).1 in
        (
          λ u. rw (compromise_up e u) (ground (arith, w)),
          λ u. rw (compromise_down e u) (ground (arith, w)),
        )
  ]

  -- While the remote fee is not our ideal fee and not within 30% of ours, a last fee of 1 to 9
  -- satoshis is offered again: a tenth of it is rounded to nothing.
  pub compromise_stalls : l < 10 → ¬ IsWithin30 l r → calc_compromise_fee i (pos l) r ≡ pos l
  compromise_stalls small w =
      let e = out_of_range w in ground (arith, compromise_up e, compromise_down e, e)
