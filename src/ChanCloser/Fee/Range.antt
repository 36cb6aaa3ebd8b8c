-- ===== src/ChanCloser/Fee/Range.antt =====
-- `feeInAcceptableRange` and `rachetFee` over fees that leave room in an `int64`.
use lndmobile.Prelude.{ℕ, ◌+◌, ◌-◌, ◌*◌, ◌/◌, ◌^◌, ◌≤◌, ◌<◌, ◌≡◌, ◌↔◌, ◌∙◌, ap, true, false, arith}
use lndmobile.Prelude.Int.{
  ℤ, pos, pos_part, neg_part, quot, mul64, add64, sub64, add64_pos, sub64_pos, mul64_pos3,
  mul64_pos1,
}
use lndmobile.ChanCloser.Fee.{Amount, fee_in_acceptable_range, rachet_fee}

-- Far above the number of satoshis that will ever exist, and low enough for a product by 3.
abbrev pub fee_bound : ℕ
fee_bound = 2 ^ 61

third : (l : ℕ) → l < fee_bound → quot (mul64 (pos l) (pos 3)) 10 ≡ pos (l * 3 / 10)
unfolding quot
third l h = ap (λ (t : ℤ). quot t 10) (mul64_pos3 l (omega arith))

tenth : (l : ℕ) → l < fee_bound → quot (mul64 (pos l) (pos 1)) 10 ≡ pos (l / 10)
unfolding quot
tenth l h = ap (λ (t : ℤ). quot t 10) (mul64_pos1 l (omega arith))

upper_end :
    (l : ℕ) → l < fee_bound → add64 (pos l) (quot (mul64 (pos l) (pos 3)) 10) ≡ pos (l + l * 3 / 10)
upper_end l h = ap (add64 (pos l)) (third l h) ∙ add64_pos l (l * 3 / 10) (omega arith)

lower_end :
    (l : ℕ) → l < fee_bound → sub64 (pos l) (quot (mul64 (pos l) (pos 3)) 10) ≡ pos (l - l * 3 / 10)
lower_end l h =
    ap (sub64 (pos l)) (third l h) ∙ sub64_pos l (l * 3 / 10) (omega arith) (omega arith)

pub rachet_up : (l : ℕ) → l < fee_bound → rachet_fee (pos l) true ≡ pos (l + l / 10)
unfolding rachet_fee
rachet_up l h = ap (add64 (pos l)) (tenth l h) ∙ add64_pos l (l / 10) (omega arith)

pub rachet_down : (l : ℕ) → l < fee_bound → rachet_fee (pos l) false ≡ pos (l - l / 10)
unfolding rachet_fee
rachet_down l h = ap (sub64 (pos l)) (tenth l h) ∙ sub64_pos l (l / 10) (omega arith) (omega arith)

-- 0.7 l ≤ r ≤ 1.3 l
abbrev pub IsWithin30 : ℕ → Amount → Type 0
IsWithin30 l r =
    (7 * l + 10 * neg_part r ≤ 10 * pos_part r) × (10 * pos_part r ≤ 13 * l + 10 * neg_part r)

-- Of a local fee from 0 up to 2^61 - 1, the remote fee is accepted exactly when it lies between
-- 70% and 130% of the local fee, as exact fractions: the rounding of the code changes nothing.
pub fee_in_acceptable_range_iff :
    (l : ℕ) (r : Amount)
    → l < fee_bound
    → (fee_in_acceptable_range (pos l) r ≡ true) ↔ IsWithin30 l r
unfolding fee_in_acceptable_range
fee_in_acceptable_range_iff l r h = ground (arith, upper_end l h, lower_end l h)
