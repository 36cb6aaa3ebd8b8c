-- ===== src/ChanCloser/Fee.antt =====
-- The fee arithmetic of lnd/chancloser.go: `feeInAcceptableRange`, `rachetFee` and
-- `calcCompromiseFee`. A `btcutil.Amount` is an `int64`, so sums and products wrap.
-- The channel point that the last one takes is only logged, and is left out.
pub mod Range
pub mod Compromise
pub mod Convergence
use lndmobile.Prelude.{Bool, true, false, ◌||◌, if◌then◌else◌}
use lndmobile.Prelude.Int.{ℤ, pos, ltb_ℤ, leb_ℤ, eqb_ℤ, add64, sub64, mul64, quot}

-- btcutil.Amount, in satoshis.
abbrev pub Amount : Type 0
Amount = ℤ

unfoldable pub fee_in_acceptable_range : Amount → Amount → Bool
fee_in_acceptable_range local_fee remote_fee =
    if ltb_ℤ local_fee remote_fee
    then leb_ℤ remote_fee (add64 local_fee (quot (mul64 local_fee (pos 3)) 10))
    else leb_ℤ (sub64 local_fee (quot (mul64 local_fee (pos 3)) 10)) remote_fee

unfoldable pub rachet_fee : Amount → Bool → Amount
rachet_fee fee true = add64 fee (quot (mul64 fee (pos 1)) 10)
rachet_fee fee false = sub64 fee (quot (mul64 fee (pos 1)) 10)

unfoldable pub calc_compromise_fee : Amount → Amount → Amount → Amount
calc_compromise_fee our_ideal_fee last_sent_fee remote_fee =
    if eqb_ℤ our_ideal_fee remote_fee || eqb_ℤ last_sent_fee (pos 0)
    then our_ideal_fee
    else if eqb_ℤ remote_fee last_sent_fee
    then last_sent_fee
    else if ltb_ℤ remote_fee last_sent_fee
    then (if fee_in_acceptable_range last_sent_fee remote_fee
        then remote_fee
        else rachet_fee last_sent_fee false)
    else if ltb_ℤ last_sent_fee remote_fee
    then (if fee_in_acceptable_range last_sent_fee remote_fee
        then remote_fee
        else rachet_fee last_sent_fee true)
    else remote_fee
