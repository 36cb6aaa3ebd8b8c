-- ===== src/Server/Backoff.antt =====
-- `computeNextBackoff` (lnd/server.go). Durations are `int64`, in nanoseconds.
use lndmobile.Prelude.{
  ℕ, ◌+◌, ◌-◌, ◌*◌, ◌/◌, ◌≤◌, ◌<◌, ◌^◌, ltb, ◌≡◌, ◌⊎◌, Bool, true, false, Option, none, some, arith,
  refl, sym, subst, if◌then◌else◌,
}
use lndmobile.Prelude.Int.{
  ℤ, pos, ltb_ℤ, leb_ℤ, add64, sub64, mul64, quot, wrap64, ◌*ℤ◌, add64_pos, sub64_pos,
}

abbrev pub default_backoff : ℤ
default_backoff = pos 1000000000

-- An hour.
abbrev pub maximum_backoff : ℤ
maximum_backoff = pos 3600000000000

-- Twice the backoff, but not above the maximum.
unfoldable pub truncated : ℤ → ℤ
truncated curr_backoff =
    let next_backoff = mul64 (pos 2) curr_backoff in
    if ltb_ℤ maximum_backoff next_backoff then maximum_backoff else next_backoff

-- `rand.Int` returns a random number and leaves its argument, `wiggle`, as it is; only whether it
-- fails matters. It panics for an argument that is not positive.
unfoldable pub compute_next_backoff : Bool → ℤ → Option ℤ
unfolding truncated
compute_next_backoff random_fails curr_backoff =
    let next_backoff = truncated curr_backoff in
    let margin = quot next_backoff 10 in
    let wiggle = margin in
    if leb_ℤ wiggle (pos 0)
    then none
    else if random_fails
    then some next_backoff
    else some (add64 next_backoff (sub64 wiggle (quot margin 2)))

truncated_lem :
    (b : ℕ)
    → b < 2 ^ 60
    → truncated (pos b) ≡ pos (if ltb 1800000000000 b then 3600000000000 else b * 2)
unfolding truncated mul64 wrap64 ◌*ℤ◌
truncated_lem b l = ground arith

-- The longest backoff, an hour and three minutes.
abbrev pub longest : ℕ
longest = 3780000000000

abbrev grown : ℕ → ℕ
grown n = n + (n / 10 - n / 10 / 2)

compute_lem :
    (fails : Bool) (b n : ℕ)
    → truncated (pos b) ≡ pos n
    → 10 ≤ n
    → n < 2 ^ 60
    → compute_next_backoff fails (pos b) ≡ some (pos (if fails then n else grown n))
unfolding compute_next_backoff quot
compute_lem fails b n e l m =
    let half = sub64_pos (n / 10) (n / 10 / 2) (omega arith) (omega arith) in
    let sum = add64_pos n (n / 10 - n / 10 / 2) (omega arith) in rw (e, half, sum) (ground arith)

grown_from :
    (b n : ℕ)
    → n ≡ (if ltb 1800000000000 b then 3600000000000 else b * 2)
    → 5 ≤ b
    → (b < grown n) ⊎ (grown n ≡ longest)
grown_from b n e l = ground arith

least : (x : Bool) (n : ℕ) → 10 ≤ n → 5 ≤ (if x then n else grown n)
least true n l = omega arith
least false n l = omega arith

most : (x : Bool) (n : ℕ) → n ≤ 3600000000000 → (if x then n else grown n) ≤ longest
most true n l = omega arith
most false n l = omega arith

-- For a backoff of 5 nanoseconds to an hour and three minutes, the next one is again within these
-- bounds. If the random number is had, it does not depend on it, and it is larger, or it is an hour and
-- three minutes.
pub compute_next_backoff_grows :
    (random_fails : Bool) (b : ℕ)
    → 5 ≤ b
    → b ≤ longest
    → (c : ℕ) × (compute_next_backoff random_fails (pos b) ≡ some (pos c))
      × (5 ≤ c)
      × (c ≤ longest)
      × (random_fails ≡ false → (b < c) ⊎ (c ≡ longest))
compute_next_backoff_grows random_fails b l m =
    let n = if ltb 1800000000000 b then 3600000000000 else b * 2 in
    let k : 10 ≤ n = ground arith in
    let j : n ≤ 3600000000000 = ground arith in
    let r : (b < grown n) ⊎ (grown n ≡ longest) = grown_from b n refl l in
    (
      if random_fails then n else grown n,
      compute_lem random_fails b n (truncated_lem b (omega arith)) k (omega arith),
      least random_fails n k,
      most random_fails n j,
      λ e.
          subst (λ x. (b < (if x then n else grown n)) ⊎ ((if x then n else grown n) ≡ longest))
            (sym e) r,
    )
