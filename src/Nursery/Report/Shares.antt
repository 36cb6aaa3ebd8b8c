-- ===== src/Nursery/Report/Shares.antt =====
-- What each output adds to the balances of a nursery report (lnd/utxonursery.go).
use lndmobile.Prelude.{
  ℕ, ◌+◌, ◌<◌, ◌^◌, ◌==◌, ◌||◌, ◌≡◌, ◌⊎◌, Bool, true, false, arith, refl, ap, ◌∙◌, subst,
  if◌then◌else◌,
}
use lndmobile.Prelude.Int.{ℤ, pos, pos_part, add64, add64_pos}
use lndmobile.Prelude.Exec.{ok}
use lndmobile.Nursery.Output.{KidOutput}
use lndmobile.Nursery.Store.{Prefix, crib, pscl, kndr, grad, prefix_eqb, key_eq, Stored, kid, baby}
use lndmobile.Breach.Wallet.{
  commitment_time_lock, htlc_offered_timeout_second_level, htlc_accepted_success_second_level,
  htlc_offered_remote_timeout,
}
use lndmobile.Nursery.Report.{
  ContractMaturityReport, report_preschool, report_kinder, report_graduate, add_limbo_commitment,
  add_recovered_commitment, add_limbo_direct_htlc, add_limbo_stage2_htlc, add_recovered_htlc,
  add_limbo_stage1_success_htlc, add_limbo_stage1_timeout_htlc, report_output,
}

-- The output is stored as its state wants it, its witness is of a type that the nursery spends, and
-- its amount is not negative.
abbrev pub IsReportedKid : KidOutput → Type 0
IsReportedKid o =
    ((n : ℕ) × (o.breached.amt ≡ pos n))
    × ((o.breached.witness_type ≡ commitment_time_lock)
        ⊎ ((o.breached.witness_type ≡ htlc_accepted_success_second_level)
            ⊎ ((o.breached.witness_type ≡ htlc_offered_timeout_second_level)
                ⊎ (o.breached.witness_type ≡ htlc_offered_remote_timeout))))

abbrev pub IsSound : Prefix → Stored → Type 0
IsSound crib (baby b) = (n : ℕ) × (b.kid.breached.amt ≡ pos n)
IsSound crib (kid o) = ⊥
IsSound _ (kid o) = IsReportedKid o
IsSound _ (baby b) = ⊥

abbrev pub value_in : Stored → ℕ
value_in (kid o) = pos_part o.breached.amt
value_in (baby b) = pos_part b.kid.breached.amt

-- An output on the commitment of the remote party that waits for its confirmation, or one that
-- is not there at this stage.
abbrev pub is_hidden : Prefix → Stored → Bool
is_hidden pscl (kid o) =
    o.breached.witness_type == htlc_offered_remote_timeout
    || o.breached.witness_type == htlc_offered_timeout_second_level
is_hidden _ _ = false

abbrev pub limbo_share : Prefix → Stored → ℕ
limbo_share p v = if prefix_eqb p grad || is_hidden p v then 0 else value_in v

abbrev pub recovered_share : Prefix → Stored → ℕ
recovered_share p v = if prefix_eqb p grad then value_in v else 0

abbrev pub hidden_share : Prefix → Stored → ℕ
hidden_share p v = if is_hidden p v then value_in v else 0

-- A report with these balances.
pub record Balanced (limbo recovered : ℕ) (c : ContractMaturityReport) : Type 0 where
  pub limbo_balance : c.limbo_balance ≡ pos limbo
  pub recovered_balance : c.recovered_balance ≡ pos recovered

add64-known :
    (a b : ℤ) (m n : ℕ) → a ≡ pos m → b ≡ pos n → m + n < 2 ^ 63 → add64 a b ≡ pos (m + pos_part b)
add64-known a b m n e f h = rw (e, f) (add64_pos m n h)

-- What adding to one of the balances makes of both.
in_limbo :
    (hidden : Bool) (c d : ContractMaturityReport) (amt : ℤ) (l r n : ℕ)
    → amt ≡ pos n
    → Balanced l r c
    → l + (if hidden then 0 else pos_part amt) < 2 ^ 63
    → d.limbo_balance ≡ (if hidden then c.limbo_balance else add64 c.limbo_balance amt)
    → d.recovered_balance ≡ c.recovered_balance
    → Balanced (l + (if hidden then 0 else pos_part amt)) (r + 0) d
in_limbo true c d amt l r n e s h x y = record {
  limbo_balance = x ∙ s.limbo_balance ∙ ap pos (omega arith);
  recovered_balance = y ∙ s.recovered_balance ∙ ap pos (omega arith);
}
in_limbo false c d amt l r n e s h x y = record {
  limbo_balance =
      x
      ∙ add64-known c.limbo_balance amt l n s.limbo_balance e
          (subst (λ a. l + pos_part a < 2 ^ 63) e h);
  recovered_balance = y ∙ s.recovered_balance ∙ ap pos (omega arith);
}

in_recovered :
    (c d : ContractMaturityReport) (amt : ℤ) (l r n : ℕ)
    → amt ≡ pos n
    → Balanced l r c
    → r + pos_part amt < 2 ^ 63
    → d.limbo_balance ≡ c.limbo_balance
    → d.recovered_balance ≡ add64 c.recovered_balance amt
    → Balanced (l + 0) (r + pos_part amt) d
in_recovered c d amt l r n e s h x y = record {
  limbo_balance = x ∙ s.limbo_balance ∙ ap pos (omega arith);
  recovered_balance =
      y
      ∙ add64-known c.recovered_balance amt r n s.recovered_balance e
          (subst (λ a. r + pos_part a < 2 ^ 63) e h);
}

preschool_limbo :
    (o : KidOutput) (c : ContractMaturityReport)
    → IsReportedKid o
    → (report_preschool o c).limbo_balance
      ≡ (if is_hidden pscl (kid o) then c.limbo_balance else add64 c.limbo_balance o.breached.amt)
unfolding report_preschool add_limbo_commitment add_limbo_stage1_success_htlc
preschool_limbo o c i = ground arith

preschool_recovered :
    (o : KidOutput) (c : ContractMaturityReport)
    → (report_preschool o c).recovered_balance ≡ c.recovered_balance
unfolding report_preschool add_limbo_commitment add_limbo_stage1_success_htlc
preschool_recovered o c = ground arith

kinder_limbo :
    (o : KidOutput) (c : ContractMaturityReport)
    → IsReportedKid o
    → (report_kinder o c).limbo_balance ≡ add64 c.limbo_balance o.breached.amt
unfolding report_kinder add_limbo_commitment add_limbo_direct_htlc add_limbo_stage2_htlc
kinder_limbo o c i = ground arith

kinder_recovered :
    (o : KidOutput) (c : ContractMaturityReport)
    → (report_kinder o c).recovered_balance ≡ c.recovered_balance
unfolding report_kinder add_limbo_commitment add_limbo_direct_htlc add_limbo_stage2_htlc
kinder_recovered o c = ground arith

graduate_recovered :
    (o : KidOutput) (c : ContractMaturityReport)
    → IsReportedKid o
    → (report_graduate o c).recovered_balance ≡ add64 c.recovered_balance o.breached.amt
unfolding report_graduate add_recovered_commitment add_recovered_htlc
graduate_recovered o c i = ground arith

graduate_limbo :
    (o : KidOutput) (c : ContractMaturityReport)
    → (report_graduate o c).limbo_balance ≡ c.limbo_balance
unfolding report_graduate add_recovered_commitment add_recovered_htlc
graduate_limbo o c = ground arith

abbrev pub Adds : ContractMaturityReport → ℕ → ℕ → Prefix → Stored → Type 0
Adds c l r p v =
    (d : ContractMaturityReport) × (report_output p v c ≡ ok d)
    × Balanced (l + limbo_share p v) (r + recovered_share p v) d

pub report_output-Adds :
    (p : Prefix) (v : Stored) (c : ContractMaturityReport) (l r : ℕ)
    → IsSound p v
    → Balanced l r c
    → l + limbo_share p v < 2 ^ 63
    → r + recovered_share p v < 2 ^ 63
    → Adds c l r p v
unfolding report_output add_limbo_stage1_timeout_htlc
report_output-Adds crib (baby b) c l r (n, e) s h k = (
  add_limbo_stage1_timeout_htlc b c,
  refl,
  in_limbo false c (add_limbo_stage1_timeout_htlc b c) b.kid.breached.amt l r n e s h refl refl,
)
report_output-Adds pscl (kid o) c l r i s h k = (
  report_preschool o c,
  refl,
  in_limbo (is_hidden pscl (kid o)) c (report_preschool o c) o.breached.amt l r i.0.0 i.0.1 s h
      (preschool_limbo o c i) (preschool_recovered o c),
)
report_output-Adds kndr (kid o) c l r i s h k = (
  report_kinder o c,
  refl,
  in_limbo false c (report_kinder o c) o.breached.amt l r i.0.0 i.0.1 s h (kinder_limbo o c i)
      (kinder_recovered o c),
)
report_output-Adds grad (kid o) c l r i s h k = (
  report_graduate o c,
  refl,
  in_recovered c (report_graduate o c) o.breached.amt l r i.0.0 i.0.1 s k (graduate_limbo o c)
      (graduate_recovered o c i),
)
report_output-Adds crib (kid o) c l r i s h k = absurd i
report_output-Adds pscl (baby b) c l r i s h k = absurd i
report_output-Adds kndr (baby b) c l r i s h k = absurd i
report_output-Adds grad (baby b) c l r i s h k = absurd i
