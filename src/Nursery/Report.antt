-- ===== src/Nursery/Report.antt =====
-- `NurseryReport` and the reports that it fills (lnd/utxonursery.go), over the store.
pub mod Balances
pub mod Shares
mod Tests
use lndmobile.Prelude.{ℕ, ◌==◌, ◌||◌, not, Option, none, some, List, [], ◌∷◌, ◌++◌, if◌then◌else◌}
use lndmobile.Prelude.Int.{ℤ, pos, add64}
use lndmobile.Prelude.Exec.{Result, ok, err, panic}
use lndmobile.Wire.{OutPoint}
use lndmobile.Bolt.{Bolt}
use lndmobile.Nursery.Output.{KidOutput, BabyOutput}
use lndmobile.Nursery.Store.{
  Prefix, crib, pscl, kndr, grad, PrefixKey, key_eq, Stored, kid, baby, Error,
  err_contract_not_found, malformed_output, ChannelBucket, Db,
}
use lndmobile.Nursery.Store.Buckets.{get_channel_bucket}
use lndmobile.Nursery.Store.Transitions.{add32}
use lndmobile.Breach.Wallet.{
  commitment_time_lock, htlc_offered_timeout_second_level, htlc_accepted_success_second_level,
  htlc_offered_remote_timeout,
}

pub record HtlcMaturityReport : Type 0 where
  pub outpoint : OutPoint
  pub amount : ℤ
  pub conf_height : ℕ
  pub maturity_requirement : ℕ
  pub maturity_height : ℕ
  pub stage : ℕ

pub record ContractMaturityReport : Type 0 where
  pub chan_point : OutPoint
  pub limbo_balance : ℤ
  pub recovered_balance : ℤ
  pub local_amount : ℤ
  pub conf_height : ℕ
  pub maturity_requirement : ℕ
  pub maturity_height : ℕ
  pub htlcs : List HtlcMaturityReport

abbrev pub amount : KidOutput → ℤ
amount o = o.breached.amt

-- The height stays as it is before the confirmation.
unfoldable pub add_limbo_commitment : KidOutput → ContractMaturityReport → ContractMaturityReport
add_limbo_commitment o c = record c {
  limbo_balance = add64 c.limbo_balance (amount o);
  local_amount = add64 c.local_amount (amount o);
  conf_height = o.conf_height;
  maturity_requirement = o.blocks_to_maturity;
  maturity_height =
      if not (o.conf_height == 0)
      then add32 o.blocks_to_maturity o.conf_height
      else c.maturity_height;
}

unfoldable pub add_recovered_commitment :
    KidOutput → ContractMaturityReport → ContractMaturityReport
add_recovered_commitment o c = record c {
  recovered_balance = add64 c.recovered_balance (amount o);
  local_amount = add64 c.local_amount (amount o);
  conf_height = o.conf_height;
  maturity_requirement = o.blocks_to_maturity;
  maturity_height = add32 o.blocks_to_maturity o.conf_height;
}

-- What every report of an HTLC has in common.
abbrev pub htlc_report : KidOutput → ℕ → ℕ → ℕ → HtlcMaturityReport
htlc_report o requirement height stage = record {
  outpoint = o.out_point;
  amount = amount o;
  conf_height = o.conf_height;
  maturity_requirement = requirement;
  maturity_height = height;
  stage = stage;
}

abbrev pub add_limbo_htlc :
    KidOutput → HtlcMaturityReport → ContractMaturityReport → ContractMaturityReport
add_limbo_htlc o h c = record c {
  limbo_balance = add64 c.limbo_balance (amount o);
  htlcs = c.htlcs ++ h ∷ [];
}

unfoldable pub add_limbo_stage1_timeout_htlc :
    BabyOutput → ContractMaturityReport → ContractMaturityReport
add_limbo_stage1_timeout_htlc b = add_limbo_htlc b.kid (htlc_report b.kid 0 b.expiry 1)

unfoldable pub add_limbo_direct_htlc : KidOutput → ContractMaturityReport → ContractMaturityReport
add_limbo_direct_htlc o = add_limbo_htlc o (htlc_report o 0 o.absolute_maturity 2)

unfoldable pub add_limbo_stage1_success_htlc :
    KidOutput → ContractMaturityReport → ContractMaturityReport
add_limbo_stage1_success_htlc o = add_limbo_htlc o (htlc_report o o.blocks_to_maturity 0 1)

unfoldable pub add_limbo_stage2_htlc : KidOutput → ContractMaturityReport → ContractMaturityReport
add_limbo_stage2_htlc o = add_limbo_htlc o (
    htlc_report o o.blocks_to_maturity
      (if not (o.conf_height == 0) then add32 o.conf_height o.blocks_to_maturity else 0) 2)

unfoldable pub add_recovered_htlc : KidOutput → ContractMaturityReport → ContractMaturityReport
add_recovered_htlc o c = record c {
  recovered_balance = add64 c.recovered_balance (amount o);
  htlcs =
      c.htlcs
      ++ htlc_report o o.blocks_to_maturity (add32 o.conf_height o.blocks_to_maturity) 0 ∷ [];
}

-- The switches on the type of the witness, for each state of an output.
unfoldable pub report_preschool : KidOutput → ContractMaturityReport → ContractMaturityReport
unfolding add_limbo_commitment add_limbo_stage1_success_htlc
report_preschool o c =
    let t = o.breached.witness_type in
    if t == commitment_time_lock
    then add_limbo_commitment o c
    else (if t == htlc_accepted_success_second_level then add_limbo_stage1_success_htlc o c else c)

unfoldable pub report_kinder : KidOutput → ContractMaturityReport → ContractMaturityReport
unfolding add_limbo_commitment add_limbo_direct_htlc add_limbo_stage2_htlc
report_kinder o c =
    let t = o.breached.witness_type in
    if t == commitment_time_lock
    then add_limbo_commitment o c
    else (if t == htlc_offered_remote_timeout
        then add_limbo_direct_htlc o c
        else (if t == htlc_accepted_success_second_level || t == htlc_offered_timeout_second_level
            then add_limbo_stage2_htlc o c
            else c))

unfoldable pub report_graduate : KidOutput → ContractMaturityReport → ContractMaturityReport
unfolding add_recovered_commitment add_recovered_htlc
report_graduate o c =
    let t = o.breached.witness_type in
    if t == commitment_time_lock
    then add_recovered_commitment o c
    else (if t == htlc_accepted_success_second_level
          || (t == htlc_offered_timeout_second_level || t == htlc_offered_remote_timeout)
        then add_recovered_htlc o c
        else c)

-- The callback of `ForChanOutputs`: a key of the crib has a baby output, the others have kid outputs.
unfoldable pub report_output :
    Prefix → Stored → ContractMaturityReport → Result Error ContractMaturityReport
unfolding add_limbo_stage1_timeout_htlc report_preschool report_kinder report_graduate
report_output crib (baby b) c = ok (add_limbo_stage1_timeout_htlc b c)
report_output pscl (kid o) c = ok (report_preschool o c)
report_output kndr (kid o) c = ok (report_kinder o c)
report_output grad (kid o) c = ok (report_graduate o c)
report_output _ _ c = err malformed_output

abbrev pub report_entry :
    Prefix → Option Stored → ContractMaturityReport → Result Error ContractMaturityReport
report_entry p none c = ok c
report_entry p (some v) c = report_output p v c

module _ (bolt : Bolt) where
  open bolt use {keys, get}

  unfoldable pub report_entries :
      ChannelBucket bolt
      → List PrefixKey
      → ContractMaturityReport
      → Result Error ContractMaturityReport
  report_entries b [] c = ok c
  report_entries b (k ∷ ks) c = elim (report_entry k.state (get k b) c) [
    | ok d ↦ report_entries b ks d
    | err e ↦ err e
    | panic ↦ panic
  ]

  abbrev pub empty_report : OutPoint → ContractMaturityReport
  empty_report cp = record {
    chan_point = cp;
    limbo_balance = pos 0;
    recovered_balance = pos 0;
    local_amount = pos 0;
    conf_height = 0;
    maturity_requirement = 0;
    maturity_height = 0;
    htlcs = [];
  }

  abbrev pub report_channel :
      OutPoint → Option (ChannelBucket bolt) → Result Error ContractMaturityReport
  report_channel cp none = err err_contract_not_found
  report_channel cp (some b) = report_entries b (keys b) (empty_report cp)

  unfoldable pub nursery_report : OutPoint → Db bolt → Result Error ContractMaturityReport
  unfolding get_channel_bucket report_entries
  nursery_report cp db = report_channel cp (get_channel_bucket bolt cp db)
