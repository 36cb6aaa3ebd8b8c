-- ===== src/Breach/Wallet.antt =====
-- What the breach arbiter and the nursery (lnd/breacharbiter.go, lnd/utxonursery.go) use of lnwallet and of btcd: the data of a breach,
-- the kinds of witness, and the calls, as a record. What the calls may change is one value of the
-- type `World`.
use lndmobile.Prelude.{ℕ, Bool, Option, List}
use lndmobile.Prelude.Int.{ℤ}
use lndmobile.Prelude.Exec.{Result, ok, err, Reply, value, failure, Exec}
use lndmobile.Wire.{Bytes, MsgTx, OutPoint}

-- lnwallet.HtlcRetribution; a sign descriptor is its serialisation.
pub record HtlcRetribution : Type 0 where
  pub sign_desc : Bytes
  pub out_point : OutPoint
  pub second_level_witness_script : Bytes
  pub is_incoming : Bool

-- The fields of lnwallet.BreachRetribution that are read.
pub record BreachRetribution : Type 0 where
  pub breach_transaction : MsgTx
  pub breach_height : ℕ
  pub chain_hash : Bytes
  pub local_output_sign_desc : Option Bytes
  pub local_outpoint : OutPoint
  pub remote_output_sign_desc : Option Bytes
  pub remote_outpoint : OutPoint
  pub htlc_retributions : List HtlcRetribution

-- Values of lnwallet.WitnessType.
abbrev pub commitment_time_lock : ℕ
commitment_time_lock = 0

abbrev pub commitment_no_delay : ℕ
commitment_no_delay = 1

abbrev pub commitment_revoke : ℕ
commitment_revoke = 2

abbrev pub htlc_offered_revoke : ℕ
htlc_offered_revoke = 3

abbrev pub htlc_accepted_revoke : ℕ
htlc_accepted_revoke = 4

abbrev pub htlc_offered_timeout_second_level : ℕ
htlc_offered_timeout_second_level = 5

abbrev pub htlc_accepted_success_second_level : ℕ
htlc_accepted_success_second_level = 6

abbrev pub htlc_offered_remote_timeout : ℕ
htlc_offered_remote_timeout = 7

abbrev pub htlc_second_level_revoke : ℕ
htlc_second_level_revoke = 9

-- wire.TxOut, wire.TxIn and wire.MsgTx, as far as the transactions that sweep outputs vary; their
-- version is 2.
pub record TxOut : Type 0 where
  pub value : ℤ
  pub pk_script : Bytes

pub record TxIn : Type 0 where
  pub previous_out_point : OutPoint
  pub sequence : ℕ
  pub witness : List Bytes

pub record Txn : Type 0 where
  pub lock_time : ℕ
  pub tx_out : List TxOut
  pub tx_in : List TxIn

pub record Wallet (World : Type 0) : Type 1 where
  pub gen_sweep_script : World → Reply Bytes × World
  pub estimate_fee_per_vsize : ℕ → World → Reply ℤ × World
  pub fee_for_vsize : ℤ → ℤ → ℤ
  -- lnwallet.TxWeightEstimator
  pub Estimator : Type 0
  pub no_weight : Estimator
  pub add_p2wkh_output : Estimator → Estimator
  pub add_witness_input : ℕ → Estimator → Estimator
  pub vsize : Estimator → ℤ
  pub p2wkh_witness_size : ℕ
  pub to_local_penalty_witness_size : ℕ
  pub offered_htlc_penalty_witness_size : ℕ
  pub accepted_htlc_penalty_witness_size : ℕ
  pub second_level_htlc_penalty_witness_size : ℕ
  pub to_local_timeout_witness_size : ℕ
  pub second_level_htlc_success_witness_size : ℕ
  pub accepted_htlc_timeout_witness_size : ℕ
  pub check_transaction_sanity : Txn → Reply (Unit {0})
  -- A witness of a type with a sign descriptor, for an input of a transaction.
  pub gen_witness : ℕ → Bytes → Txn → ℕ → World → Reply (List Bytes) × World
  pub tx_hash : MsgTx → Bytes
  -- Fields of a sign descriptor, and how they are set.
  pub output_value : Bytes → ℤ
  pub set_output_value : ℤ → Bytes → Bytes
  pub set_witness_script : Bytes → Bytes → Bytes

abbrev pub answered : {A World : Type 0} → Reply A × World → Result ℕ A × World
answered (value a, w) = (ok a, w)
answered (failure e, w) = (err e, w)

-- A call whose error the caller returns.
abbrev pub call : {A World : Type 0} → (World → Reply A × World) → Exec ℕ World A
call f w = answered (f w)
