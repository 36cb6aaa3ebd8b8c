-- ===== src/Nursery/Output.antt =====
-- The outputs that the nursery incubates (the types of lnd/utxonursery.go, and the embedded
-- `breachedOutput` of lnd/breacharbiter.go). A sign descriptor is its serialisation. The witness
-- generator, a closure that is built from the other fields, is left out.
pub mod Codec
mod Tests
use lndmobile.Prelude.{ℕ, Bool}
use lndmobile.Prelude.Int.{ℤ}
use lndmobile.Wire.{Bytes, MsgTx, OutPoint}

pub record BreachedOutput : Type 0 where
  pub amt : ℤ
  pub out_point : OutPoint
  pub witness_type : ℕ
  pub sign_desc : Bytes
  pub second_level_witness_script : Bytes

-- Heights and delays are `uint32`.
pub record KidOutput : Type 0 where
  pub breached : BreachedOutput
  pub open breached use {out_point}
  pub origin_chan_point : OutPoint
  pub is_htlc : Bool
  pub blocks_to_maturity : ℕ
  pub absolute_maturity : ℕ
  pub conf_height : ℕ

pub record BabyOutput : Type 0 where
  pub expiry : ℕ
  pub timeout_tx : MsgTx
  pub kid : KidOutput
