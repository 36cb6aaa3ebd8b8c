-- ===== src/Breach/Info.antt =====
-- What is known of a breached channel (`retributionInfo` of lnd/breacharbiter.go).
use lndmobile.Prelude.{ℕ, List}
use lndmobile.Wire.{Bytes, OutPoint}
use lndmobile.Nursery.Output.{BreachedOutput}

pub record RetributionInfo : Type 0 where
  pub commit_hash : Bytes
  pub chan_point : OutPoint
  pub chain_hash : Bytes
  pub breach_height : ℕ
  pub breached_outputs : List BreachedOutput
