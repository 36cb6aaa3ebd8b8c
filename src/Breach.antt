-- ===== src/Breach.antt =====
-- The breach arbiter (lnd/breacharbiter.go).
pub mod Info
pub mod Codec
pub mod Store
pub mod Wallet
pub mod Justice
pub mod Chain
pub mod Spends
pub mod Retribution
pub mod Observers
pub mod Start
mod Tests
