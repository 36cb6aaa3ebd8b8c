-- ===== src/ChanCloser.antt =====
-- The cooperative closing of a channel (lnd/chancloser.go).
pub mod Fee
pub mod External
pub mod State
pub mod Machine
pub mod Offers
pub mod Steps
pub mod Negotiation
pub mod Turns
pub mod Invariant
pub mod Protocol
pub mod Liveness
pub mod Broadcast
pub mod Lifecycle
mod Tests
