-- ===== src/Nursery.antt =====
-- The UTXO nursery (lnd/utxonursery.go, lnd/nursery_store.go).
pub mod Output
pub mod Store
pub mod Resolution
pub mod Sweep
pub mod Report
pub mod Incubator
