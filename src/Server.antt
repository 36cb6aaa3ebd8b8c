-- ===== src/Server.antt =====
-- The server (lnd/server.go): the peers that it is connected to, and the requests that keep it
-- connected.
pub mod Backoff
pub mod Peers
