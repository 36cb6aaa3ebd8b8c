-- ===== src/Server/Peers/Actions.antt =====
-- What may happen to a server (lnd/server.go), in any order.
use lndmobile.Prelude.{ℕ, Bool, Option, List, [], ◌∷◌}
use lndmobile.Prelude.Assoc.{nat_eq, delete}
use lndmobile.Wire.{Bytes, hash_eq}
use lndmobile.Server.Peers.{Server}
use lndmobile.Server.Peers.Handlers.{
  Conn, inbound_peer_connected, outbound_peer_connected, peer_termination_watcher, disconnect_peer,
  connect_to_peer, notify_when_online,
}

-- What may happen to a server; the numbers of requests and of channels are new ones.
pub data Action : Type 0 where
  inbound_conn : (ℕ → ℕ) → Conn → Action
  outbound_conn : (ℕ → ℕ) → Option ℕ → Conn → Action
  -- A peer is disconnected from outside.
  peer_ended : ℕ → Action
  termination_seen : (ℕ → ℕ) → Bool → ℕ → ℕ → ℕ → Action
  disconnect : (ℕ → ℕ) → Bytes → Action
  connect_persistent notify : ℕ → Bytes → Action

abbrev pub end_peer : ℕ → Server → Server
end_peer n s = record s { index = record s.index { live = delete n s.live } }

unfoldable pub serve : Action → Server → Server
unfolding inbound_peer_connected outbound_peer_connected peer_termination_watcher disconnect_peer
    connect_to_peer notify_when_online
serve (inbound_conn ids c) s = inbound_peer_connected ids c s
serve (outbound_conn ids req c) s = outbound_peer_connected ids req c s
serve (peer_ended n) s = end_peer n s
serve (termination_seen ids fails req cancel n) s =
    peer_termination_watcher ids fails req cancel n s
serve (disconnect ids k) s = disconnect_peer ids k s
serve (connect_persistent req k) s = connect_to_peer req k s
serve (notify listener k) s = notify_when_online listener k s

unfoldable pub serve_all : List Action → Server → Server
unfolding serve
serve_all [] s = s
serve_all (a ∷ actions) s = serve_all actions (serve a s)
