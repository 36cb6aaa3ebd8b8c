-- ===== src/Server/Peers/Tests.antt =====
-- The server at concrete connections.
use lndmobile.Prelude.{
  ℕ, ◌≡◌, ◌≤◌, ◌<◌, ◌⊎◌, Bool, true, false, none, some, List, [], ◌∷◌, not, arith, refl,
}
use lndmobile.Prelude.Int.{pos}
use lndmobile.Prelude.Assoc.{nat_eq, lookup, insert, delete}
use lndmobile.Wire.{Bytes, hash_eq}
use lndmobile.Server.Backoff.{compute_next_backoff, longest, compute_next_backoff_grows}
use lndmobile.Server.Peers.{
  Peer, Server, greater, should_drop_local_connection, cancel_conn_reqs, add_peer, track, forget,
  ignore, remove_peer,
}
use lndmobile.Server.Peers.Handlers.{
  Conn, close_conn, peer_connected, drop_peer, inbound_peer_connected, outbound_peer_connected,
}
use lndmobile.Server.Peers.Actions.{Action, outbound_conn, serve, serve_all}
use lndmobile.Server.Peers.Single.{no_peers, serve_all_single}
use lndmobile.Server.Peers.TieBreak.{should_drop_one}
use lndmobile.Server.Peers.Crossing.{inbound_closed_beside_outbound}

backoff_example :
    (c : ℕ) × (compute_next_backoff false (pos 1000000000) ≡ some (pos c))
    × (5 ≤ c)
    × (c ≤ longest)
    × (Path Bool false false → (1000000000 < c) ⊎ (c ≡ longest))
backoff_example = compute_next_backoff_grows false 1000000000 (omega arith) (omega arith)

should_drop_one_example :
    should_drop_local_connection (2 ∷ 5 ∷ []) (2 ∷ 7 ∷ [])
    ≡ not (should_drop_local_connection (2 ∷ 7 ∷ []) (2 ∷ 5 ∷ []))
should_drop_one_example = (should_drop_one (2 ∷ 5 ∷ []) (2 ∷ 7 ∷ []) (λ e. ground arith)).2

abbrev node : Bytes
node = 2 ∷ 5 ∷ []

abbrev server : Server
server = record {
  index = no_peers;
  identity = 2 ∷ 3 ∷ [];
  peer_connected_listeners = [];
  persistent_peers = [];
  persistent_peers_backoff = [];
  persistent_conn_reqs = [];
  persistent_retry_cancels = [];
  events = [];
}

abbrev conn : ℕ → Conn
conn n = record { number = n; remote_pub = node; starts = true; initial_routing_sync = false }

-- A connection that we made gives way to a later one to the same node.
abbrev actions : List Action
actions = outbound_conn (λ r. r) none (conn 1) ∷ outbound_conn (λ r. r) none (conn 2) ∷ []

abbrev second : Peer
second = record {
  id = 1;
  pub_str = node;
  inbound = true;
  conn_req = none;
  initial_routing_sync = false;
}

second_live : lookup 1 (serve_all actions server).live ≡ some second
unfolding serve_all serve inbound_peer_connected outbound_peer_connected peer_connected add_peer
    track cancel_conn_reqs drop_peer remove_peer forget ignore should_drop_local_connection greater
    lookup insert delete
second_live = refl

serve_all_example :
    let t = serve_all actions server in
    (second ≡ second)
    × (Path ℕ 1 1)
    × (lookup node t.peers_by_pub ≡ some second)
    × (lookup node t.inbound_peers ≡ some second)
    × (lookup node t.outbound_peers ≡ none)
serve_all_example =
    serve_all_single actions server refl 1 1 second second second_live second_live refl

crossing_example :
    let s = outbound_peer_connected (λ r. r) none (conn 1) server in
    inbound_peer_connected (λ r. r) (conn 2) s ≡ close_conn (conn 2) s
unfolding lookup
crossing_example =
    inbound_closed_beside_outbound (λ r. r) none (conn 1) (conn 2) server refl refl (λ e. cc) refl
      refl
