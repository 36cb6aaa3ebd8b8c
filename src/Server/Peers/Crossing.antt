-- ===== src/Server/Peers/Crossing.antt =====
-- Two nodes that connect to each other (lnd/server.go).
use lndmobile.Prelude.{
  ℕ, ◌≡◌, inl, inr, Option, true, none, some, arith, refl, sym, subst, Bool-cases,
}
use lndmobile.Prelude.Assoc.{nat_eq, lookup, lookup-insert}
use lndmobile.Wire.{bytes_eq_iff, hash_eq}
use lndmobile.Server.Peers.{Peer, Server, add_peer, cancel_conn_reqs, track, is_there}
use lndmobile.Server.Peers.Handlers.{
  Conn, close_conn, id_of, peer_connected, inbound_peer_connected, outbound_peer_connected,
}

inbound_closed :
    (ids : ℕ → ℕ) (c : Conn) (s : Server) (p : Peer)
    → lookup c.remote_pub s.inbound_peers ≡ some p
    → inbound_peer_connected ids c s ≡ close_conn c s
unfolding inbound_peer_connected
inbound_closed ids c s p e = rw (e) refl

add_peer_inbound :
    (p : Peer) (s : Server)
    → p.inbound ≡ true
    → lookup p.pub_str (add_peer p s).inbound_peers ≡ some p
unfolding add_peer track
add_peer_inbound p s e =
    ground
      (arith, lookup-insert p.pub_str p.pub_str p s.inbound_peers, bytes_eq_iff p.pub_str p.pub_str)

abbrev new_peer : Option ℕ → Conn → Server → Peer
new_peer req c s = record {
  id = s.next_id;
  pub_str = c.remote_pub;
  inbound = true;
  conn_req = req;
  initial_routing_sync = c.initial_routing_sync;
}

-- A request of the connection manager, if any, is for a node that it is to connect to.
abbrev pub IsWanted : Option ℕ → Conn → Server → Type 0
IsWanted req c s =
    is_there req ≡ true → is_there (lookup c.remote_pub s.persistent_conn_reqs) ≡ true

outbound_connects :
    (ids : ℕ → ℕ) (req : Option ℕ) (c : Conn) (s : Server)
    → c.starts ≡ true
    → IsWanted req c s
    → lookup c.remote_pub s.peers_by_pub ≡ none
    → lookup c.remote_pub s.outbound_peers ≡ none
    → outbound_peer_connected ids req c s
      ≡ add_peer (new_peer req c s) (cancel_conn_reqs ids c.remote_pub (id_of ids req) s)
unfolding outbound_peer_connected peer_connected cancel_conn_reqs
outbound_connects ids none c s a i e f =
    elim (Bool-cases (is_there (lookup c.remote_pub s.persistent_conn_reqs))) [
      | inl b ↦ rw (f, b, e, a) refl
      | inr b ↦ rw (f, b, e, a) refl
    ]
outbound_connects ids (some r) c s a i e f = rw (f, i refl, e, a) refl

-- A connection that we make to a node without one, on our own or for the connection manager, has its
-- peer in the index of the inbound peers, if the peer starts. So a connection that the node makes to
-- us at the same time is closed as a duplicate, whatever the two keys are: the tie-breaker has no
-- say.
pub inbound_closed_beside_outbound :
    (ids : ℕ → ℕ) (req : Option ℕ) (c d : Conn) (s : Server)
    → c.starts ≡ true
    → c.remote_pub ≡ d.remote_pub
    → IsWanted req c s
    → lookup c.remote_pub s.peers_by_pub ≡ none
    → lookup c.remote_pub s.outbound_peers ≡ none
    → let t = outbound_peer_connected ids req c s in inbound_peer_connected ids d t ≡ close_conn d t
inbound_closed_beside_outbound ids req c d s a k i e f =
    let p = new_peer req c s in
    let old = cancel_conn_reqs ids c.remote_pub (id_of ids req) s in
    let t = add_peer p old in
    let there = subst (λ j. lookup j t.inbound_peers ≡ some p) k (add_peer_inbound p old refl) in
    subst (λ x. inbound_peer_connected ids d x ≡ close_conn d x)
      (sym (outbound_connects ids req c s a i e f)) (inbound_closed ids d t p there)
