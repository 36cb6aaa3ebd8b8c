-- ===== src/Server/Peers/Handlers.antt =====
-- The handlers of connections, of peers that end, and of requests (lnd/server.go).
use lndmobile.Prelude.{
  ℕ, Bool, true, false, not, ◌&&◌, ◌||◌, Option, none, some, [], ◌∷◌, ◌++◌, if◌then◌else◌,
}
use lndmobile.Prelude.Int.{ℤ}
use lndmobile.Prelude.Assoc.{nat_eq, lookup, insert, delete}
use lndmobile.Wire.{Bytes, hash_eq}
use lndmobile.Server.Backoff.{default_backoff, compute_next_backoff}
use lndmobile.Server.Peers.{
  Peer, PeerIndex, connection_closed, listener_told, request_removed, request_made, Server, emit,
  should_drop_local_connection, or_empty, is_there, remove_peer, ignore, add_peer, cancel_conn_reqs,
}

-- A connection to a node, whether its peer is made and starts, and what the peer says.
pub record Conn : Type 0 where
  pub number : ℕ
  pub remote_pub : Bytes
  pub starts : Bool
  pub initial_routing_sync : Bool

-- `peerConnected`. A peer that is not made, or that does not start, leaves no trace.
unfoldable pub peer_connected : Conn → Option ℕ → Bool → Server → Server
unfolding add_peer
peer_connected c conn_req inbound s =
    if c.starts
    then add_peer
        (record {
          id = s.next_id;
          pub_str = c.remote_pub;
          inbound = inbound;
          conn_req = conn_req;
          initial_routing_sync = c.initial_routing_sync;
        })
        s
    else s

abbrev pub close_conn : Conn → Server → Server
close_conn c = emit (connection_closed c.number ∷ [])

-- A stale peer is removed, and its watcher told to do nothing.
unfoldable pub drop_peer : (ℕ → ℕ) → Peer → Server → Server
unfolding remove_peer ignore
drop_peer ids p s = let t = remove_peer ids p s in record t { index = ignore p t.index }

abbrev pub accept_inbound : (ℕ → ℕ) → Conn → Server → Server
accept_inbound ids c s = peer_connected c none false (cancel_conn_reqs ids c.remote_pub none s)

abbrev pub inbound_beside : (ℕ → ℕ) → Conn → Option Peer → Server → Server
inbound_beside ids c none s = accept_inbound ids c s
inbound_beside ids c (some p) s =
    if not (should_drop_local_connection s.identity c.remote_pub)
    then close_conn c s
    else accept_inbound ids c (drop_peer ids p s)

-- `InboundPeerConnected`; the flag that it passes on for the new peer is `false`.
unfoldable pub inbound_peer_connected : (ℕ → ℕ) → Conn → Server → Server
unfolding peer_connected cancel_conn_reqs drop_peer should_drop_local_connection
inbound_peer_connected ids c s =
    if is_there (lookup c.remote_pub s.inbound_peers)
    then close_conn c s
    else inbound_beside ids c (lookup c.remote_pub s.peers_by_pub) s

-- The request of a connection that is given up.
abbrev pub give_up : (ℕ → ℕ) → Option ℕ → Conn → Server → Server
give_up ids none c s = close_conn c s
give_up ids (some r) c s = emit (request_removed (ids r) ∷ connection_closed c.number ∷ []) s

abbrev pub id_of : (ℕ → ℕ) → Option ℕ → Option ℕ
id_of ids none = none
id_of ids (some r) = some (ids r)

abbrev pub outbound_beside : (ℕ → ℕ) → Option ℕ → Conn → Option Peer → Server → Server
outbound_beside ids req c none s = peer_connected c req true s
outbound_beside ids req c (some p) s =
    if should_drop_local_connection s.identity c.remote_pub
    then give_up ids req c s
    else peer_connected c req true (drop_peer ids p s)

-- `OutboundPeerConnected`, with a request of the connection manager or without; the flag that it
-- passes on for the new peer is `true`.
unfoldable pub outbound_peer_connected : (ℕ → ℕ) → Option ℕ → Conn → Server → Server
unfolding peer_connected cancel_conn_reqs drop_peer should_drop_local_connection
outbound_peer_connected ids req c s =
    if is_there (lookup c.remote_pub s.outbound_peers)
    then give_up ids req c s
    else if not (is_there (lookup c.remote_pub s.persistent_conn_reqs)) && is_there req
    then give_up ids req c s
    else outbound_beside ids req c (lookup c.remote_pub s.peers_by_pub)
        (cancel_conn_reqs ids c.remote_pub (id_of ids req) s)

abbrev pub or_same : ℤ → Option ℤ → ℤ
or_same b none = b
or_same b (some d) = d

-- `nextPeerBackoff`, but for the panic of `rand.Int`, which needs a backoff below 5 nanoseconds.
unfoldable pub next_peer_backoff : Bool → Option ℤ → ℤ
unfolding compute_next_backoff
next_peer_backoff random_fails none = default_backoff
next_peer_backoff random_fails (some b) = or_same b (compute_next_backoff random_fails b)

abbrev pub retry_cancel : ℕ → Option ℕ → ℕ
retry_cancel fresh none = fresh
retry_cancel fresh (some c) = c

-- The new request to a persistent peer, with a channel to cancel it by.
unfoldable pub reconnect : Bool → ℕ → ℕ → Bytes → Server → Server
unfolding next_peer_backoff
reconnect random_fails req cancel k s =
    if not (is_there (lookup k s.persistent_peers)) || is_there (lookup k s.persistent_conn_reqs)
    then s
    else record s {
      persistent_conn_reqs = insert k (req ∷ []) s.persistent_conn_reqs;
      persistent_peers_backoff =
          insert k (next_peer_backoff random_fails (lookup k s.persistent_peers_backoff))
            s.persistent_peers_backoff;
      persistent_retry_cancels =
          insert k (retry_cancel cancel (lookup k s.persistent_retry_cancels))
            s.persistent_retry_cancels;
      events = s.events ++ request_made req ∷ [];
    }

-- The watcher of a peer ends.
unfoldable pub end_watch : Peer → PeerIndex → PeerIndex
end_watch p x = record x { watchers = delete p.id x.watchers }

unfoldable pub end_ignored : Peer → PeerIndex → PeerIndex
end_ignored p x = record x {
  ignore_peer_termination = delete p.id x.ignore_peer_termination;
  watchers = delete p.id x.watchers;
}

-- What `peerTerminationWatcher` does under the lock, and then it ends.
abbrev pub clean_up : (ℕ → ℕ) → Bool → ℕ → ℕ → Option (Unit {0}) → Peer → Server → Server
clean_up ids random_fails req cancel (some u) p s = record s { index = end_ignored p s.index }
clean_up ids random_fails req cancel none p s =
    let t = reconnect random_fails req cancel p.pub_str (remove_peer ids p s) in
    record t { index = end_watch p t.index }

abbrev pub watch_end : (ℕ → ℕ) → Bool → ℕ → ℕ → Option Peer → Server → Server
watch_end ids random_fails req cancel none s = s
watch_end ids random_fails req cancel (some p) s =
    clean_up ids random_fails req cancel (lookup p.id s.ignore_peer_termination) p s

unfoldable pub peer_termination_watcher : (ℕ → ℕ) → Bool → ℕ → ℕ → ℕ → Server → Server
unfolding remove_peer reconnect end_watch end_ignored
peer_termination_watcher ids random_fails req cancel n s =
    watch_end ids random_fails req cancel (lookup n s.watchers) s

-- `DisconnectPeer`, which fails for a peer that is not found.
abbrev pub disconnect_found : (ℕ → ℕ) → Bytes → Option Peer → Server → Server
disconnect_found ids k none s = s
disconnect_found ids k (some p) s =
    let t = cancel_conn_reqs ids k none s in
    drop_peer ids p (record t {
      persistent_peers = delete k t.persistent_peers;
      persistent_peers_backoff = delete k t.persistent_peers_backoff;
    })

unfoldable pub disconnect_peer : (ℕ → ℕ) → Bytes → Server → Server
unfolding cancel_conn_reqs drop_peer
disconnect_peer ids k s = disconnect_found ids k (lookup k s.peers_by_pub) s

abbrev pub or_default : Option ℤ → ℤ
or_default none = default_backoff
or_default (some b) = b

-- `ConnectToPeer` for a persistent connection, which fails for a peer that is connected.
unfoldable pub connect_to_peer : ℕ → Bytes → Server → Server
connect_to_peer req k s = if is_there (lookup k s.peers_by_pub) then s else record s {
  persistent_peers = insert k tt s.persistent_peers;
  persistent_peers_backoff =
      insert k (or_default (lookup k s.persistent_peers_backoff)) s.persistent_peers_backoff;
  persistent_conn_reqs =
      insert k (or_empty (lookup k s.persistent_conn_reqs) ++ req ∷ []) s.persistent_conn_reqs;
  events = s.events ++ request_made req ∷ [];
}

unfoldable pub notify_when_online : ℕ → Bytes → Server → Server
notify_when_online listener k s =
    if is_there (lookup k s.peers_by_pub) then emit (listener_told listener ∷ []) s else record s {
      peer_connected_listeners =
          insert k (or_empty (lookup k s.peer_connected_listeners) ++ listener ∷ [])
            s.peer_connected_listeners;
    }
