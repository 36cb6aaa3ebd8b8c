-- ===== src/Server/Peers.antt =====
-- The peers of a server and the connections to them (lnd/server.go), by what the handlers do under
-- the lock while the server is not shutting down. A public key is its serialisation. Peers, requests,
-- connections and channels are numbers; what `ID()` answers for the requests is an argument.
pub mod Handlers
pub mod Index
pub mod Validity
pub mod Actions
pub mod Steps
pub mod TieBreak
pub mod Crossing
pub mod Single
mod Tests
use lndmobile.Prelude.{
  ℕ, suc, ltb, ◌==◌, Bool, true, false, ◌||◌, not, Option, none, some, List, [], ◌∷◌, ◌++◌,
  if◌then◌else◌,
}
use lndmobile.Prelude.Int.{ℤ}
use lndmobile.Prelude.Assoc.{nat_eq, lookup, insert, delete}
use lndmobile.Wire.{Bytes, hash_eq}

-- The fields of `peer` that the server reads.
pub record Peer : Type 0 where
  pub id : ℕ
  pub pub_str : Bytes
  pub inbound : Bool
  pub conn_req : Option ℕ
  pub initial_routing_sync : Bool

-- The indexes of the server, with its goroutines that wait for the end of a peer, and the peers that
-- are started and not disconnected.
pub record PeerIndex : Type 0 where
  pub peers_by_pub : List (Bytes × Peer)
  pub inbound_peers : List (Bytes × Peer)
  pub outbound_peers : List (Bytes × Peer)
  pub ignore_peer_termination : List (ℕ × Unit {0})
  pub watchers : List (ℕ × Peer)
  pub live : List (ℕ × Peer)
  pub next_id : ℕ

-- What other parts see.
pub data Event : Type 0 where
  connection_closed retry_cancelled listener_told request_removed request_made : ℕ → Event
  synchronized : Bytes → Event

pub record Server : Type 0 where
  pub index : PeerIndex
  pub open index use *
  pub identity : Bytes
  pub peer_connected_listeners : List (Bytes × List ℕ)
  pub persistent_peers : List (Bytes × Unit {0})
  pub persistent_peers_backoff : List (Bytes × ℤ)
  pub persistent_conn_reqs : List (Bytes × List ℕ)
  pub persistent_retry_cancels : List (Bytes × ℕ)
  pub events : List Event

abbrev pub emit : List Event → Server → Server
emit es s = record s { events = s.events ++ es }

-- `bytes.Compare(a, b) > 0`
unfoldable pub greater : Bytes → Bytes → Bool
greater [] bs = false
greater (a ∷ xs) [] = true
greater (a ∷ xs) (b ∷ ys) = let rest = greater xs ys in if a == b then rest else ltb b a

unfoldable pub should_drop_local_connection : Bytes → Bytes → Bool
unfolding greater
should_drop_local_connection local remote = greater local remote

abbrev pub or_empty : Option (List ℕ) → List ℕ
or_empty none = []
or_empty (some ns) = ns

abbrev pub is_there : {A : Type 0} → Option A → Bool
is_there none = false
is_there (some a) = true

-- `delete` of the map that the peer is in.
abbrev pub leave : Peer → PeerIndex → PeerIndex
leave p x =
    if p.inbound
    then record x { inbound_peers = delete p.pub_str x.inbound_peers }
    else record x { outbound_peers = delete p.pub_str x.outbound_peers }

unfoldable pub forget : Peer → PeerIndex → PeerIndex
forget p x =
    leave p (record x { peers_by_pub = delete p.pub_str x.peers_by_pub; live = delete p.id x.live })

abbrev pub request_events : (ℕ → ℕ) → Option ℕ → List Event
request_events ids none = []
request_events ids (some r) = request_removed (ids r) ∷ []

-- `removePeer`
unfoldable pub remove_peer : (ℕ → ℕ) → Peer → Server → Server
unfolding forget
remove_peer ids p s = emit (request_events ids p.conn_req) (record s { index = forget p s.index })

-- A peer that is removed, and whose watcher has nothing to do.
unfoldable pub ignore : Peer → PeerIndex → PeerIndex
ignore p x = record x { ignore_peer_termination = insert p.id tt x.ignore_peer_termination }

abbrev pub enter : Peer → PeerIndex → PeerIndex
enter p x =
    if p.inbound
    then record x { inbound_peers = insert p.pub_str p x.inbound_peers }
    else record x { outbound_peers = insert p.pub_str p x.outbound_peers }

unfoldable pub track : Peer → PeerIndex → PeerIndex
track p x = enter p (record x {
  peers_by_pub = insert p.pub_str p x.peers_by_pub;
  watchers = insert p.id p x.watchers;
  live = insert p.id p x.live;
  next_id = suc x.next_id;
})

unfoldable pub tell : List ℕ → List Event
tell [] = []
tell (n ∷ ns) = listener_told n ∷ tell ns

-- `addPeer`
unfoldable pub add_peer : Peer → Server → Server
unfolding track tell
add_peer p s =
    emit
      ((if p.initial_routing_sync then synchronized p.pub_str ∷ [] else [])
        ++ tell (or_empty (lookup p.pub_str s.peer_connected_listeners)))
      (record s {
        index = track p s.index;
        peer_connected_listeners = delete p.pub_str s.peer_connected_listeners;
      })

-- The requests that `cancelConnReqs` removes: those that were submitted, but for one.
unfoldable pub removals : (ℕ → ℕ) → Option ℕ → List ℕ → List Event
removals ids skip [] = []
removals ids skip (r ∷ rs) =
    let rest = removals ids skip rs in
    if ids r == 0 || elim skip [ none ↦ false | some k ↦ ids r == k ]
    then rest
    else request_removed (ids r) ∷ rest

abbrev pub cancel_retry : Option ℕ → List Event
cancel_retry none = []
cancel_retry (some c) = retry_cancelled c ∷ []

-- `cancelConnReqs`
unfoldable pub cancel_conn_reqs : (ℕ → ℕ) → Bytes → Option ℕ → Server → Server
unfolding removals
cancel_conn_reqs ids k skip s =
    emit
      (cancel_retry (lookup k s.persistent_retry_cancels)
        ++ removals ids skip (or_empty (lookup k s.persistent_conn_reqs)))
      (record s {
        persistent_retry_cancels = delete k s.persistent_retry_cancels;
        persistent_conn_reqs = delete k s.persistent_conn_reqs;
      })
