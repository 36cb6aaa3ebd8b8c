-- ===== src/Server/Peers/Index.antt =====
-- The indexes of the peers fit together (lnd/server.go).
use lndmobile.Prelude.{
  ℕ, ◌<◌, ◌==◌, ◌≡◌, ◌↔◌, ◌⊎◌, ◌&&◌, not, Bool, true, false, none, some, arith, if◌then◌else◌,
}
use lndmobile.Prelude.Assoc.{nat_eq, lookup, lookup-insert, lookup-delete}
use lndmobile.Wire.{Bytes, bytes_eq, bytes_eq_iff, hash_eq}
use lndmobile.Server.Peers.{Peer, PeerIndex, forget, track}

-- A peer is found under its key, in the index of its direction and in no other.
pub record Fits (x : PeerIndex) : Type 0 where
  pub keyed : (k : Bytes) (p : Peer) → lookup k x.peers_by_pub ≡ some p → p.pub_str ≡ k
  pub inbound :
      (k : Bytes) (p : Peer)
      → (lookup k x.inbound_peers ≡ some p)
        ↔ ((lookup k x.peers_by_pub ≡ some p) × (p.inbound ≡ true))
  pub outbound :
      (k : Bytes) (p : Peer)
      → (lookup k x.outbound_peers ≡ some p)
        ↔ ((lookup k x.peers_by_pub ≡ some p) × (p.inbound ≡ false))

-- Every peer that is connected is found; every peer that is watched is found or ignored; the numbers
-- of peers are not used twice.
pub record IsValid (x : PeerIndex) : Type 0 where
  pub fits : Fits x
  pub live_found :
      (n : ℕ) (p : Peer)
      → lookup n x.live ≡ some p
      → (lookup p.pub_str x.peers_by_pub ≡ some p) × (p.id ≡ n) × (n < x.next_id)
  pub watched_found :
      (n : ℕ) (p : Peer)
      → lookup n x.watchers ≡ some p
      → ((lookup p.pub_str x.peers_by_pub ≡ some p)
          ⊎ (lookup p.id x.ignore_peer_termination ≡ some tt))
        × (p.id ≡ n)
  pub found_numbered : (k : Bytes) (p : Peer) → lookup k x.peers_by_pub ≡ some p → p.id < x.next_id

abbrev pub at : Peer → Bytes → Bool
at p k = bytes_eq p.pub_str k

pub forget-peers :
    (p : Peer) (x : PeerIndex) (k : Bytes)
    → lookup k (forget p x).peers_by_pub ≡ (if at p k then none else lookup k x.peers_by_pub)
unfolding forget
forget-peers p x k = ground (arith, lookup-delete p.pub_str k x.peers_by_pub)

forget-inbound :
    (p : Peer) (x : PeerIndex) (k : Bytes)
    → lookup k (forget p x).inbound_peers
      ≡ (if p.inbound && at p k then none else lookup k x.inbound_peers)
unfolding forget
forget-inbound p x k = ground (arith, lookup-delete p.pub_str k x.inbound_peers)

forget-outbound :
    (p : Peer) (x : PeerIndex) (k : Bytes)
    → lookup k (forget p x).outbound_peers
      ≡ (if not p.inbound && at p k then none else lookup k x.outbound_peers)
unfolding forget
forget-outbound p x k = ground (arith, lookup-delete p.pub_str k x.outbound_peers)

pub forget-live :
    (p : Peer) (x : PeerIndex) (n : ℕ)
    → lookup n (forget p x).live ≡ (if p.id == n then none else lookup n x.live)
unfolding forget
forget-live p x n = ground (arith, lookup-delete p.id n x.live)

pub forget-Fits :
    (p : Peer) (x : PeerIndex)
    → lookup p.pub_str x.peers_by_pub ≡ some p
    → Fits x
    → Fits (forget p x)
forget-Fits p x e f = record {
  keyed = λ k q i. ground (arith, forget-peers p x k, f.keyed k q);
  inbound = λ k q. ground (
    arith,
    forget-peers p x k,
    forget-inbound p x k,
    f.inbound k q,
    f.inbound k p,
    bytes_eq_iff p.pub_str k,
  );
  outbound = λ k q. ground (
    arith,
    forget-peers p x k,
    forget-outbound p x k,
    f.outbound k q,
    f.outbound k p,
    bytes_eq_iff p.pub_str k,
  );
}

pub track-peers :
    (p : Peer) (x : PeerIndex) (k : Bytes)
    → lookup k (track p x).peers_by_pub ≡ (if at p k then some p else lookup k x.peers_by_pub)
unfolding track
track-peers p x k = ground (arith, lookup-insert p.pub_str k p x.peers_by_pub)

track-inbound :
    (p : Peer) (x : PeerIndex) (k : Bytes)
    → lookup k (track p x).inbound_peers
      ≡ (if p.inbound && at p k then some p else lookup k x.inbound_peers)
unfolding track
track-inbound p x k = ground (arith, lookup-insert p.pub_str k p x.inbound_peers)

track-outbound :
    (p : Peer) (x : PeerIndex) (k : Bytes)
    → lookup k (track p x).outbound_peers
      ≡ (if not p.inbound && at p k then some p else lookup k x.outbound_peers)
unfolding track
track-outbound p x k = ground (arith, lookup-insert p.pub_str k p x.outbound_peers)

pub track-Fits :
    (p : Peer) (x : PeerIndex) → lookup p.pub_str x.peers_by_pub ≡ none → Fits x → Fits (track p x)
track-Fits p x e f = record {
  keyed = λ k q i. ground (arith, track-peers p x k, f.keyed k q, bytes_eq_iff p.pub_str k);
  inbound = λ k q.
      ground
        (arith, track-peers p x k, track-inbound p x k, f.inbound k q, bytes_eq_iff p.pub_str k);
  outbound = λ k q.
      ground
        (arith, track-peers p x k, track-outbound p x k, f.outbound k q, bytes_eq_iff p.pub_str k);
}
