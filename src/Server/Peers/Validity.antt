-- ===== src/Server/Peers/Validity.antt =====
-- What the server does to the indexes of its peers keeps them valid (lnd/server.go).
use lndmobile.Prelude.{
  ℕ, suc, ◌<◌, ◌==◌, ==_iff, ◌≡◌, ◌⊎◌, none, some, arith, ap, sym, ◌∙◌, if◌then◌else◌,
}
use lndmobile.Prelude.Assoc.{nat_eq, lookup, insert, delete, lookup-insert, lookup-delete}
use lndmobile.Wire.{Bytes, bytes_eq_iff, hash_eq}
use lndmobile.Server.Peers.{Peer, PeerIndex, forget, ignore, track}
use lndmobile.Server.Peers.Handlers.{end_watch, end_ignored}
use lndmobile.Server.Peers.Index.{
  Fits, IsValid, forget-peers, forget-live, forget-Fits, track-peers, track-Fits,
}

-- The parts of an index that a handler leaves as they are.
forget-watchers : (p : Peer) (x : PeerIndex) → (forget p x).watchers ≡ x.watchers
unfolding forget
forget-watchers p x = ground arith

forget-next_id : (p : Peer) (x : PeerIndex) → (forget p x).next_id ≡ x.next_id
unfolding forget
forget-next_id p x = ground arith

forget-ignored :
    (p : Peer) (x : PeerIndex) → (forget p x).ignore_peer_termination ≡ x.ignore_peer_termination
unfolding forget
forget-ignored p x = ground arith

-- A peer that is found is removed, and either ignored or no longer watched.
ignore-forget-Fits : (p : Peer) (x : PeerIndex) → Fits (forget p x) → Fits (ignore p (forget p x))
unfolding ignore
ignore-forget-Fits p x f = record { keyed = f.keyed; inbound = f.inbound; outbound = f.outbound }

live_forget :
    (p : Peer) (x : PeerIndex) (n : ℕ) (q : Peer)
    → lookup p.pub_str x.peers_by_pub ≡ some p
    → IsValid x
    → lookup n (forget p x).live ≡ some q
    → (lookup q.pub_str (forget p x).peers_by_pub ≡ some q) × (q.id ≡ n) × (n < x.next_id)
live_forget p x n q e v i = ground (
  arith,
  forget-live p x n,
  forget-peers p x q.pub_str,
  v.live_found n q,
  bytes_eq_iff p.pub_str q.pub_str,
  ==_iff p.id n,
)

numbered_forget :
    (p : Peer) (x : PeerIndex) (k : Bytes) (q : Peer)
    → IsValid x
    → lookup k (forget p x).peers_by_pub ≡ some q
    → q.id < (forget p x).next_id
numbered_forget p x k q v i =
    ground (arith, forget-peers p x k, forget-next_id p x, v.found_numbered k q)

watched_dropped :
    (p : Peer) (x : PeerIndex) (n : ℕ) (q : Peer)
    → lookup p.pub_str x.peers_by_pub ≡ some p
    → IsValid x
    → lookup n (forget p x).watchers ≡ some q
    → ((lookup q.pub_str (forget p x).peers_by_pub ≡ some q)
        ⊎ (lookup q.id (insert p.id tt (forget p x).ignore_peer_termination) ≡ some tt))
      × (q.id ≡ n)
watched_dropped p x n q e v i =
    let w : lookup n x.watchers ≡ some q = ap (lookup n) (sym (forget-watchers p x)) ∙ i in
    let g : lookup q.id (forget p x).ignore_peer_termination
        ≡ lookup q.id x.ignore_peer_termination =
      ap (lookup q.id) (forget-ignored p x) in
    ground (
      arith,
      w,
      g,
      forget-peers p x q.pub_str,
      lookup-insert p.id q.id tt (forget p x).ignore_peer_termination,
      v.watched_found n q,
      bytes_eq_iff p.pub_str q.pub_str,
      ==_iff p.id q.id,
    )

pub drop-IsValid :
    (p : Peer) (x : PeerIndex)
    → lookup p.pub_str x.peers_by_pub ≡ some p
    → IsValid x
    → IsValid (ignore p (forget p x))
unfolding ignore
drop-IsValid p x e v = record {
  fits = ignore-forget-Fits p x (forget-Fits p x e v.fits);
  live_found = λ n q i. ground (arith, live_forget p x n q e v i, forget-next_id p x);
  watched_found = λ n q i. watched_dropped p x n q e v i;
  found_numbered = λ k q i. numbered_forget p x k q v i;
}

pub drop_absent :
    (p : Peer) (x : PeerIndex) → lookup p.pub_str (ignore p (forget p x)).peers_by_pub ≡ none
unfolding ignore
drop_absent p x = ground (arith, forget-peers p x p.pub_str, bytes_eq_iff p.pub_str p.pub_str)

watched_ended :
    (p : Peer) (x : PeerIndex) (n : ℕ) (q : Peer)
    → lookup p.pub_str x.peers_by_pub ≡ some p
    → IsValid x
    → lookup n (delete p.id (forget p x).watchers) ≡ some q
    → ((lookup q.pub_str (forget p x).peers_by_pub ≡ some q)
        ⊎ (lookup q.id (forget p x).ignore_peer_termination ≡ some tt))
      × (q.id ≡ n)
watched_ended p x n q e v i =
    let w : lookup n (forget p x).watchers ≡ lookup n x.watchers =
      ap (lookup n) (forget-watchers p x) in
    let g : lookup q.id (forget p x).ignore_peer_termination
        ≡ lookup q.id x.ignore_peer_termination =
      ap (lookup q.id) (forget-ignored p x) in
    ground (
      arith,
      w,
      g,
      lookup-delete p.id n (forget p x).watchers,
      forget-peers p x q.pub_str,
      v.watched_found n q,
      bytes_eq_iff p.pub_str q.pub_str,
      ==_iff p.id n,
    )

pub end-IsValid :
    (p : Peer) (x : PeerIndex)
    → lookup p.pub_str x.peers_by_pub ≡ some p
    → IsValid x
    → IsValid (end_watch p (forget p x))
unfolding end_watch
end-IsValid p x e v =
    let f = forget-Fits p x e v.fits in
    record {
      fits = record { keyed = f.keyed; inbound = f.inbound; outbound = f.outbound };
      live_found = λ n q i. ground (arith, live_forget p x n q e v i, forget-next_id p x);
      watched_found = λ n q i. watched_ended p x n q e v i;
      found_numbered = λ k q i. numbered_forget p x k q v i;
    }

pub end_ignored-IsValid : (p : Peer) (x : PeerIndex) → IsValid x → IsValid (end_ignored p x)
unfolding end_ignored
end_ignored-IsValid p x v = record {
  fits = record { keyed = v.fits.keyed; inbound = v.fits.inbound; outbound = v.fits.outbound };
  live_found = v.live_found;
  watched_found = λ n q i. ground (
    arith,
    lookup-delete p.id n x.watchers,
    lookup-delete p.id q.id x.ignore_peer_termination,
    v.watched_found n q,
    ==_iff p.id n,
    ==_iff p.id q.id,
  );
  found_numbered = v.found_numbered;
}

-- A peer that ends by itself.
pub ended-IsValid :
    (m : ℕ) (x : PeerIndex) → IsValid x → IsValid (record x { live = delete m x.live })
ended-IsValid m x v = record {
  fits = record { keyed = v.fits.keyed; inbound = v.fits.inbound; outbound = v.fits.outbound };
  live_found = λ n q i. ground (arith, lookup-delete m n x.live, v.live_found n q);
  watched_found = v.watched_found;
  found_numbered = v.found_numbered;
}

track-watchers :
    (p : Peer) (x : PeerIndex) (n : ℕ)
    → lookup n (track p x).watchers ≡ (if p.id == n then some p else lookup n x.watchers)
unfolding track
track-watchers p x n = ground (arith, lookup-insert p.id n p x.watchers)

track-live :
    (p : Peer) (x : PeerIndex) (n : ℕ)
    → lookup n (track p x).live ≡ (if p.id == n then some p else lookup n x.live)
unfolding track
track-live p x n = ground (arith, lookup-insert p.id n p x.live)

track-next_id : (p : Peer) (x : PeerIndex) → (track p x).next_id ≡ suc x.next_id
unfolding track
track-next_id p x = ground arith

track-ignored :
    (p : Peer) (x : PeerIndex) → (track p x).ignore_peer_termination ≡ x.ignore_peer_termination
unfolding track
track-ignored p x = ground arith

-- A new peer, with a number of its own and a key that is not in use.
pub track-IsValid :
    (p : Peer) (x : PeerIndex)
    → lookup p.pub_str x.peers_by_pub ≡ none
    → p.id ≡ x.next_id
    → IsValid x
    → IsValid (track p x)
track-IsValid p x e d v = record {
  fits = track-Fits p x e v.fits;
  live_found = λ n q i. ground (
    arith,
    track-live p x n,
    track-peers p x q.pub_str,
    track-next_id p x,
    v.live_found n q,
    bytes_eq_iff p.pub_str q.pub_str,
    ==_iff p.id n,
  );
  watched_found = λ n q i.
      let g : lookup q.id (track p x).ignore_peer_termination
          ≡ lookup q.id x.ignore_peer_termination =
        ap (lookup q.id) (track-ignored p x) in
      ground (
        arith,
        g,
        track-watchers p x n,
        track-peers p x q.pub_str,
        v.watched_found n q,
        bytes_eq_iff p.pub_str q.pub_str,
        ==_iff p.id n,
      );
  found_numbered =
      λ k q i. ground (arith, track-peers p x k, track-next_id p x, v.found_numbered k q);
}
