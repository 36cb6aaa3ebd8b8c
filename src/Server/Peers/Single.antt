-- ===== src/Server/Peers/Single.antt =====
-- The server keeps one connection to a node (lnd/server.go).
use lndmobile.Prelude.{
  ℕ, ◌≡◌, inl, inr, none, some, List, [], arith, ap, sym, ◌∙◌, subst, if◌then◌else◌, Bool-cases,
  Option-cases, none≢some, some_injective,
}
use lndmobile.Prelude.Assoc.{nat_eq, lookup}
use lndmobile.Wire.{hash_eq}
use lndmobile.Server.Peers.{Peer, PeerIndex, Server}
use lndmobile.Server.Peers.Index.{IsValid}
use lndmobile.Server.Peers.Actions.{Action, serve_all}
use lndmobile.Server.Peers.Steps.{serve_all-IsValid}

abbrev pub no_peers : PeerIndex
no_peers = record {
  peers_by_pub = [];
  inbound_peers = [];
  outbound_peers = [];
  ignore_peer_termination = [];
  watchers = [];
  live = [];
  next_id = 0;
}

no_peers-IsValid : IsValid no_peers
unfolding lookup
no_peers-IsValid = record {
  fits = record {
    keyed = λ k p e. absurd (none≢some e);
    inbound = λ k p. (λ e. absurd (none≢some e), λ e. absurd (none≢some e.0));
    outbound = λ k p. (λ e. absurd (none≢some e), λ e. absurd (none≢some e.0));
  };
  live_found = λ n p e. absurd (none≢some e);
  watched_found = λ n p e. absurd (none≢some e);
  found_numbered = λ k p e. absurd (none≢some e);
}

here :
    (x : PeerIndex)
    → IsValid x
    → (p : Peer) → lookup p.pub_str x.peers_by_pub ≡ some p
    → lookup p.pub_str (if p.inbound then x.inbound_peers else x.outbound_peers) ≡ some p
here x v p f = ground (arith, f, v.fits.inbound p.pub_str p, v.fits.outbound p.pub_str p)

elsewhere :
    (x : PeerIndex)
    → IsValid x
    → (p : Peer) → lookup p.pub_str x.peers_by_pub ≡ some p
    → lookup p.pub_str (if p.inbound then x.outbound_peers else x.inbound_peers) ≡ none
elsewhere x v p f = elim (Bool-cases p.inbound) [
  | inl b ↦ elim (Option-cases (lookup p.pub_str x.outbound_peers)) [
    | inl e ↦ ground (arith, e, b)
    | inr (q, e) ↦ ground (arith, f, v.fits.outbound p.pub_str q, e, b)
  ]
  | inr b ↦ elim (Option-cases (lookup p.pub_str x.inbound_peers)) [
    | inl e ↦ ground (arith, e, b)
    | inr (q, e) ↦ ground (arith, f, v.fits.inbound p.pub_str q, e, b)
  ]
]

single :
    (x : PeerIndex)
    → IsValid x
    → (m n : ℕ) (p q : Peer) → lookup m x.live ≡ some p
    → lookup n x.live ≡ some q
    → p.pub_str ≡ q.pub_str
    → (p ≡ q)
      × (m ≡ n)
      × (lookup p.pub_str x.peers_by_pub ≡ some p)
      × (lookup p.pub_str (if p.inbound then x.inbound_peers else x.outbound_peers) ≡ some p)
      × (lookup p.pub_str (if p.inbound then x.outbound_peers else x.inbound_peers) ≡ none)
single x v m n p q i j k =
    let (f, a, _) = v.live_found m p i in
    let (g, b, _) = v.live_found n q j in
    let same : p ≡ q = some_injective (sym f ∙ ap (λ y. lookup y x.peers_by_pub) k ∙ g) in
    (same, sym a ∙ ap (λ r. r.id) same ∙ b, f, here x v p f, elsewhere x v p f)

-- After any handlers in any order, from a server without peers, two peers of one public key that are
-- both connected are the same peer, and it is the one that is found under the key, in the index of its
-- direction and in no other.
pub serve_all_single :
    (actions : List Action) (s : Server)
    → s.index ≡ no_peers
    → let t = serve_all actions s in
      (m n : ℕ) (p q : Peer)
      → lookup m t.live ≡ some p
      → lookup n t.live ≡ some q
      → p.pub_str ≡ q.pub_str
      → (p ≡ q)
        × (m ≡ n)
        × (lookup p.pub_str t.peers_by_pub ≡ some p)
        × (lookup p.pub_str (if p.inbound then t.inbound_peers else t.outbound_peers) ≡ some p)
        × (lookup p.pub_str (if p.inbound then t.outbound_peers else t.inbound_peers) ≡ none)
serve_all_single actions s e m n p q i j k =
    let v = serve_all-IsValid actions s (subst IsValid (sym e) no_peers-IsValid) in
    single (serve_all actions s).index v m n p q i j k
