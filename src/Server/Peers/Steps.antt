-- ===== src/Server/Peers/Steps.antt =====
-- Every handler keeps the indexes of the peers valid (lnd/server.go).
use lndmobile.Prelude.{
  ℕ, ◌≡◌, ◌⊎◌, inl, inr, Bool, true, false, not, ◌&&◌, ◌||◌, Option, none, some, List, [], ◌∷◌,
  refl, ap, sym, ◌∙◌, subst, Bool-cases, none≢some,
}
use lndmobile.Prelude.Assoc.{nat_eq, lookup}
use lndmobile.Wire.{Bytes, hash_eq}
use lndmobile.Server.Peers.{
  Peer, Server, forget, ignore, remove_peer, add_peer, cancel_conn_reqs, is_there,
  should_drop_local_connection,
}
use lndmobile.Server.Peers.Handlers.{
  Conn, peer_connected, drop_peer, accept_inbound, inbound_beside, inbound_peer_connected, give_up,
  id_of, outbound_beside, outbound_peer_connected, reconnect, end_watch, clean_up, watch_end,
  peer_termination_watcher, disconnect_found, disconnect_peer, connect_to_peer, notify_when_online,
}
use lndmobile.Server.Peers.Index.{IsValid}
use lndmobile.Server.Peers.Validity.{
  drop-IsValid, drop_absent, end-IsValid, end_ignored-IsValid, ended-IsValid, track-IsValid,
}
use lndmobile.Server.Peers.Actions.{
  Action, inbound_conn, outbound_conn, peer_ended, termination_seen, disconnect, connect_persistent,
  notify, serve, serve_all,
}

cancel_conn_reqs-index :
    (ids : ℕ → ℕ) (k : Bytes) (skip : Option ℕ) (s : Server)
    → (cancel_conn_reqs ids k skip s).index ≡ s.index
unfolding cancel_conn_reqs
cancel_conn_reqs-index ids k skip s = refl

drop_peer-index :
    (ids : ℕ → ℕ) (p : Peer) (s : Server) → (drop_peer ids p s).index ≡ ignore p (forget p s.index)
unfolding drop_peer remove_peer
drop_peer-index ids p s = refl

drop_peer-IsValid :
    (ids : ℕ → ℕ) (p : Peer) (s : Server)
    → lookup p.pub_str s.peers_by_pub ≡ some p
    → IsValid s.index
    → IsValid (drop_peer ids p s).index
drop_peer-IsValid ids p s e v =
    subst IsValid (sym (drop_peer-index ids p s)) (drop-IsValid p s.index e v)

drop_peer_absent :
    (ids : ℕ → ℕ) (p : Peer) (k : Bytes) (s : Server)
    → p.pub_str ≡ k
    → lookup k (drop_peer ids p s).peers_by_pub ≡ none
drop_peer_absent ids p k s e =
    subst (λ j. lookup j (drop_peer ids p s).peers_by_pub ≡ none) e
      (ap (λ x. lookup p.pub_str x.peers_by_pub) (drop_peer-index ids p s) ∙ drop_absent p s.index)

peer_connected-IsValid :
    (c : Conn) (req : Option ℕ) (inbound : Bool) (s : Server)
    → lookup c.remote_pub s.peers_by_pub ≡ none
    → IsValid s.index
    → IsValid (peer_connected c req inbound s).index
unfolding peer_connected add_peer
peer_connected-IsValid c req inbound s e v = elim (Bool-cases c.starts) [
  | inl b ↦ rw (b) (track-IsValid _ s.index e refl v)
  | inr b ↦ rw (b) v
]

accept_inbound-IsValid :
    (ids : ℕ → ℕ) (c : Conn) (s : Server)
    → lookup c.remote_pub s.peers_by_pub ≡ none
    → IsValid s.index
    → IsValid (accept_inbound ids c s).index
unfolding cancel_conn_reqs
accept_inbound-IsValid ids c s e v =
    peer_connected-IsValid c none false (cancel_conn_reqs ids c.remote_pub none s) e v

inbound_beside-IsValid :
    (ids : ℕ → ℕ) (c : Conn) (o : Option Peer) (s : Server)
    → lookup c.remote_pub s.peers_by_pub ≡ o
    → IsValid s.index
    → IsValid (inbound_beside ids c o s).index
inbound_beside-IsValid ids c none s e v = accept_inbound-IsValid ids c s e v
inbound_beside-IsValid ids c (some p) s e v =
    let key = v.fits.keyed c.remote_pub p e in
    let found = subst (λ k. lookup k s.peers_by_pub ≡ some p) (sym key) e in
    elim (Bool-cases (not (should_drop_local_connection s.identity c.remote_pub))) [
      | inl b ↦ rw (b) v
      | inr b ↦ rw (b) (
          accept_inbound-IsValid ids c (drop_peer ids p s)
            (drop_peer_absent ids p c.remote_pub s key) (drop_peer-IsValid ids p s found v))
    ]

inbound-IsValid :
    (ids : ℕ → ℕ) (c : Conn) (s : Server)
    → IsValid s.index
    → IsValid (inbound_peer_connected ids c s).index
unfolding inbound_peer_connected
inbound-IsValid ids c s v = elim (Bool-cases (is_there (lookup c.remote_pub s.inbound_peers))) [
  | inl b ↦ rw (b) v
  | inr b ↦ rw (b) (inbound_beside-IsValid ids c (lookup c.remote_pub s.peers_by_pub) s refl v)
]

give_up-index :
    (ids : ℕ → ℕ) (req : Option ℕ) (c : Conn) (s : Server) → (give_up ids req c s).index ≡ s.index
give_up-index ids none c s = refl
give_up-index ids (some r) c s = refl

give_up-IsValid :
    (ids : ℕ → ℕ) (req : Option ℕ) (c : Conn) (s : Server)
    → IsValid s.index
    → IsValid (give_up ids req c s).index
give_up-IsValid ids req c s v = subst IsValid (sym (give_up-index ids req c s)) v

outbound_beside-IsValid :
    (ids : ℕ → ℕ) (req : Option ℕ) (c : Conn) (o : Option Peer) (s : Server)
    → lookup c.remote_pub s.peers_by_pub ≡ o
    → IsValid s.index
    → IsValid (outbound_beside ids req c o s).index
outbound_beside-IsValid ids req c none s e v = peer_connected-IsValid c req true s e v
outbound_beside-IsValid ids req c (some p) s e v =
    let key = v.fits.keyed c.remote_pub p e in
    let found = subst (λ k. lookup k s.peers_by_pub ≡ some p) (sym key) e in
    elim (Bool-cases (should_drop_local_connection s.identity c.remote_pub)) [
      | inl b ↦ rw (b) (give_up-IsValid ids req c s v)
      | inr b ↦ rw (b) (
          peer_connected-IsValid c req true (drop_peer ids p s)
            (drop_peer_absent ids p c.remote_pub s key) (drop_peer-IsValid ids p s found v))
    ]

outbound-IsValid :
    (ids : ℕ → ℕ) (req : Option ℕ) (c : Conn) (s : Server)
    → IsValid s.index
    → IsValid (outbound_peer_connected ids req c s).index
unfolding outbound_peer_connected cancel_conn_reqs
outbound-IsValid ids req c s v =
    elim (Bool-cases (is_there (lookup c.remote_pub s.outbound_peers))) [
      | inl b ↦ rw (b) (give_up-IsValid ids req c s v)
      | inr b ↦
          elim (Bool-cases
            (not (is_there (lookup c.remote_pub s.persistent_conn_reqs)) && is_there req)) [
              | inl d ↦ rw (b, d) (give_up-IsValid ids req c s v)
              | inr d ↦
                  rw (b, d)
                    (outbound_beside-IsValid ids req c (lookup c.remote_pub s.peers_by_pub)
                      (cancel_conn_reqs ids c.remote_pub (id_of ids req) s) refl v)
            ]
    ]

reconnect-index :
    (fails : Bool) (req cancel : ℕ) (k : Bytes) (s : Server)
    → (reconnect fails req cancel k s).index ≡ s.index
unfolding reconnect
reconnect-index fails req cancel k s =
    elim (Bool-cases (
      not (is_there (lookup k s.persistent_peers)) || is_there (lookup k s.persistent_conn_reqs))) [
        | inl b ↦ rw (b) refl
        | inr b ↦ rw (b) refl
      ]

clean_up-IsValid :
    (ids : ℕ → ℕ) (fails : Bool) (req cancel : ℕ) (o : Option (Unit {0})) (p : Peer) (s : Server)
    → lookup p.id s.ignore_peer_termination ≡ o
    → (lookup p.pub_str s.peers_by_pub ≡ some p) ⊎ (lookup p.id s.ignore_peer_termination ≡ some tt)
    → IsValid s.index
    → IsValid (clean_up ids fails req cancel o p s).index
unfolding remove_peer
clean_up-IsValid ids fails req cancel (some u) p s e f v = end_ignored-IsValid p s.index v
clean_up-IsValid ids fails req cancel none p s e (inl f) v =
    subst (λ x. IsValid (end_watch p x))
      (sym (reconnect-index fails req cancel p.pub_str (remove_peer ids p s)))
      (end-IsValid p s.index f v)
clean_up-IsValid ids fails req cancel none p s e (inr f) v = absurd (none≢some (sym e ∙ f))

watch_end-IsValid :
    (ids : ℕ → ℕ) (fails : Bool) (req cancel n : ℕ) (o : Option Peer) (s : Server)
    → lookup n s.watchers ≡ o
    → IsValid s.index
    → IsValid (watch_end ids fails req cancel o s).index
watch_end-IsValid ids fails req cancel n none s e v = v
watch_end-IsValid ids fails req cancel n (some p) s e v =
    clean_up-IsValid ids fails req cancel (lookup p.id s.ignore_peer_termination) p s refl
      (v.watched_found n p e).0 v

disconnect_found-IsValid :
    (ids : ℕ → ℕ) (k : Bytes) (o : Option Peer) (s : Server)
    → lookup k s.peers_by_pub ≡ o
    → IsValid s.index
    → IsValid (disconnect_found ids k o s).index
unfolding cancel_conn_reqs
disconnect_found-IsValid ids k none s e v = v
disconnect_found-IsValid ids k (some p) s e v =
    drop_peer-IsValid ids p _
      (subst (λ j. lookup j s.peers_by_pub ≡ some p) (sym (v.fits.keyed k p e)) e) v

connect-index : (req : ℕ) (k : Bytes) (s : Server) → (connect_to_peer req k s).index ≡ s.index
unfolding connect_to_peer
connect-index req k s = elim (Bool-cases (is_there (lookup k s.peers_by_pub))) [
  | inl b ↦ rw (b) refl
  | inr b ↦ rw (b) refl
]

notify-index : (n : ℕ) (k : Bytes) (s : Server) → (notify_when_online n k s).index ≡ s.index
unfolding notify_when_online
notify-index n k s = elim (Bool-cases (is_there (lookup k s.peers_by_pub))) [
  | inl b ↦ rw (b) refl
  | inr b ↦ rw (b) refl
]

serve-IsValid : (a : Action) (s : Server) → IsValid s.index → IsValid (serve a s).index
unfolding serve peer_termination_watcher disconnect_peer
serve-IsValid (inbound_conn ids c) s v = inbound-IsValid ids c s v
serve-IsValid (outbound_conn ids req c) s v = outbound-IsValid ids req c s v
serve-IsValid (peer_ended n) s v = ended-IsValid n s.index v
serve-IsValid (termination_seen ids fails req cancel n) s v =
    watch_end-IsValid ids fails req cancel n (lookup n s.watchers) s refl v
serve-IsValid (disconnect ids k) s v =
    disconnect_found-IsValid ids k (lookup k s.peers_by_pub) s refl v
serve-IsValid (connect_persistent req k) s v = subst IsValid (sym (connect-index req k s)) v
serve-IsValid (notify n k) s v = subst IsValid (sym (notify-index n k s)) v

pub serve_all-IsValid :
    (actions : List Action) (s : Server) → IsValid s.index → IsValid (serve_all actions s).index
unfolding serve_all
serve_all-IsValid [] s v = v
serve_all-IsValid (a ∷ actions) s v = serve_all-IsValid actions (serve a s) (serve-IsValid a s v)
