-- ===== src/Breach/Retribution/Rounds.antt =====
-- The rounds of `exactRetribution` (lnd/breacharbiter.go): how often its `goto` is taken.
use lndmobile.Prelude.{
  Bool, true, ℕ, zero, suc, ◌+◌, ◌≤◌, ◌≡◌, false, Option, none, some, List, [], ◌∷◌, ◌++◌, arith,
  refl, ap, sym, ◌⊎◌, inl, inr, none≢some,
}
use lndmobile.Prelude.Exec.{Result, ok, err, panic}
use lndmobile.Wire.{MsgTx, out_point_eq}
use lndmobile.Bolt.{Bolt}
use lndmobile.Codec.{WireCodec}
use lndmobile.Nursery.Output.{BreachedOutput}
use lndmobile.Breach.Wallet.{Wallet, Txn}
use lndmobile.Breach.Justice.{create_justice_tx}
use lndmobile.Breach.Store.{Error, get_finalized_txn}
use lndmobile.Breach.Chain.{Event, published, Publication, accepted, double_spend, refused, Chain}
use lndmobile.Breach.Spends.{Checked, check_outputs}
use lndmobile.Breach.Spends.Converted.{AllConverted, check_outputs-AllConverted}
use lndmobile.Breach.Spends.Counts.{
  htlcs, conversions, publications, idle_rounds, publications_bound, conversions-append,
  publications-append, none_published, check_outputs-Counted,
}
use lndmobile.Breach.Retribution.{
  Next, done, again, Scene, Steps, after_finalize, persist, after_check, prepare, after_publish,
  broadcast, attempt, go_on, set_world, attempts, resume, start, exact_retribution,
}
use lndmobile.Breach.Retribution.Order.{after_register-Orderly}

module _ {World : Type 0} (bolt : Bolt) (codec : WireCodec) (wallet : Wallet World)
    (chain : Chain World) where
  -- What a preparation that leads to a broadcast has counted.
  abbrev Prepared : Steps bolt codec wallet chain (Option MsgTx) → ℕ → Type 0
  Prepared p n =
      (publications p.events ≡ 0) × (conversions p.events + htlcs p.scene.info.breached_outputs ≡ n)

  after_finalize-Prepared :
      (s : Scene bolt codec wallet chain) (tx : MsgTx) (r : Bool × World)
      → let p = after_finalize bolt codec wallet chain s tx r in
        (publications p.events ≡ 0)
        × (conversions p.events ≡ 0)
        × (p.scene.info.breached_outputs ≡ s.info.breached_outputs)
  unfolding after_finalize
  after_finalize-Prepared s tx (true, w) = (refl, refl, refl)
  after_finalize-Prepared s tx (false, w) = (refl, refl, refl)

  persist-Prepared :
      (s : Scene bolt codec wallet chain) (r : Result ℕ Txn × World)
      → let p = persist bolt codec wallet chain s r in
        (publications p.events ≡ 0)
        × (conversions p.events ≡ 0)
        × (p.scene.info.breached_outputs ≡ s.info.breached_outputs)
  unfolding persist
  persist-Prepared s (ok txn, w) = after_finalize-Prepared s (chain.serialize txn) (chain.commits w)
  persist-Prepared s (err _, w) = (refl, refl, refl)
  persist-Prepared s (panic, w) = (refl, refl, refl)

  after_check-Prepared :
      (s : Scene bolt codec wallet chain) (c : Checked wallet chain (List BreachedOutput))
      (f : Option (List BreachedOutput)) (n : ℕ) (tx : MsgTx)
      → AllConverted c.events
      → ((os : List BreachedOutput) → f ≡ some os → conversions c.events + htlcs os ≡ n)
      → (after_check bolt codec wallet chain s c f).outcome ≡ some tx
      → Prepared (after_check bolt codec wallet chain s c f) n
  unfolding after_check
  after_check-Prepared s c none n tx a g e = absurd (none≢some e)
  after_check-Prepared s c (some os) n tx a g e =
      let info = record s.info { breached_outputs = os } in
      let s' = record s { info = info; watch = c.watch } in
      let r = create_justice_tx wallet info c.watch.world in
      let (p, k, same) = persist-Prepared s' r in
      let es = (persist bolt codec wallet chain s' r).events in
      (
        omega (arith, publications-append c.events es, none_published c.events a, p),
        omega (arith, conversions-append c.events es, k, g os refl, ap htlcs same),
      )

  prepare-Prepared :
      (x : Option MsgTx) (s : Scene bolt codec wallet chain) (tx : MsgTx)
      → (prepare bolt codec wallet chain x s).outcome ≡ some tx
      → Prepared (prepare bolt codec wallet chain x s) (htlcs s.info.breached_outputs)
  unfolding prepare
  prepare-Prepared (some y) s tx e = (refl, omega arith)
  prepare-Prepared none s tx e =
      let os = s.info.breached_outputs in
      let height = s.info.breach_height in
      let c = check_outputs wallet chain height os s.watch in
      after_check-Prepared s c c.found (htlcs os) tx
        (check_outputs-AllConverted wallet chain height os s.watch)
        (λ os' f. check_outputs-Counted wallet chain height os os' s.watch f) e

  -- A refused broadcast changes nothing.
  abbrev Refused : Steps bolt codec wallet chain Next → Scene bolt codec wallet chain → Type 0
  Refused a s = (a.events ≡ []) × (a.scene.info ≡ s.info)

  done≢again : {n : Next} → n ≡ done → n ≡ again → ⊥
  done≢again e f = cc

  after_publish-Refused :
      (height : ℕ) (tx : MsgTx) (s : Scene bolt codec wallet chain) (r : Publication × World)
      → (after_publish bolt codec wallet chain height tx s r).outcome ≡ again
      → Refused (after_publish bolt codec wallet chain height tx s r) s
  unfolding after_publish
  after_publish-Refused height tx s (double_spend, w) e = (refl, refl)
  after_publish-Refused height tx s (accepted, w) e = absurd (
      done≢again
        (after_register-Orderly bolt codec wallet chain tx (set_world bolt codec wallet chain w s)
          (chain.register_confirmations_ntfn (wallet.tx_hash tx) height w)).1
        e)
  after_publish-Refused height tx s (refused, w) e = absurd (
      done≢again
        (after_register-Orderly bolt codec wallet chain tx (set_world bolt codec wallet chain w s)
          (chain.register_confirmations_ntfn (wallet.tx_hash tx) height w)).1
        e)

  -- What a round counts that ends in a refused broadcast.
  abbrev Round : List Event → Scene bolt codec wallet chain → ℕ → Type 0
  Round es s n = (publications es ≡ 1) × (conversions es + htlcs s.info.breached_outputs ≡ n)

  broadcast-Round :
      (height : ℕ) (p : Steps bolt codec wallet chain (Option MsgTx)) (x : Option MsgTx) (n : ℕ)
      → ((tx : MsgTx) → x ≡ some tx → Prepared p n)
      → let b = broadcast bolt codec wallet chain height p.scene x in
        b.outcome ≡ again → Round (p.events ++ b.events) b.scene n
  unfolding broadcast
  broadcast-Round height p none n h e = absurd (done≢again refl e)
  broadcast-Round height p (some tx) n h e =
      let r = chain.publish_transaction tx p.scene.watch.world in
      let (empty, same) = after_publish-Refused height tx p.scene r e in
      let es = published tx ∷ (after_publish bolt codec wallet chain height tx p.scene r).events in
      let (q, k) = h tx refl in
      (
        omega (arith, publications-append p.events es, q, ap publications empty),
        omega (
          arith,
          conversions-append p.events es,
          k,
          ap conversions empty,
          ap (λ i. htlcs i.breached_outputs) same,
        ),
      )

  attempt-Round :
      (height : ℕ) (x : Option MsgTx) (s : Scene bolt codec wallet chain)
      → let a = attempt bolt codec wallet chain height x s in
        a.outcome ≡ again → Round a.events a.scene (htlcs s.info.breached_outputs)
  unfolding attempt
  attempt-Round height x s e =
      let p = prepare bolt codec wallet chain x s in
      broadcast-Round height p p.outcome (htlcs s.info.breached_outputs)
        (λ tx f. prepare-Prepared x s tx f) e

  -- What rounds count that all end in a refused broadcast.
  abbrev Rounds : ℕ → Steps bolt codec wallet chain Next → ℕ → Type 0
  Rounds fuel a n = (publications a.events ≡ fuel) × (conversions a.events ≤ n)

  go_on-Rounds :
      (fuel : ℕ) (a : Steps bolt codec wallet chain Next) (x : Next)
      (rest : Steps bolt codec wallet chain Next) (n : ℕ)
      → (x ≡ again → Round a.events a.scene n)
      → (rest.outcome ≡ again → Rounds fuel rest (htlcs a.scene.info.breached_outputs))
      → (x ≡ a.outcome)
      → (go_on bolt codec wallet chain a x rest).outcome ≡ again
      → Rounds (suc fuel) (go_on bolt codec wallet chain a x rest) n
  go_on-Rounds fuel a done rest n h g k e = absurd (done≢again (sym k) e)
  go_on-Rounds fuel a again rest n h g k e =
      let (p, c) = h refl in
      let (q, d) = g e in
      (
        omega (arith, publications-append a.events rest.events, p, q),
        omega (arith, conversions-append a.events rest.events, c, d),
      )

  attempts-Rounds :
      (fuel height : ℕ) (x : Option MsgTx) (s : Scene bolt codec wallet chain)
      → (attempts bolt codec wallet chain fuel height x s).outcome ≡ again
      → Rounds fuel
          (attempts bolt codec wallet chain fuel height x s)
          (htlcs s.info.breached_outputs)
  unfolding attempts
  attempts-Rounds zero height x s e = (refl, omega arith)
  attempts-Rounds (suc fuel) height x s e =
      let a = attempt bolt codec wallet chain height x s in
      let rest = attempts bolt codec wallet chain fuel height none a.scene in
      go_on-Rounds fuel a a.outcome rest (htlcs s.info.breached_outputs) (attempt-Round height x s)
        (attempts-Rounds fuel height none a.scene) refl e

  resume-Rounds :
      (fuel height : ℕ) (s : Scene bolt codec wallet chain) (r : Result Error (Option MsgTx))
      → (resume bolt codec wallet chain fuel height s r).outcome ≡ again
      → Rounds fuel (resume bolt codec wallet chain fuel height s r) (htlcs s.info.breached_outputs)
  unfolding resume
  resume-Rounds fuel height s (ok x) e = attempts-Rounds fuel height x s e
  resume-Rounds fuel height s (err n) e = absurd (done≢again refl e)
  resume-Rounds fuel height s panic e = absurd (done≢again refl e)

  start-Rounds :
      (fuel : ℕ) (s : Scene bolt codec wallet chain) (r : Option ℕ × World)
      → (start bolt codec wallet chain fuel s r).outcome ≡ again
      → Rounds fuel (start bolt codec wallet chain fuel s r) (htlcs s.info.breached_outputs)
  unfolding start
  start-Rounds fuel s (none, w) e = absurd (done≢again refl e)
  start-Rounds fuel s (some height, w) e =
      resume-Rounds fuel height (set_world bolt codec wallet chain w s)
        (get_finalized_txn bolt codec s.info.chan_point s.db) e

  Next-cases : (n : Next) → (n ≡ done) ⊎ (n ≡ again)
  Next-cases done = inl refl
  Next-cases again = inr refl

  -- The retribution ends, however the chain and the counterparty behave, within as many attempts as
  -- it has HTLC outputs, k more, and one, if among these attempts at most k broadcast a transaction
  -- without that a further output was found to be spent to the second level before.
  pub exact_retribution_ends :
      (k : ℕ) (s : Scene bolt codec wallet chain)
      → let a =
          exact_retribution bolt codec wallet chain (htlcs s.info.breached_outputs + k + 1) s in
        idle_rounds a.events ≤ k → a.outcome ≡ done
  unfolding exact_retribution
  exact_retribution_ends k s i =
      let n = htlcs s.info.breached_outputs + k + 1 in
      let a = start bolt codec wallet chain n s (chain.await_breach s.watch.world) in
      elim (Next-cases a.outcome) [
        | inl d ↦ d
        | inr e ↦
            (let (p, c) = start-Rounds n s (chain.await_breach s.watch.world) e in
              absurd (omega (arith, p, c, i, publications_bound false a.events)))
      ]
