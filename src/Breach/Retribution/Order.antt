-- ===== src/Breach/Retribution/Order.antt =====
-- The order of the calls of `exactRetribution` (lnd/breacharbiter.go).
use lndmobile.Prelude.{
  ℕ, zero, suc, ◌≡◌, Bool, true, false, Option, none, some, List, [], ◌∷◌, ◌++◌, refl, sym, ◌∙◌,
  subst, inl, inr, ◌⊎◌,
}
use mathlib.Core.List.{append_assoc}
use lndmobile.Prelude.Exec.{Result, ok, err, panic, Reply, value, failure}
use lndmobile.Wire.{MsgTx, out_point_eq}
use lndmobile.Bolt.{Bolt}
use lndmobile.Codec.{WireCodec}
use lndmobile.Nursery.Output.{BreachedOutput}
use lndmobile.Breach.Wallet.{Wallet, Txn}
use lndmobile.Breach.Justice.{create_justice_tx}
use lndmobile.Breach.Store.{Error, Db, get_finalized_txn, remove}
use lndmobile.Breach.Chain.{
  Event, converted, finalized, published, confirmed, closed, removed, Publication, accepted,
  double_spend, refused, Chain,
}
use lndmobile.Breach.Spends.{Checked, check_outputs}
use lndmobile.Breach.Spends.Converted.{AllConverted, check_outputs-AllConverted}
use lndmobile.Breach.Retribution.{
  Next, done, again, Scene, Steps, after_finalize, persist, after_check, prepare, tidy_up,
  after_mark, after_justice, after_register, after_publish, broadcast, attempt, go_on, set_world,
  attempts, resume, start, exact_retribution,
}

-- With a justice transaction in the store, if any, and what was done already: a transaction is
-- published, and its confirmation awaited, only while it is the one that was stored last; the
-- channel is marked as closed only after a confirmation, and the retribution is removed only after
-- that.
abbrev pub Orderly : Option MsgTx → Bool → Bool → List Event → Type 0
Orderly cur is_confirmed is_closed [] = Unit
Orderly cur is_confirmed is_closed (converted _ ∷ es) = Orderly cur is_confirmed is_closed es
Orderly cur is_confirmed is_closed (finalized tx ∷ es) = Orderly (some tx) is_confirmed is_closed es
Orderly cur is_confirmed is_closed (published tx ∷ es) =
    (cur ≡ some tx) × Orderly cur is_confirmed is_closed es
Orderly cur is_confirmed is_closed (confirmed tx ∷ es) =
    (cur ≡ some tx) × Orderly cur true is_closed es
Orderly cur is_confirmed is_closed (closed _ ∷ es) =
    (is_confirmed ≡ true) × Orderly cur is_confirmed true es
Orderly cur is_confirmed is_closed (removed _ ∷ es) =
    (is_closed ≡ true) × Orderly cur is_confirmed is_closed es

Orderly-append :
    (cur : Option MsgTx) (xs ys : List Event)
    → AllConverted xs
    → Orderly cur false false ys
    → Orderly cur false false (xs ++ ys)
Orderly-append cur [] ys a h = h
Orderly-append cur (converted _ ∷ xs) ys a h = Orderly-append cur xs ys a h
Orderly-append cur (finalized _ ∷ xs) ys a h = absurd a
Orderly-append cur (published _ ∷ xs) ys a h = absurd a
Orderly-append cur (confirmed _ ∷ xs) ys a h = absurd a
Orderly-append cur (closed _ ∷ xs) ys a h = absurd a
Orderly-append cur (removed _ ∷ xs) ys a h = absurd a

ok_value : {x y : Option MsgTx} → Path (Result Error (Option MsgTx)) (ok x) (ok y) → x ≡ y
ok_value e = cc

module _ {World : Type 0} (bolt : Bolt) (codec : WireCodec) (wallet : Wallet World)
    (chain : Chain World) where
  -- What is true of the steps that end without a refused broadcast, and of those that end in one.
  abbrev Ends : Option MsgTx → Steps bolt codec wallet chain Next → Type 0
  Ends cur a = (Orderly cur false false a.events × (a.outcome ≡ done)) ⊎ (a.events ≡ [])

  tidy_up-Orderly :
      (cur : Option MsgTx) (s : Scene bolt codec wallet chain)
      (r : Result Error (Unit {0}) × Db bolt)
      → let t = tidy_up bolt codec wallet chain s r in
        Orderly cur true true t.events × (t.outcome ≡ done)
  unfolding tidy_up
  tidy_up-Orderly cur s (ok _, db) = ((refl, tt), refl)
  tidy_up-Orderly cur s (err _, db) = (tt, refl)
  tidy_up-Orderly cur s (panic, db) = (tt, refl)

  after_mark-Orderly :
      (cur : Option MsgTx) (s : Scene bolt codec wallet chain) (r : Reply (Unit {0}) × World)
      → let t = after_mark bolt codec wallet chain s r in
        Orderly cur true false t.events × (t.outcome ≡ done)
  unfolding after_mark
  after_mark-Orderly cur s (value _, w) =
      let (o, d) =
        tidy_up-Orderly cur (set_world bolt codec wallet chain w s)
          (remove bolt codec s.info.chan_point s.db) in
      ((refl, o), d)
  after_mark-Orderly cur s (failure _, w) = (tt, refl)

  after_justice-Orderly :
      (tx : MsgTx) (s : Scene bolt codec wallet chain) (r : Bool × World)
      → let t = after_justice bolt codec wallet chain tx s r in
        Orderly (some tx) false false t.events × (t.outcome ≡ done)
  unfolding after_justice
  after_justice-Orderly tx s (false, w) = (tt, refl)
  after_justice-Orderly tx s (true, w) =
      let (o, d) =
        after_mark-Orderly (some tx) (set_world bolt codec wallet chain w s)
          (chain.mark_chan_fully_closed s.info.chan_point w) in
      ((refl, o), d)

  pub after_register-Orderly :
      (tx : MsgTx) (s : Scene bolt codec wallet chain) (r : Reply ℕ × World)
      → let t = after_register bolt codec wallet chain tx s r in
        Orderly (some tx) false false t.events × (t.outcome ≡ done)
  unfolding after_register
  after_register-Orderly tx s (value c, w) =
      after_justice-Orderly tx (set_world bolt codec wallet chain w s) (chain.await_justice c w)
  after_register-Orderly tx s (failure _, w) = (tt, refl)

  after_publish-Ends :
      (height : ℕ) (tx : MsgTx) (s : Scene bolt codec wallet chain) (r : Publication × World)
      → Ends (some tx) (after_publish bolt codec wallet chain height tx s r)
  unfolding after_publish
  after_publish-Ends height tx s (double_spend, w) = inr refl
  after_publish-Ends height tx s (accepted, w) = inl (
      after_register-Orderly tx (set_world bolt codec wallet chain w s)
        (chain.register_confirmations_ntfn (wallet.tx_hash tx) height w))
  after_publish-Ends height tx s (refused, w) = inl (
      after_register-Orderly tx (set_world bolt codec wallet chain w s)
        (chain.register_confirmations_ntfn (wallet.tx_hash tx) height w))

  -- A justice transaction that is known is the one in the store.
  abbrev IsStored : Option MsgTx → Option MsgTx → Type 0
  IsStored cur x = (tx : MsgTx) → x ≡ some tx → cur ≡ some tx

  -- Whatever the steps end in, they are in order, with any steps in order after a refusal.
  abbrev Continues : Option MsgTx → Steps bolt codec wallet chain Next → List Event → Type 0
  Continues cur a tail =
      (a.outcome ≡ done → Orderly cur false false a.events)
      × (a.outcome ≡ again → Orderly cur false false (a.events ++ tail))

  broadcast-Continues :
      (height : ℕ) (s : Scene bolt codec wallet chain) (x cur : Option MsgTx) (tail : List Event)
      → IsStored cur x
      → ((c : Option MsgTx) → Orderly c false false tail)
      → Continues cur (broadcast bolt codec wallet chain height s x) tail
  unfolding broadcast
  broadcast-Continues height s none cur tail h t = (λ _. tt, λ e. cc)
  broadcast-Continues height s (some tx) cur tail h t =
      let e = h tx refl in
      let back = λ (es : List Event) (o : Orderly (some tx) false false es).
        subst (λ c. Orderly c false false es) (sym e) o in
      let p =
        after_publish bolt codec wallet chain height tx s
          (chain.publish_transaction tx s.watch.world) in
      elim (after_publish-Ends height tx s (chain.publish_transaction tx s.watch.world)) [
        | inl (o, d) ↦ (λ _. (e, back p.events o), λ a. cc)
        | inr n ↦ (
          λ _. (e, subst (Orderly cur false false) (sym n) tt),
          λ _. (e, subst (λ es. Orderly cur false false (es ++ tail)) (sym n) (t cur)),
        )
      ]

  -- Events after the preparation that are in order, with what it made.
  abbrev Follows : Option MsgTx → List Event → Type 0
  Follows x rest = (c : Option MsgTx) → IsStored c x → Orderly c false false rest

  after_finalize-Orderly :
      (s : Scene bolt codec wallet chain) (tx : MsgTx) (r : Bool × World) (cur : Option MsgTx)
      (rest : List Event)
      → Follows (after_finalize bolt codec wallet chain s tx r).outcome rest
      → Orderly cur false false ((after_finalize bolt codec wallet chain s tx r).events ++ rest)
  unfolding after_finalize
  after_finalize-Orderly s tx (true, w) cur rest f = f (some tx) (λ x e. e)
  after_finalize-Orderly s tx (false, w) cur rest f = f cur (λ x e. cc)

  persist-Orderly :
      (s : Scene bolt codec wallet chain) (r : Result ℕ Txn × World) (cur : Option MsgTx)
      (rest : List Event)
      → Follows (persist bolt codec wallet chain s r).outcome rest
      → Orderly cur false false ((persist bolt codec wallet chain s r).events ++ rest)
  unfolding persist
  persist-Orderly s (ok txn, w) cur rest f =
      after_finalize-Orderly s (chain.serialize txn) (chain.commits w) cur rest f
  persist-Orderly s (err _, w) cur rest f = f cur (λ tx e. cc)
  persist-Orderly s (panic, w) cur rest f = f cur (λ tx e. cc)

  after_check-Orderly :
      (s : Scene bolt codec wallet chain) (c : Checked wallet chain (List BreachedOutput))
      (f : Option (List BreachedOutput)) (cur : Option MsgTx) (rest : List Event)
      → AllConverted c.events
      → Follows (after_check bolt codec wallet chain s c f).outcome rest
      → Orderly cur false false ((after_check bolt codec wallet chain s c f).events ++ rest)
  unfolding after_check
  after_check-Orderly s c none cur rest a g =
      Orderly-append cur c.events rest a (g cur (λ tx e. cc))
  after_check-Orderly s c (some os) cur rest a g =
      let info = record s.info { breached_outputs = os } in
      let s' = record s { info = info; watch = c.watch } in
      let r = create_justice_tx wallet info c.watch.world in
      subst (Orderly cur false false)
        (sym (append_assoc c.events (persist bolt codec wallet chain s' r).events rest))
        (Orderly-append cur c.events ((persist bolt codec wallet chain s' r).events ++ rest) a
          (persist-Orderly s' r cur rest g))

  prepare-Orderly :
      (x cur : Option MsgTx) (s : Scene bolt codec wallet chain) (rest : List Event)
      → IsStored cur x
      → Follows (prepare bolt codec wallet chain x s).outcome rest
      → Orderly cur false false ((prepare bolt codec wallet chain x s).events ++ rest)
  unfolding prepare
  prepare-Orderly (some tx) cur s rest h f = f cur h
  prepare-Orderly none cur s rest h f =
      let c = check_outputs wallet chain s.info.breach_height s.info.breached_outputs s.watch in
      after_check-Orderly s c c.found cur rest
        (check_outputs-AllConverted wallet chain s.info.breach_height s.info.breached_outputs
          s.watch)
        f

  attempt-Continues :
      (height : ℕ) (x cur : Option MsgTx) (s : Scene bolt codec wallet chain) (tail : List Event)
      → IsStored cur x
      → ((c : Option MsgTx) → Orderly c false false tail)
      → Continues cur (attempt bolt codec wallet chain height x s) tail
  unfolding attempt
  attempt-Continues height x cur s tail h t =
      let p = prepare bolt codec wallet chain x s in
      let b = broadcast bolt codec wallet chain height p.scene p.outcome in
      let follow = λ (c : Option MsgTx) (i : IsStored c p.outcome).
        broadcast-Continues height p.scene p.outcome c tail i t in
      (
        λ d. prepare-Orderly x cur s b.events h (λ c i. (follow c i).0 d),
        λ a.
            subst (Orderly cur false false) (sym (append_assoc p.events b.events tail))
              (prepare-Orderly x cur s (b.events ++ tail) h (λ c i. (follow c i).1 a)),
      )

  go_on-Orderly :
      (cur : Option MsgTx) (a : Steps bolt codec wallet chain Next) (n : Next)
      (rest : Steps bolt codec wallet chain Next)
      → (n ≡ done → Orderly cur false false a.events)
      → (n ≡ again → Orderly cur false false (a.events ++ rest.events))
      → Orderly cur false false (go_on bolt codec wallet chain a n rest).events
  go_on-Orderly cur a done rest d g = d refl
  go_on-Orderly cur a again rest d g = g refl

  attempts-Orderly :
      (fuel height : ℕ) (x cur : Option MsgTx) (s : Scene bolt codec wallet chain)
      → IsStored cur x
      → Orderly cur false false (attempts bolt codec wallet chain fuel height x s).events
  unfolding attempts
  attempts-Orderly zero height x cur s h = tt
  attempts-Orderly (suc fuel) height x cur s h =
      let a = attempt bolt codec wallet chain height x s in
      let rest = attempts bolt codec wallet chain fuel height none a.scene in
      let (d, g) =
        attempt-Continues height x cur s rest.events h
          (λ c. attempts-Orderly fuel height none c a.scene (λ tx e. cc)) in
      go_on-Orderly cur a a.outcome rest d g

  resume-Orderly :
      (fuel height : ℕ) (s : Scene bolt codec wallet chain) (r : Result Error (Option MsgTx))
      (cur : Option MsgTx)
      → r ≡ ok cur
      → Orderly cur false false (resume bolt codec wallet chain fuel height s r).events
  unfolding resume
  resume-Orderly fuel height s (ok x) cur e =
      attempts-Orderly fuel height x cur s (λ tx h. sym (ok_value e) ∙ h)
  resume-Orderly fuel height s (err n) cur e = tt
  resume-Orderly fuel height s panic cur e = tt

  started :
      (fuel : ℕ) (s : Scene bolt codec wallet chain) (r : Option ℕ × World) (cur : Option MsgTx)
      → get_finalized_txn bolt codec s.info.chan_point s.db ≡ ok cur
      → Orderly cur false false (start bolt codec wallet chain fuel s r).events
  unfolding start
  started fuel s (none, w) cur e = tt
  started fuel s (some height, w) cur e =
      resume-Orderly fuel height (set_world bolt codec wallet chain w s)
        (get_finalized_txn bolt codec s.info.chan_point s.db) cur e

  -- In any number of attempts at exacting retribution, a transaction is published, and its
  -- confirmation accepted, only while it is the justice transaction that was finalized last, or the
  -- one that the store held at the start; the channel is marked as closed only after that
  -- confirmation, and the retribution is removed from the store only after that mark.
  pub exact_retribution-ordered :
      (fuel : ℕ) (s : Scene bolt codec wallet chain) (cur : Option MsgTx)
      → get_finalized_txn bolt codec s.info.chan_point s.db ≡ ok cur
      → Orderly cur false false (exact_retribution bolt codec wallet chain fuel s).events
  unfolding exact_retribution
  exact_retribution-ordered fuel s cur e = started fuel s (chain.await_breach s.watch.world) cur e
