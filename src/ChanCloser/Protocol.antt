-- ===== src/ChanCloser/Protocol.antt =====
-- The protocol that `ProcessCloseMsg` follows: no panic, the order of the states, and the replies.
use lndmobile.Prelude.{
  ◌≡◌, ◌≢◌, ◌⊎◌, inl, refl, Bool, true, false, none, some, List, [], ◌∷◌, arith, sym, subst,
}
use lndmobile.Prelude.Assoc.{lookup}
use lndmobile.Prelude.Exec.{Result, ok, err, panic}
use lndmobile.ChanCloser.External.{
  Shutdown, ClosingSigned, Message, shutdown, closing_signed, External,
}
use lndmobile.ChanCloser.State.{
  amount_eq, Error, CloseState, close_idle, close_shutdown_initiated, close_fee_negotiation,
  close_finished, unknown, ChannelCloser, Scene,
}
use lndmobile.ChanCloser.Machine.{process_close_msg}
use lndmobile.ChanCloser.Offers.{lookup_filed, lookup_new}
use lndmobile.ChanCloser.Steps.{Completed, closed, failed, missing}
use lndmobile.ChanCloser.Negotiation.{
  answer, silent, spoken, withheld, first_proposal-Opened, recalled, matched, countered, stopped,
  process-Negotiated, responding, initiating, idle_returns, idle_fails, initiated_returns,
  initiated_fails,
}
use lndmobile.ChanCloser.Turns.{Turn, at_idle, at_initiated, at_negotiation, echoed, rejected, turn}
use lndmobile.ChanCloser.Invariant.{IsValid, offer-IsValid}

-- The results that a step from one state of the closer to another may have: it may be refused and
-- change nothing in the state; a shutdown starts the negotiation, also where the first proposal
-- then fails; the negotiation goes on or is closed; and a finished closer echoes.
abbrev pub IsStep : CloseState → Result Error (List Message × Bool) → CloseState → Type 0
IsStep c panic d = ⊥
IsStep close_idle (ok (ms, done)) d = (done ≡ false) × (d ≡ close_fee_negotiation)
IsStep close_idle (err e) d = (d ≡ close_idle) ⊎ (d ≡ close_fee_negotiation)
IsStep close_shutdown_initiated (ok (ms, done)) d = (done ≡ false) × (d ≡ close_fee_negotiation)
IsStep close_shutdown_initiated (err e) d =
    (d ≡ close_shutdown_initiated) ⊎ (d ≡ close_fee_negotiation)
IsStep close_fee_negotiation (ok (ms, true)) d = d ≡ close_finished
IsStep close_fee_negotiation (ok (ms, false)) d = d ≡ close_fee_negotiation
IsStep close_fee_negotiation (err e) d = d ≡ close_fee_negotiation
IsStep close_finished (ok (ms, done)) d = (done ≡ true) × (ms ≡ []) × (d ≡ close_finished)
IsStep close_finished (err e) d = d ≡ close_finished
IsStep (unknown n) (ok p) d = ⊥
IsStep (unknown n) (err e) d = d ≡ unknown n

rejected_stays : (c : CloseState) (x : Error) → IsStep c (err x) c
rejected_stays close_idle x = inl refl
rejected_stays close_shutdown_initiated x = inl refl
rejected_stays close_fee_negotiation x = refl
rejected_stays close_finished x = refl
rejected_stays (unknown n) x = refl

abbrev AsStep :
    {World Tx : Type 0} → CloseState → Result Error (List Message × Bool) × Scene World Tx → Type 0
AsStep c r = IsStep c r.0 r.1.closer.state

module _ {World Tx : Type 0} (ext : External World Tx) (s : Scene World Tx) where
  idle-AsStep :
      (m : Shutdown)
      → s.closer.state ≡ close_idle
      → AsStep close_idle (process_close_msg ext (shutdown m) s)
  idle-AsStep m q = elim (first_proposal-Opened ext (responding ext m s)) [
    | silent e ↦ rw (idle_returns ext m s _ _ q e) (refl, refl)
    | spoken p t e f i w ↦ rw (idle_returns ext m s _ _ q e) (refl, ground arith)
    | withheld x t e w ↦ rw (idle_fails ext m s _ _ q e) (ground arith)
  ]

  initiated-AsStep :
      (m : Shutdown)
      → s.closer.state ≡ close_shutdown_initiated
      → AsStep close_shutdown_initiated (process_close_msg ext (shutdown m) s)
  initiated-AsStep m q = elim (first_proposal-Opened ext (initiating ext m s)) [
    | silent e ↦ rw (initiated_returns ext m s _ _ q e) (refl, refl)
    | spoken p t e f i w ↦ rw (initiated_returns ext m s _ _ q e) (refl, ground arith)
    | withheld x t e w ↦ rw (initiated_fails ext m s _ _ q e) (ground arith)
  ]

  Completed-AsStep :
      (m : ClosingSigned) (u : Scene World Tx) (offer : ClosingSigned)
      (r : Result Error (List Message × Bool) × Scene World Tx)
      → u.closer.state ≡ close_fee_negotiation
      → lookup m.fee_satoshis u.closer.prior_fee_offers ≡ some offer
      → Completed m u r
      → AsStep close_fee_negotiation r
  Completed-AsStep m u offer r q l (closed o t e k h) = rw e (ground arith)
  Completed-AsStep m u offer r q l (failed x t e h) = rw e (ground arith)
  Completed-AsStep m u offer r q l (missing e k) = cc

  negotiation-AsStep :
      (m : ClosingSigned)
      → s.closer.state ≡ close_fee_negotiation
      → AsStep close_fee_negotiation (process_close_msg ext (closing_signed m) s)
  negotiation-AsStep m q = elim (process-Negotiated ext m s q) [
    | recalled offer l g d ↦ Completed-AsStep m s offer _ q l d
    | matched p t a f i w g d ↦
        Completed-AsStep m t p _ (ground arith)
          (rw w (
            lookup_new (answer s.closer m) m.fee_satoshis p s.closer.prior_fee_offers
              (ground arith)))
          d
    | countered p t e a f i w ↦ rw e (ground arith)
    | stopped x t e g w ↦ rw e (ground arith)
  ]

  -- Every message, in every state, ends in one of the results that `IsStep` allows from that state;
  -- in particular the missing map entry that would make `ProcessCloseMsg` panic never occurs.
  pub process-IsStep :
      (msg : Message)
      → IsStep s.closer.state
          (process_close_msg ext msg s).0
          (process_close_msg ext msg s).1.closer.state
  process-IsStep msg = by_turn msg (turn ext s msg)
    where
      by_turn : (k : Message) → Turn ext s k → AsStep s.closer.state (process_close_msg ext k s)
      by_turn _ (at_idle m q) =
          subst (λ c. AsStep c (process_close_msg ext (shutdown m) s)) (sym q) (idle-AsStep m q)
      by_turn _ (at_initiated m q) =
          subst (λ c. AsStep c (process_close_msg ext (shutdown m) s)) (sym q)
            (initiated-AsStep m q)
      by_turn _ (at_negotiation m q) =
          subst (λ c. AsStep c (process_close_msg ext (closing_signed m) s)) (sym q)
            (negotiation-AsStep m q)
      by_turn _ (echoed m q e) =
          rw e (subst (λ c. IsStep c (ok ([], true)) s.closer.state) (sym q) (refl, refl, q))
      by_turn _ (rejected k x e) = rw e (rejected_stays s.closer.state x)

-- What a reply in the negotiation is: the acceptance of the remote fee, by an offer that was filed
-- for it, or another fee, which is then our last one and is filed under itself.
pub record IsReply {Tx : Type 0} (c d : ChannelCloser Tx) (m p : ClosingSigned) (done : Bool)
    : Type 0 where
  pub for_channel : p.channel_id ≡ c.cid
  pub accepts :
      done ≡ true
      → (p.fee_satoshis ≡ m.fee_satoshis)
        × (lookup m.fee_satoshis d.prior_fee_offers ≡ some p)
        × (d.closing_tx ≢ none)
  pub counters :
      done ≡ false
      → (p.fee_satoshis ≡ answer c m)
        × (p.fee_satoshis ≢ m.fee_satoshis)
        × (d.last_fee_proposal ≡ p.fee_satoshis)
        × (lookup p.fee_satoshis d.prior_fee_offers ≡ some p)

abbrev Replied :
    {World Tx : Type 0}
    → ChannelCloser Tx
    → ClosingSigned
    → Result Error (List Message × Bool) × Scene World Tx
    → Type 0
Replied c m (ok (ms, done), t) =
    (p : ClosingSigned) × (ms ≡ closing_signed p ∷ []) × IsReply c t.closer m p done
Replied c m (err e, t) = Unit
Replied c m (panic, t) = Unit

module _ {World Tx : Type 0} (ext : External World Tx) (m : ClosingSigned) where
  Completed-Replied :
      (c : ChannelCloser Tx) (s : Scene World Tx)
      (r : Result Error (List Message × Bool) × Scene World Tx)
      → IsValid s.closer
      → s.closer.cid ≡ c.cid
      → Completed m s r
      → Replied c m r
  Completed-Replied c s r v i (closed offer t e l h) =
      let k = lookup_filed s.closer.cid m.fee_satoshis s.closer.prior_fee_offers v.filed l in
      rw e (
        offer,
        refl,
        record { for_channel = ground arith; accepts = ground arith; counters = λ x. cc },
      )
  Completed-Replied c s r v i (failed x t e h) = rw e tt
  Completed-Replied c s r v i (missing e l) = rw e tt

  negotiation-Replied :
      (s : Scene World Tx)
      → IsValid s.closer
      → s.closer.state ≡ close_fee_negotiation
      → Replied s.closer m (process_close_msg ext (closing_signed m) s)
  negotiation-Replied s v q = elim (process-Negotiated ext m s q) [
    | recalled offer l g d ↦ Completed-Replied s.closer s _ v refl d
    | matched p t a f i w g d ↦
        Completed-Replied s.closer t _ (offer-IsValid s.closer v t.closer _ p q f i w)
          (ground arith) d
    | countered p t e a f i w ↦ rw e (
      p,
      refl,
      record {
        for_channel = i;
        accepts = λ x. cc;
        counters = λ _. (
          f,
          ground arith,
          ground arith,
          rw w (
              lookup_new (answer s.closer m) p.fee_satoshis p s.closer.prior_fee_offers
                (ground arith)),
        );
      },
    )
    | stopped x t e g w ↦ rw e tt
  ]

  -- In the negotiation a valid closer that answers an offer without an error sends exactly one
  -- message, for its own channel. If the negotiation is over, the message is the offer that we have
  -- filed at the remote fee and there is a closing transaction; if not, its fee is the compromise fee, it
  -- differs from the remote fee, and it is recorded as our last fee and as the offer at that fee.
  pub negotiation_replies :
      (s t : Scene World Tx) (ms : List Message) (done : Bool)
      → IsValid s.closer
      → s.closer.state ≡ close_fee_negotiation
      → process_close_msg ext (closing_signed m) s ≡ (ok (ms, done), t)
      → (p : ClosingSigned) × (ms ≡ closing_signed p ∷ []) × IsReply s.closer t.closer m p done
  negotiation_replies s t ms done v q e =
      subst (λ r. Replied s.closer m r) e (negotiation-Replied s v q)
