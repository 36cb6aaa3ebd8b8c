-- ===== src/ChanCloser/Negotiation.antt =====
-- What one message does to a closer, case by case, with the parts of a step shut.
use lndmobile.Prelude.{
  ◌≡◌, ◌⊎◌, inl, inr, Bool-cases, Option-cases, Bool, true, false, none, some, List, [], ◌∷◌, arith,
}
use lndmobile.Prelude.Int.{eqb_ℤ}
use lndmobile.Prelude.Assoc.{lookup}
use lndmobile.Prelude.Exec.{Result, ok, err}
use lndmobile.ChanCloser.Fee.{Amount, calc_compromise_fee}
use lndmobile.ChanCloser.External.{
  Shutdown, ClosingSigned, Message, shutdown, closing_signed, External,
}
use lndmobile.ChanCloser.State.{
  amount_eq, Error, close_idle, close_shutdown_initiated, close_fee_negotiation, ChannelCloser,
  Scene,
}
use lndmobile.ChanCloser.Machine.{
  propose_close_signed, first_proposal, complete_close, process_close_msg,
}
use lndmobile.ChanCloser.Steps.{
  with_offer, offered, refused, propose-Proposed, Completed, complete-Completed,
}

-- Our own shutdown message.
abbrev pub own_shutdown : {Tx : Type 0} → ChannelCloser Tx → Shutdown
own_shutdown c = record { channel_id = c.cid; address = c.local_delivery_script }

-- The fee with which a closer answers an offer that it has not made itself.
abbrev pub answer : {Tx : Type 0} → ChannelCloser Tx → ClosingSigned → Amount
answer c m = calc_compromise_fee c.ideal_fee_sat c.last_fee_proposal m.fee_satoshis

module _ {World Tx : Type 0} where
  -- How the first proposal ends.
  pub data Opened (s : Scene World Tx) (r : Result Error (List Message) × Scene World Tx)
      : Type 0 where
    silent : r ≡ (ok [], s) → Opened s r
    spoken :
        (m : ClosingSigned) (t : Scene World Tx)
        → r ≡ (ok (closing_signed m ∷ []), t)
        → m.fee_satoshis ≡ s.closer.ideal_fee_sat
        → m.channel_id ≡ s.closer.cid
        → t.closer ≡ with_offer s.closer.ideal_fee_sat m s.closer
        → Opened s r
    withheld :
        (e : Error) (t : Scene World Tx)
        → r ≡ (err e, t)
        → (t.closer ≡ s.closer)
          ⊎ (t.closer ≡ record s.closer { last_fee_proposal = s.closer.ideal_fee_sat })
        → Opened s r

  -- How an answer to an offer of the remote party ends.
  pub data Negotiated (ext : External World Tx) (m : ClosingSigned) (s : Scene World Tx)
      (r : Result Error (List Message × Bool) × Scene World Tx) : Type 0 where
    recalled :
        (offer : ClosingSigned)
        → lookup m.fee_satoshis s.closer.prior_fee_offers ≡ some offer
        → r ≡ complete_close ext m s
        → Completed m s r
        → Negotiated ext m s r
    matched :
        (p : ClosingSigned) (t : Scene World Tx)
        → answer s.closer m ≡ m.fee_satoshis
        → p.fee_satoshis ≡ answer s.closer m
        → p.channel_id ≡ s.closer.cid
        → t.closer ≡ with_offer (answer s.closer m) p s.closer
        → r ≡ complete_close ext m t
        → Completed m t r
        → Negotiated ext m s r
    countered :
        (p : ClosingSigned) (t : Scene World Tx)
        → r ≡ (ok (closing_signed p ∷ [], false), t)
        → eqb_ℤ (answer s.closer m) m.fee_satoshis ≡ false
        → p.fee_satoshis ≡ answer s.closer m
        → p.channel_id ≡ s.closer.cid
        → t.closer ≡ with_offer (answer s.closer m) p s.closer
        → Negotiated ext m s r
    stopped :
        (e : Error) (t : Scene World Tx)
        → r ≡ (err e, t)
        → propose_close_signed ext (answer s.closer m) s ≡ (err e, t)
        → (t.closer ≡ s.closer)
          ⊎ (t.closer ≡ record s.closer { last_fee_proposal = answer s.closer m })
        → Negotiated ext m s r

module _ {World Tx : Type 0} (ext : External World Tx) where
  opened_silent :
      (s : Scene World Tx) → ext.is_initiator s.world ≡ false → first_proposal ext s ≡ (ok [], s)
  unfolding first_proposal
  opened_silent s i = ground arith

  opened_spoken :
      (s t : Scene World Tx) (m : ClosingSigned)
      → ext.is_initiator s.world ≡ true
      → propose_close_signed ext s.closer.ideal_fee_sat s ≡ (ok m, t)
      → first_proposal ext s ≡ (ok (closing_signed m ∷ []), t)
  unfolding first_proposal
  opened_spoken s t m i e = ground arith

  opened_withheld :
      (s t : Scene World Tx) (x : Error)
      → ext.is_initiator s.world ≡ true
      → propose_close_signed ext s.closer.ideal_fee_sat s ≡ (err x, t)
      → first_proposal ext s ≡ (err x, t)
  unfolding first_proposal
  opened_withheld s t x i e = ground arith

  pub first_proposal-Opened : (s : Scene World Tx) → Opened s (first_proposal ext s)
  first_proposal-Opened s = elim (Bool-cases (ext.is_initiator s.world)) [
    | inl i ↦ elim (propose-Proposed ext s.closer.ideal_fee_sat s) [
      | offered m t e f c w ↦ spoken m t (opened_spoken s t m i e) f c w
      | refused x t e w ↦ withheld x t (opened_withheld s t x i e) w
    ]
    | inr i ↦ silent (opened_silent s i)
  ]

  -- The scene in which the responder, and the initiator, of a shutdown makes the first proposal.
  abbrev pub responding : Shutdown → Scene World Tx → Scene World Tx
  responding m s = record {
    closer = record s.closer { remote_delivery_script = m.address; state = close_fee_negotiation };
    world = (ext.unregister_channel s.closer.cid s.world).1;
  }

  abbrev pub initiating : Shutdown → Scene World Tx → Scene World Tx
  initiating m s = record s {
    closer = record s.closer { remote_delivery_script = m.address; state = close_fee_negotiation };
  }

  module _ (m : Shutdown) (s : Scene World Tx) where
    pub idle_returns :
        (ms : List Message) (t : Scene World Tx)
        → s.closer.state ≡ close_idle
        → first_proposal ext (responding m s) ≡ (ok ms, t)
        → process_close_msg ext (shutdown m) s
          ≡ (ok (shutdown (own_shutdown s.closer) ∷ ms, false), t)
    unfolding process_close_msg
    idle_returns ms t q e = ground arith

    pub idle_fails :
        (x : Error) (t : Scene World Tx)
        → s.closer.state ≡ close_idle
        → first_proposal ext (responding m s) ≡ (err x, t)
        → process_close_msg ext (shutdown m) s ≡ (err x, t)
    unfolding process_close_msg
    idle_fails x t q e = ground arith

    -- However the first proposal ends, it leaves the closer that the step leaves.
    pub idle_closer :
        s.closer.state ≡ close_idle
        → (process_close_msg ext (shutdown m) s).1.closer
          ≡ (first_proposal ext (responding m s)).1.closer
    unfolding process_close_msg
    idle_closer q = ground arith

    pub initiated_returns :
        (ms : List Message) (t : Scene World Tx)
        → s.closer.state ≡ close_shutdown_initiated
        → first_proposal ext (initiating m s) ≡ (ok ms, t)
        → process_close_msg ext (shutdown m) s ≡ (ok (ms, false), t)
    unfolding process_close_msg
    initiated_returns ms t q e = ground arith

    pub initiated_fails :
        (x : Error) (t : Scene World Tx)
        → s.closer.state ≡ close_shutdown_initiated
        → first_proposal ext (initiating m s) ≡ (err x, t)
        → process_close_msg ext (shutdown m) s ≡ (err x, t)
    unfolding process_close_msg
    initiated_fails x t q e = ground arith

    pub initiated_closer :
        s.closer.state ≡ close_shutdown_initiated
        → (process_close_msg ext (shutdown m) s).1.closer
          ≡ (first_proposal ext (initiating m s)).1.closer
    unfolding process_close_msg
    initiated_closer q = ground arith

  module _ (m : ClosingSigned) (s : Scene World Tx)
      (q : s.closer.state ≡ close_fee_negotiation) where
    process_recalls :
        (offer : ClosingSigned)
        → lookup m.fee_satoshis s.closer.prior_fee_offers ≡ some offer
        → process_close_msg ext (closing_signed m) s ≡ complete_close ext m s
    unfolding process_close_msg
    process_recalls offer l = ground arith

    module _ (l : lookup m.fee_satoshis s.closer.prior_fee_offers ≡ none) where
      process_stops :
          (x : Error) (t : Scene World Tx)
          → propose_close_signed ext (answer s.closer m) s ≡ (err x, t)
          → process_close_msg ext (closing_signed m) s ≡ (err x, t)
      unfolding process_close_msg
      process_stops x t e = ground arith

      process_counters :
          (p : ClosingSigned) (t : Scene World Tx)
          → propose_close_signed ext (answer s.closer m) s ≡ (ok p, t)
          → eqb_ℤ (answer s.closer m) m.fee_satoshis ≡ false
          → process_close_msg ext (closing_signed m) s ≡ (ok (closing_signed p ∷ [], false), t)
      unfolding process_close_msg
      process_counters p t e d = ground arith

      process_matches :
          (p : ClosingSigned) (t : Scene World Tx)
          → propose_close_signed ext (answer s.closer m) s ≡ (ok p, t)
          → eqb_ℤ (answer s.closer m) m.fee_satoshis ≡ true
          → process_close_msg ext (closing_signed m) s ≡ complete_close ext m t
      unfolding process_close_msg
      process_matches p t e d = ground arith

    pub process-Negotiated : Negotiated ext m s (process_close_msg ext (closing_signed m) s)
    process-Negotiated = elim (Option-cases (lookup m.fee_satoshis s.closer.prior_fee_offers)) [
      | inr (offer, l) ↦
          recalled offer l (process_recalls offer l)
            (rw (process_recalls offer l) (complete-Completed ext m s))
      | inl l ↦ elim (propose-Proposed ext (answer s.closer m) s) [
        | refused x t e w ↦ stopped x t (process_stops l x t e) e w
        | offered p t e f c w ↦ elim (Bool-cases (eqb_ℤ (answer s.closer m) m.fee_satoshis)) [
          | inl d ↦
              matched p t (ground arith) f c w (process_matches l p t e d)
                (rw (process_matches l p t e d) (complete-Completed ext m t))
          | inr d ↦ countered p t (process_counters l p t e d) d f c w
        ]
      ]
    ]
