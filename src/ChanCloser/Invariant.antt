-- ===== src/ChanCloser/Invariant.antt =====
-- What holds of a closer between two messages.
use lndmobile.Prelude.{◌≡◌, ◌≢◌, ◌⊎◌, Bool, ℕ, Option, none, List, [], arith, refl}
use lndmobile.Prelude.Int.{pos}
use lndmobile.Prelude.Exec.{Result}
use lndmobile.ChanCloser.Fee.{Amount}
use lndmobile.Wire.{Bytes}
use lndmobile.ChanCloser.External.{
  Shutdown, ClosingSigned, Message, shutdown, closing_signed, External,
}
use lndmobile.ChanCloser.State.{
  Error, close_idle, close_shutdown_initiated, close_fee_negotiation, close_finished, ChannelCloser,
  Scene,
}
use lndmobile.ChanCloser.Machine.{
  new_channel_closer, shutdown_chan, first_proposal, process_close_msg,
}
use lndmobile.ChanCloser.Offers.{AreFiled, AreFiled-insert}
use lndmobile.ChanCloser.Steps.{with_offer, Completed, closed, failed, missing}
use lndmobile.ChanCloser.Negotiation.{
  silent, spoken, withheld, first_proposal-Opened, recalled, matched, countered, stopped,
  process-Negotiated, responding, initiating, idle_closer, initiated_closer,
}
use lndmobile.ChanCloser.Turns.{Turn, at_idle, at_initiated, at_negotiation, echoed, rejected, turn}

-- Every offer is filed under its own fee and is for this channel; before the negotiation nothing
-- has been offered; a finished closer has its closing transaction.
pub record IsValid {Tx : Type 0} (c : ChannelCloser Tx) : Type 0 where
  pub filed : AreFiled c.cid c.prior_fee_offers
  pub quiet_idle : c.state ≡ close_idle → (c.prior_fee_offers ≡ []) × (c.last_fee_proposal ≡ pos 0)
  pub quiet_initiated :
      c.state ≡ close_shutdown_initiated → (c.prior_fee_offers ≡ []) × (c.last_fee_proposal ≡ pos 0)
  pub finished : c.state ≡ close_finished → c.closing_tx ≢ none

module _ {Tx : Type 0} (c : ChannelCloser Tx) (v : IsValid c) where
  last-IsValid :
      (d : ChannelCloser Tx) (fee : Amount)
      → c.state ≡ close_fee_negotiation
      → (d ≡ c) ⊎ (d ≡ record c { last_fee_proposal = fee })
      → IsValid d
  last-IsValid d fee q e = ground (arith, v.filed)

  pub offer-IsValid :
      (d : ChannelCloser Tx) (fee : Amount) (m : ClosingSigned)
      → c.state ≡ close_fee_negotiation
      → m.fee_satoshis ≡ fee
      → m.channel_id ≡ c.cid
      → d ≡ with_offer fee m c
      → IsValid d
  offer-IsValid d fee m q f i e =
      ground (arith, v.filed, AreFiled-insert c.cid m c.prior_fee_offers i v.filed)

  Completed-IsValid :
      {World : Type 0} (m : ClosingSigned) (w : World)
      (r : Result Error (List Message × Bool) × Scene World Tx)
      → c.state ≡ close_fee_negotiation
      → Completed m (record { closer = c; world = w }) r
      → IsValid r.1.closer
  Completed-IsValid m w r q (closed offer t e l h) = rw e (ground (arith, v.filed))
  Completed-IsValid m w r q (failed x t e h) = rw e (ground (arith, v.filed))
  Completed-IsValid m w r q (missing e l) = rw e v

module _ {World Tx : Type 0} (ext : External World Tx) where
  -- A new closer is valid, and its ideal fee is at most the fee of the commitment transaction.
  pub new-IsValid :
      (script : Bytes) (fee_per_kw height : ℕ) (req : Option ℕ) (w : World)
      → IsValid (new_channel_closer ext script fee_per_kw height req w)
  unfolding new_channel_closer
  new-IsValid script fee_per_kw height req w = ground arith

  pub shutdown_chan-IsValid :
      (s : Scene World Tx) → IsValid s.closer → IsValid (shutdown_chan ext s).1.closer
  unfolding shutdown_chan
  shutdown_chan-IsValid s v = ground (arith, v.filed)

  opened-IsValid :
      (s : Scene World Tx)
      → IsValid s.closer
      → s.closer.state ≡ close_fee_negotiation
      → IsValid (first_proposal ext s).1.closer
  opened-IsValid s v q = elim (first_proposal-Opened ext s) [
    | silent e ↦ rw e v
    | spoken m t e f i w ↦ rw e (offer-IsValid s.closer v t.closer _ m q f i w)
    | withheld x t e w ↦ rw e (last-IsValid s.closer v t.closer _ q w)
  ]

  module _ (s : Scene World Tx) (v : IsValid s.closer) where
    idle-IsValid :
        (m : Shutdown)
        → s.closer.state ≡ close_idle
        → IsValid (process_close_msg ext (shutdown m) s).1.closer
    idle-IsValid m q =
        rw (idle_closer ext m s q)
          (opened-IsValid (responding ext m s) (ground (arith, v.filed)) refl)

    initiated-IsValid :
        (m : Shutdown)
        → s.closer.state ≡ close_shutdown_initiated
        → IsValid (process_close_msg ext (shutdown m) s).1.closer
    initiated-IsValid m q =
        rw (initiated_closer ext m s q)
          (opened-IsValid (initiating ext m s) (ground (arith, v.filed)) refl)

    negotiation-IsValid :
        (m : ClosingSigned)
        → s.closer.state ≡ close_fee_negotiation
        → IsValid (process_close_msg ext (closing_signed m) s).1.closer
    negotiation-IsValid m q = elim (process-Negotiated ext m s q) [
      | recalled offer l g d ↦ Completed-IsValid s.closer v m s.world _ q d
      | matched p t a f i w g d ↦
          Completed-IsValid t.closer (offer-IsValid s.closer v t.closer _ p q f i w) m t.world _
            (ground arith) d
      | countered p t e a f i w ↦ rw e (offer-IsValid s.closer v t.closer _ p q f i w)
      | stopped x t e g w ↦ rw e (last-IsValid s.closer v t.closer _ q w)
    ]

  -- A message of any kind keeps a closer valid, whether it is taken, refused or ends in an error.
  pub process-IsValid :
      (msg : Message) (s : Scene World Tx)
      → IsValid s.closer
      → IsValid (process_close_msg ext msg s).1.closer
  process-IsValid msg s v = by_turn msg (turn ext s msg)
    where
      by_turn : (k : Message) → Turn ext s k → IsValid (process_close_msg ext k s).1.closer
      by_turn _ (at_idle m q) = idle-IsValid s v m q
      by_turn _ (at_initiated m q) = initiated-IsValid s v m q
      by_turn _ (at_negotiation m q) = negotiation-IsValid s v m q
      by_turn _ (echoed m q e) = rw e v
      by_turn _ (rejected k x e) = rw e v
