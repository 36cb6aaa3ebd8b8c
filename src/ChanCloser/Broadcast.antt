-- ===== src/ChanCloser/Broadcast.antt =====
-- The publishing of the closing transaction (lnd/chancloser.go).
use lndmobile.Prelude.{◌≡◌, refl, Bool, true, some, List, arith, Option-cases, inl, inr, sym, ◌∙◌}
use lndmobile.Prelude.Exec.{ok, value}
use lndmobile.ChanCloser.External.{
  ClosingSigned, Message, ChannelCloseSummary, closing_signed, External,
}
use lndmobile.ChanCloser.State.{amount_eq, close_fee_negotiation, Scene}
use lndmobile.ChanCloser.Machine.{complete_close, process_close_msg}
use lndmobile.ChanCloser.Invariant.{IsValid}
use lndmobile.ChanCloser.Protocol.{negotiation_replies}
use lndmobile.ChanCloser.Negotiation.{recalled, matched, countered, stopped, process-Negotiated}

-- What "published" may mean: a successful broadcast makes it so, and closing the channel in the
-- database does not undo it.
pub record Publishes {World Tx : Type 0} (ext : External World Tx) (P : Tx → World → Type 0)
    : Type 0 where
  pub by_broadcast : (tx : Tx) (w u : World) → ext.broadcast_tx tx w ≡ (value tt, u) → P tx u
  pub kept : (tx : Tx) (w : World) (c : ChannelCloseSummary) → P tx w → P tx (ext.finalize c w).1

module _ {World Tx : Type 0} (ext : External World Tx) (P : Tx → World → Type 0)
    (pub_laws : Publishes ext P) where
  complete_publishes :
      (m : ClosingSigned) (s t : Scene World Tx) (ms : List Message) (done : Bool) (tx : Tx)
      → complete_close ext m s ≡ (ok (ms, done), t)
      → t.closer.closing_tx ≡ some tx
      → P tx t.world
  unfolding complete_close
  complete_publishes m s t ms done tx e c = grind (arith, pub_laws.by_broadcast, pub_laws.kept)

  process_publishes :
      (m : ClosingSigned) (s t : Scene World Tx) (ms : List Message) (tx : Tx)
      → s.closer.state ≡ close_fee_negotiation
      → process_close_msg ext (closing_signed m) s ≡ (ok (ms, true), t)
      → t.closer.closing_tx ≡ some tx
      → P tx t.world
  process_publishes m s t ms tx q e c = elim (process-Negotiated ext m s q) [
    | recalled o l g d ↦ complete_publishes m s t ms true tx (sym g ∙ e) c
    | matched p u a f i w g d ↦ complete_publishes m u t ms true tx (sym g ∙ e) c
    | countered p u h a f i w ↦ cc
    | stopped x u h g w ↦ cc
  ]

  -- When an offer of the remote party ends the negotiation of a valid closer, the closer has a
  -- closing transaction, and that transaction is published, for any reading of "published" that a
  -- successful broadcast establishes and that closing the channel in the database keeps.
  pub finish_publishes :
      (m : ClosingSigned) (s t : Scene World Tx) (ms : List Message)
      → IsValid s.closer
      → s.closer.state ≡ close_fee_negotiation
      → process_close_msg ext (closing_signed m) s ≡ (ok (ms, true), t)
      → (tx : Tx) × (t.closer.closing_tx ≡ some tx) × P tx t.world
  finish_publishes m s t ms v q e = elim (Option-cases t.closer.closing_tx) [
    | inl n ↦ absurd (((negotiation_replies ext m s t ms true v q e).2.accepts refl).2 n)
    | inr (tx, c) ↦ (tx, c, process_publishes m s t ms tx q e c)
  ]
