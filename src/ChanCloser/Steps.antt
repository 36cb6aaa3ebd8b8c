-- ===== src/ChanCloser/Steps.antt =====
-- What the parts of a step do to the closer, as one case analysis for each part.
use lndmobile.Prelude.{
  ◌≡◌, ◌≢◌, ◌⊎◌, inl, inr, Option-cases, Bool, true, none, some, List, [], ◌∷◌, arith,
}
use lndmobile.Prelude.Assoc.{lookup, insert}
use lndmobile.Prelude.Exec.{Result, ok, err, panic, returns, fails, panics, ending}
use lndmobile.ChanCloser.Fee.{Amount}
use lndmobile.ChanCloser.External.{ClosingSigned, Message, closing_signed, External}
use lndmobile.ChanCloser.State.{amount_eq, Error, close_finished, ChannelCloser, Scene}
use lndmobile.ChanCloser.Machine.{propose_close_signed, complete_close}

-- The closer after an offer.
abbrev pub with_offer : {Tx : Type 0} → Amount → ClosingSigned → ChannelCloser Tx → ChannelCloser Tx
with_offer fee m c = record c {
  last_fee_proposal = fee;
  prior_fee_offers = insert fee m c.prior_fee_offers;
}

-- A completed close leaves the state and the closing transaction changed, and a failed one at most
-- the transaction.
abbrev pub IsClosedFrom : {Tx : Type 0} → ChannelCloser Tx → ChannelCloser Tx → Type 0
IsClosedFrom c d =
    (d ≡ record c { state = close_finished; closing_tx = d.closing_tx }) × (d.closing_tx ≢ none)

module _ {World Tx : Type 0} where
  -- A proposal is filed under its fee; one that fails may leave the fee behind as the last one.
  pub data Proposed (fee : Amount) (s : Scene World Tx)
      (r : Result Error ClosingSigned × Scene World Tx) : Type 0 where
    offered :
        (m : ClosingSigned) (t : Scene World Tx)
        → r ≡ (ok m, t)
        → m.fee_satoshis ≡ fee
        → m.channel_id ≡ s.closer.cid
        → t.closer ≡ with_offer fee m s.closer
        → Proposed fee s r
    refused :
        (e : Error) (t : Scene World Tx)
        → r ≡ (err e, t)
        → (t.closer ≡ s.closer) ⊎ (t.closer ≡ record s.closer { last_fee_proposal = fee })
        → Proposed fee s r

  -- A completed close answers with the offer that the fee is filed under; one that fails may leave
  -- the closing transaction behind.
  pub data Completed (m : ClosingSigned) (s : Scene World Tx)
      (r : Result Error (List Message × Bool) × Scene World Tx) : Type 0 where
    closed :
        (offer : ClosingSigned) (t : Scene World Tx)
        → r ≡ (ok (closing_signed offer ∷ [], true), t)
        → lookup m.fee_satoshis s.closer.prior_fee_offers ≡ some offer
        → IsClosedFrom s.closer t.closer
        → Completed m s r
    failed :
        (e : Error) (t : Scene World Tx)
        → r ≡ (err e, t)
        → t.closer ≡ record s.closer { closing_tx = t.closer.closing_tx }
        → Completed m s r
    missing :
        r ≡ (panic, s) → lookup m.fee_satoshis s.closer.prior_fee_offers ≡ none → Completed m s r

module _ {World Tx : Type 0} (ext : External World Tx) where
  propose_returns :
      (fee : Amount) (s : Scene World Tx) {m : ClosingSigned} {t : Scene World Tx}
      → propose_close_signed ext fee s ≡ (ok m, t)
      → (m.fee_satoshis ≡ fee)
        × (m.channel_id ≡ s.closer.cid)
        × (t.closer ≡ with_offer fee m s.closer)
  unfolding propose_close_signed
  propose_returns fee s e = ground arith

  propose_fails :
      (fee : Amount) (s : Scene World Tx) {x : Error} {t : Scene World Tx}
      → propose_close_signed ext fee s ≡ (err x, t)
      → (t.closer ≡ s.closer) ⊎ (t.closer ≡ record s.closer { last_fee_proposal = fee })
  unfolding propose_close_signed
  propose_fails fee s e = ground arith

  propose-ne-panic :
      (fee : Amount) (s : Scene World Tx) {t : Scene World Tx}
      → ¬ (propose_close_signed ext fee s ≡ (panic, t))
  unfolding propose_close_signed
  propose-ne-panic fee s e = ground arith

  pub propose-Proposed :
      (fee : Amount) (s : Scene World Tx) → Proposed fee s (propose_close_signed ext fee s)
  propose-Proposed fee s = elim (ending (propose_close_signed ext fee s)) [
    | returns m t e ↦ let h = propose_returns fee s e in offered m t e h.0 h.1 h.2
    | fails x t e ↦ refused x t e (propose_fails fee s e)
    | panics t e ↦ absurd (propose-ne-panic fee s e)
  ]

  complete_returns :
      (m : ClosingSigned) (s : Scene World Tx) (offer : ClosingSigned) (p : List Message × Bool)
      (t : Scene World Tx)
      → lookup m.fee_satoshis s.closer.prior_fee_offers ≡ some offer
      → complete_close ext m s ≡ (ok p, t)
      → (p ≡ (closing_signed offer ∷ [], true)) × IsClosedFrom s.closer t.closer
  unfolding complete_close
  complete_returns m s offer p t l e = ground arith

  complete_misses :
      (m : ClosingSigned) (s : Scene World Tx)
      → lookup m.fee_satoshis s.closer.prior_fee_offers ≡ none
      → complete_close ext m s ≡ (panic, s)
  unfolding complete_close
  complete_misses m s l = ground arith

  complete_fails :
      (m : ClosingSigned) (s : Scene World Tx) {x : Error} {t : Scene World Tx}
      → complete_close ext m s ≡ (err x, t)
      → t.closer ≡ record s.closer { closing_tx = t.closer.closing_tx }
  unfolding complete_close
  complete_fails m s e = ground arith

  complete-ne-panic :
      (m : ClosingSigned) (s : Scene World Tx) (offer : ClosingSigned) {t : Scene World Tx}
      → lookup m.fee_satoshis s.closer.prior_fee_offers ≡ some offer
      → ¬ (complete_close ext m s ≡ (panic, t))
  unfolding complete_close
  complete-ne-panic m s offer l e = ground arith

  pub complete-Completed :
      (m : ClosingSigned) (s : Scene World Tx) → Completed m s (complete_close ext m s)
  complete-Completed m s = elim (Option-cases (lookup m.fee_satoshis s.closer.prior_fee_offers)) [
    | inl l ↦ missing (complete_misses m s l) l
    | inr (offer, l) ↦ elim (ending (complete_close ext m s)) [
      | returns p t e ↦ let h = complete_returns m s offer p t l e in closed offer t (cc) l h.1
      | fails x t e ↦ failed x t e (complete_fails m s e)
      | panics t e ↦ absurd (complete-ne-panic m s offer l e)
    ]
  ]
