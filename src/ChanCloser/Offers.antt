-- ===== src/ChanCloser/Offers.antt =====
-- The map `priorFeeOffers` of a closer.
use lndmobile.Prelude.{◌≡◌, true, some, List, [], ◌∷◌, arith, All}
use lndmobile.Prelude.Int.{eqb_ℤ, eqb_ℤ_iff}
use lndmobile.Prelude.Assoc.{lookup, insert, lookup-insert}
use lndmobile.ChanCloser.Fee.{Amount}
use lndmobile.ChanCloser.External.{ChannelId, ClosingSigned}
use lndmobile.ChanCloser.State.{amount_eq}

abbrev pub Offers : Type 0
Offers = List (Amount × ClosingSigned)

-- Every offer is filed under its own fee, and is for the channel of the closer.
abbrev pub AreFiled : ChannelId → Offers → Type 0
AreFiled cid offers = All (λ e. (e.1.fee_satoshis ≡ e.0) × (e.1.channel_id ≡ cid)) offers

pub AreFiled-insert :
    (cid : ChannelId) (m : ClosingSigned) (offers : Offers)
    → m.channel_id ≡ cid
    → AreFiled cid offers
    → AreFiled cid (insert m.fee_satoshis m offers)
unfolding insert
AreFiled-insert cid m [] e h = ground arith
AreFiled-insert cid m (o ∷ os) e h = ground (arith, AreFiled-insert cid m os e)

pub lookup_filed :
    (cid : ChannelId) (fee : Amount) (offers : Offers) {m : ClosingSigned}
    → AreFiled cid offers
    → lookup fee offers ≡ some m
    → (m.fee_satoshis ≡ fee) × (m.channel_id ≡ cid)
unfolding lookup
lookup_filed cid fee [] h e = cc
lookup_filed cid fee (o ∷ os) {m} h e =
    ground (arith, eqb_ℤ_iff o.0 fee, lookup_filed cid fee os {m = m} h.1)

-- An offer just filed under a fee is found under an equal one.
pub lookup_new :
    (fee r : Amount) (m : ClosingSigned) (offers : Offers)
    → eqb_ℤ fee r ≡ true
    → lookup r (insert fee m offers) ≡ some m
lookup_new fee r m offers e = rw (lookup-insert, e)
