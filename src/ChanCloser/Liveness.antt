-- ===== src/ChanCloser/Liveness.antt =====
-- Whether the negotiation ends, against a remote party that repeats one offer.
use lndmobile.Prelude.{ℕ, zero, suc, ◌-◌, ◌≤◌, ◌<◌, ◌≡◌, ◌≢◌, ◌⊎◌, false, none, arith}
use lndmobile.Prelude.Int.{pos, eqb_ℤ, eqb_ℤ_iff}
use lndmobile.Prelude.Assoc.{lookup, lookup-insert}
use lndmobile.Prelude.Exec.{value}
use lndmobile.ChanCloser.Fee.{Amount}
use lndmobile.ChanCloser.Fee.Range.{fee_bound, IsWithin30}
use lndmobile.ChanCloser.Fee.Compromise.{compromise_stalls}
use lndmobile.ChanCloser.Fee.Convergence.{distance}
use lndmobile.Wire.{Bytes}
use lndmobile.ChanCloser.External.{Sig, ClosingSigned, closing_signed, External}
use lndmobile.ChanCloser.State.{
  amount_eq, close_fee_negotiation, close_finished, ChannelCloser, Scene,
}
use lndmobile.ChanCloser.Machine.{process_close_msg}
use lndmobile.ChanCloser.Negotiation.{
  answer, recalled, matched, countered, stopped, process-Negotiated,
}

module _ {World Tx : Type 0} (ext : External World Tx) where
  -- The closer and the world after the remote party has sent one offer a number of times.
  pub repeated : ℕ → ClosingSigned → Scene World Tx → Scene World Tx
  repeated zero m s = s
  repeated (suc n) m s = repeated n m (process_close_msg ext (closing_signed m) s).1

-- Signing a proposal, parsing the signature that this gives, completing the close and broadcasting
-- never fail.
pub record Cooperates {World Tx : Type 0} (ext : External World Tx) : Type 0 where
  pub proposes :
      (fee : Amount) (a b : Bytes) (w : World)
      → (v : Bytes × Bytes × Amount) × (u : World) × (ext.create_close_proposal fee a b w
          ≡ (value v, u))
        × (g : Sig) × (ext.new_sig_from_raw_signature v.0 ≡ value g)
  pub completes :
      (a b c d : Bytes) (fee : Amount) (w : World)
      → (v : Tx × Amount) × (u : World) × (ext.complete_cooperative_close a b c d fee w
          ≡ (value v, u))
  pub broadcasts : (tx : Tx) (w : World) → (u : World) × (ext.broadcast_tx tx w ≡ (value tt, u))

module _ {World Tx : Type 0} (ext : External World Tx) (co : Cooperates ext) where
  -- What one round of the negotiation leaves to the next.
  data Round (m : ClosingSigned) (r : ℕ) (l : ℕ) (s : Scene World Tx) : Type 0 where
    over : s.closer.state ≡ close_finished → Round m r l s
    nearer :
        (l' : ℕ)
        → s.closer.state ≡ close_fee_negotiation
        → s.closer.last_fee_proposal ≡ pos l'
        → l' < fee_bound
        → (10 ≤ l') ⊎ (r ≤ l')
        → l' ≢ r
        → distance l' r ≤ distance l r - 1
        → Round m r l s

module _ {World Tx : Type 0} (ext : External World Tx) (m : ClosingSigned) (l : ℕ) (i : Amount)
    (p : 0 < l) (small : l < 10) (far : ¬ IsWithin30 l m.fee_satoshis)
    (ne : i ≢ m.fee_satoshis) where
  -- A closer that offers `l` satoshis over and over.
  record IsStuck (c : ChannelCloser Tx) : Type 0 where
    negotiating : c.state ≡ close_fee_negotiation
    ideal : c.ideal_fee_sat ≡ i
    last : c.last_fee_proposal ≡ pos l
    unknown_fee : lookup m.fee_satoshis c.prior_fee_offers ≡ none

  differs : eqb_ℤ (pos l) m.fee_satoshis ≡ false
  differs = ground arith

  round-IsStuck :
      (s : Scene World Tx)
      → IsStuck s.closer
      → IsStuck (process_close_msg ext (closing_signed m) s).1.closer
  round-IsStuck s k =
      let a : answer s.closer m ≡ pos l =
        rw (k.ideal, k.last) (compromise_stalls i l m.fee_satoshis (omega arith) p ne small far) in
      let d : eqb_ℤ (answer s.closer m) m.fee_satoshis ≡ false = rw a differs in
      elim (process-Negotiated ext m s k.negotiating) [
        | recalled offer e g c ↦ cc k.unknown_fee
        | matched o t e f x w g c ↦ cc ((eqb_ℤ_iff (answer s.closer m) m.fee_satoshis).1 e)
        | countered o t e d f x w ↦ rw e (
            rw w (record {
              negotiating = k.negotiating;
              ideal = k.ideal;
              last = a;
              unknown_fee = rw (lookup-insert, d) k.unknown_fee;
            }))
        | stopped x t e g w ↦ rw e (ground arith)
      ]

  stays-IsStuck :
      (n : ℕ) (s : Scene World Tx) → IsStuck s.closer → IsStuck (repeated ext n m s).closer
  unfolding repeated
  stays-IsStuck zero s k = k
  stays-IsStuck (suc n) s k = stays-IsStuck n _ (round-IsStuck s k)

  -- A last fee of 1 to 9 satoshis, and a remote party that repeats an offer which is not within 30%
  -- of it, is not our ideal fee and was not offered by us: however often it comes, and whatever the
  -- other packages do, the negotiation goes on and our last fee is still the same.
  pub negotiation_stalls :
      (n : ℕ) (s : Scene World Tx)
      → s.closer.state ≡ close_fee_negotiation
      → s.closer.ideal_fee_sat ≡ i
      → s.closer.last_fee_proposal ≡ pos l
      → lookup m.fee_satoshis s.closer.prior_fee_offers ≡ none
      → ((repeated ext n m s).closer.state ≡ close_fee_negotiation)
        × ((repeated ext n m s).closer.last_fee_proposal ≡ pos l)
  negotiation_stalls n s q a b c =
      let k =
        stays-IsStuck n s (record { negotiating = q; ideal = a; last = b; unknown_fee = c }) in
      (k.negotiating, k.last)
