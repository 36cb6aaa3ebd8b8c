-- ===== src/ChanCloser/Lifecycle.antt =====
-- The beginning and the end of a closer: its construction, `ShutdownChan` and `ClosingTx`.
use lndmobile.Prelude.{ℕ, ◌≡◌, ◌≢◌, ◌⊎◌, inl, inr, refl, Option, some, Option-cases, arith}
use lndmobile.Prelude.Int.{◌≤ℤ◌}
use lndmobile.Prelude.Exec.{ok, err}
use lndmobile.Wire.{Bytes}
use lndmobile.ChanCloser.External.{External}
use lndmobile.ChanCloser.State.{
  close_idle, close_shutdown_initiated, close_finished, err_chan_already_closing,
  err_chan_close_not_finished, Scene,
}
use lndmobile.ChanCloser.Machine.{new_channel_closer, shutdown_chan, closing_tx}
use lndmobile.ChanCloser.Negotiation.{own_shutdown}
use lndmobile.ChanCloser.Invariant.{IsValid, new-IsValid}

module _ {World Tx : Type 0} (ext : External World Tx) where
  -- A new closer is valid and idle, and its ideal fee is the lesser of the fee estimate and the fee
  -- of the current commitment transaction.
  pub new_clamps :
      (script : Bytes) (fee_per_kw height : ℕ) (req : Option ℕ) (w : World)
      → let c = new_channel_closer ext script fee_per_kw height req w in
        IsValid c
        × (c.state ≡ close_idle)
        × (c.ideal_fee_sat ≤ℤ ext.calc_fee fee_per_kw w)
        × (c.ideal_fee_sat ≤ℤ (ext.state_snapshot w).commit_fee)
        × ((c.ideal_fee_sat ≡ ext.calc_fee fee_per_kw w)
            ⊎ (c.ideal_fee_sat ≡ (ext.state_snapshot w).commit_fee))
  unfolding new_channel_closer
  new_clamps script fee_per_kw height req w = (
    new-IsValid ext script fee_per_kw height req w,
    refl,
    ground arith,
    ground arith,
    ground arith,
  )

  -- `ShutdownChan` succeeds once: from the idle state it returns our shutdown message, for our
  -- channel and delivery script, and a second call fails and changes nothing; from any other state
  -- it fails and changes nothing.
  pub shutdown_once :
      (s : Scene World Tx)
      → (s.closer.state ≡ close_idle
          → ((shutdown_chan ext s).0 ≡ ok (own_shutdown s.closer))
            × ((shutdown_chan ext s).1.closer.state ≡ close_shutdown_initiated)
            × (shutdown_chan ext (shutdown_chan ext s).1
                ≡ (err err_chan_already_closing, (shutdown_chan ext s).1)))
        × (s.closer.state ≢ close_idle → shutdown_chan ext s ≡ (err err_chan_already_closing, s))
  unfolding shutdown_chan
  shutdown_once s = (λ q. (ground arith, ground arith, ground arith), λ q. ground arith)

  -- `ClosingTx` of a valid closer gives a transaction exactly in the finished state; in the other
  -- states it is the error for an unfinished close. It never changes anything.
  pub closing_tx_available :
      (s : Scene World Tx)
      → IsValid s.closer
      → (s.closer.state ≡ close_finished → (tx : Tx) × (closing_tx ext s ≡ (ok (some tx), s)))
        × (s.closer.state ≢ close_finished
            → closing_tx ext s ≡ (err err_chan_close_not_finished, s))
  unfolding closing_tx
  closing_tx_available s v = (
    λ q. elim (Option-cases s.closer.closing_tx) [
      | inl n ↦ absurd (v.finished q n)
      | inr (tx, e) ↦ (tx, ground arith)
    ],
    λ q. ground arith,
  )
