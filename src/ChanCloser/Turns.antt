-- ===== src/ChanCloser/Turns.antt =====
-- The cases of the switch in `ProcessCloseMsg`: which message is taken in which state.
use lndmobile.Prelude.{◌≡◌, refl, true, [], arith}
use lndmobile.Prelude.Exec.{ok, err}
use lndmobile.ChanCloser.External.{
  Shutdown, ClosingSigned, Message, shutdown, closing_signed, other, External,
}
use lndmobile.ChanCloser.State.{
  Error, err_invalid_state, expected_shutdown, expected_closing_signed, CloseState, close_idle,
  close_shutdown_initiated, close_fee_negotiation, close_finished, unknown, Scene,
}
use lndmobile.ChanCloser.Machine.{process_close_msg}

module _ {World Tx : Type 0} (ext : External World Tx) (s : Scene World Tx) where
  -- A message that starts the negotiation, one that carries it on, the echo of the last message,
  -- or one that is refused and changes nothing.
  pub data Turn : Message → Type 0 where
    at_idle : (m : Shutdown) → s.closer.state ≡ close_idle → Turn (shutdown m)
    at_initiated : (m : Shutdown) → s.closer.state ≡ close_shutdown_initiated → Turn (shutdown m)
    at_negotiation :
        (m : ClosingSigned) → s.closer.state ≡ close_fee_negotiation → Turn (closing_signed m)
    echoed :
        (m : ClosingSigned)
        → s.closer.state ≡ close_finished
        → process_close_msg ext (closing_signed m) s ≡ (ok ([], true), s)
        → Turn (closing_signed m)
    rejected : (msg : Message) (e : Error) → process_close_msg ext msg s ≡ (err e, s) → Turn msg

  find-Turn : (c : CloseState) (msg : Message) → s.closer.state ≡ c → Turn msg
  unfolding process_close_msg
  find-Turn close_idle (shutdown m) q = at_idle m q
  find-Turn close_idle (closing_signed m) q =
      rejected _ (expected_shutdown (closing_signed m)) (ground arith)
  find-Turn close_idle (other n) q = rejected _ (expected_shutdown (other n)) (ground arith)
  find-Turn close_shutdown_initiated (shutdown m) q = at_initiated m q
  find-Turn close_shutdown_initiated (closing_signed m) q =
      rejected _ (expected_shutdown (closing_signed m)) (ground arith)
  find-Turn close_shutdown_initiated (other n) q =
      rejected _ (expected_shutdown (other n)) (ground arith)
  find-Turn close_fee_negotiation (closing_signed m) q = at_negotiation m q
  find-Turn close_fee_negotiation (shutdown m) q =
      rejected _ (expected_closing_signed (shutdown m)) (ground arith)
  find-Turn close_fee_negotiation (other n) q =
      rejected _ (expected_closing_signed (other n)) (ground arith)
  find-Turn close_finished (closing_signed m) q = echoed m q (ground arith)
  find-Turn close_finished (shutdown m) q =
      rejected _ (expected_closing_signed (shutdown m)) (ground arith)
  find-Turn close_finished (other n) q =
      rejected _ (expected_closing_signed (other n)) (ground arith)
  find-Turn (unknown n) msg q = rejected _ err_invalid_state (ground arith)

  pub turn : (msg : Message) → Turn msg
  turn msg = find-Turn s.closer.state msg refl
