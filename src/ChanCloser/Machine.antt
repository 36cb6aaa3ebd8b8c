-- ===== src/ChanCloser/Machine.antt =====
-- The state machine of lnd/chancloser.go, `channelCloser`. Each method is an action on the closer
-- and the world around it. Log lines are left out.
use lndmobile.Prelude.{ℕ, Bool, true, false, Option, none, some, List, [], ◌∷◌, ◌++◌, if◌then◌else◌}
use lndmobile.Prelude.Int.{pos, ltb_ℤ, eqb_ℤ}
use lndmobile.Prelude.Assoc.{lookup, insert}
use lndmobile.Prelude.Exec.{pure, raise, crash, gets, modify, ◌>>=◌, ◌>>◌}
use lndmobile.ChanCloser.Fee.{Amount, calc_compromise_fee}
use lndmobile.Wire.{Bytes}
use lndmobile.ChanCloser.External.{
  Shutdown, ClosingSigned, Message, shutdown, closing_signed, ChannelCloseSummary, External,
}
use lndmobile.ChanCloser.State.{
  amount_eq, close_idle, close_shutdown_initiated, close_fee_negotiation, close_finished, unknown,
  err_chan_already_closing, err_chan_close_not_finished, err_invalid_state, expected_shutdown,
  expected_closing_signed, ChannelCloser, Action, update, call, call_ignored, check,
}

module _ {World Tx : Type 0} (ext : External World Tx) where
  open ext use {
    is_initiator, calc_fee, state_snapshot, channel_point, short_chan_id, create_close_proposal,
    complete_cooperative_close, unregister_channel, broadcast_tx, log_potential_close, finalize,
    new_chan_id_from_out_point, new_sig_from_raw_signature, to_signature_bytes, sig_hash_all,
    tx_hash,
  }

  unfoldable pub new_channel_closer : Bytes → ℕ → ℕ → Option ℕ → World → ChannelCloser Tx
  new_channel_closer delivery_script ideal_fee_per_kw negotiation_height close_req w =
      let ideal = calc_fee ideal_fee_per_kw w in
      let commit = (state_snapshot w).commit_fee in
      record {
        state = close_idle;
        chan_point = channel_point w;
        cid = new_chan_id_from_out_point (channel_point w);
        negotiation_height = negotiation_height;
        closing_tx = none;
        ideal_fee_sat = if ltb_ℤ commit ideal then commit else ideal;
        last_fee_proposal = pos 0;
        prior_fee_offers = [];
        close_req = close_req;
        local_delivery_script = delivery_script;
        remote_delivery_script = [];
      }

  unfoldable pub init_chan_shutdown : Action World Tx Shutdown
  init_chan_shutdown = do
    c ← gets (λ s. s.closer)
    call_ignored (unregister_channel c.cid)
    pure (record { channel_id = c.cid; address = c.local_delivery_script })

  unfoldable pub shutdown_chan : Action World Tx Shutdown
  unfolding init_chan_shutdown
  shutdown_chan = do
    c ← gets (λ s. s.closer)
    elim c.state [
      | close_idle ↦ do
        msg ← init_chan_shutdown
        update (λ d. record d { state = close_shutdown_initiated })
        pure msg
      | _ ↦ raise err_chan_already_closing
    ]

  unfoldable pub closing_tx : Action World Tx (Option Tx)
  closing_tx = do
    c ← gets (λ s. s.closer)
    elim c.state [ close_finished ↦ pure c.closing_tx | _ ↦ raise err_chan_close_not_finished ]

  unfoldable pub close_request : ChannelCloser Tx → Option ℕ
  close_request c = c.close_req

  -- The summary of the channel in the database, `IsPending` and a cooperative close.
  abbrev summary : ChannelCloser Tx → World → Bytes → Amount → ChannelCloseSummary
  summary c w txid balance = record {
    chan_point = c.chan_point;
    chain_hash = (state_snapshot w).chain_hash;
    closing_txid = txid;
    close_height = c.negotiation_height;
    remote_pub = (state_snapshot w).remote_identity;
    capacity = (state_snapshot w).capacity;
    settled_balance = balance;
    short_chan_id = short_chan_id w;
  }

  unfoldable pub propose_close_signed : Amount → Action World Tx ClosingSigned
  propose_close_signed fee = do
    c ← gets (λ s. s.closer)
    proposal ← call (create_close_proposal fee c.local_delivery_script c.remote_delivery_script)
    update (λ d. record d { last_fee_proposal = fee })
    parsed_sig ← check (new_sig_from_raw_signature proposal.0)
    let msg : ClosingSigned = record {
      channel_id = c.cid;
      fee_satoshis = fee;
      signature = parsed_sig;
    }
    update (λ d. record d { prior_fee_offers = insert fee msg d.prior_fee_offers })
    modify (λ s. record s {
      world = log_potential_close (summary s.closer s.world proposal.1 proposal.2) s.world;
    })
    pure msg

  -- The initial proposal, which only the initiator of the channel makes.
  unfoldable pub first_proposal : Action World Tx (List Message)
  first_proposal = do
    c ← gets (λ s. s.closer)
    initiator ← gets (λ s. is_initiator s.world)
    if initiator
        then (do msg ← propose_close_signed c.ideal_fee_sat; pure (closing_signed msg ∷ []))
        else pure []

  -- The case `closeIdle` of the switch.
  unfoldable pub on_idle : Message → Action World Tx (List Message × Bool)
  unfolding init_chan_shutdown
  on_idle (shutdown m) = do
    update (λ c. record c { remote_delivery_script = m.address })
    local_shutdown ← init_chan_shutdown
    update (λ c. record c { state = close_fee_negotiation })
    proposal ← first_proposal
    pure (shutdown local_shutdown ∷ proposal, false)
  on_idle msg = raise (expected_shutdown msg)

  -- The case `closeShutdownInitiated`.
  unfoldable pub on_shutdown_initiated : Message → Action World Tx (List Message × Bool)
  on_shutdown_initiated (shutdown m) = do
    update (λ c. record c { remote_delivery_script = m.address })
    update (λ c. record c { state = close_fee_negotiation })
    proposal ← first_proposal
    pure (proposal, false)
  on_shutdown_initiated msg = raise (expected_shutdown msg)

  -- The second half of the case `closeFeeNegotiation`: the remote fee is one of our offers. The
  -- map gives a nil pointer where it has no such offer, and reading its signature panics.
  unfoldable pub complete_close : ClosingSigned → Action World Tx (List Message × Bool)
  complete_close m = do
    c ← gets (λ s. s.closer)
    elim (lookup m.fee_satoshis c.prior_fee_offers) [
      | none ↦ crash
      | some matching_offer ↦ do
        let local_sig = to_signature_bytes matching_offer.signature ++ sig_hash_all ∷ []
        let remote_sig = to_signature_bytes m.signature ++ sig_hash_all ∷ []
        done ← call (
            complete_cooperative_close local_sig remote_sig c.local_delivery_script
              c.remote_delivery_script m.fee_satoshis)
        update (λ d. record d { closing_tx = some done.0 })
        call (broadcast_tx done.0)
        w ← gets (λ s. s.world)
        call_ignored (finalize (summary c w (tx_hash done.0) done.1))
        update (λ d. record d { state = close_finished })
        pure (closing_signed matching_offer ∷ [], true)
    ]

  -- The case `closeFeeNegotiation`.
  unfoldable pub on_fee_negotiation : Message → Action World Tx (List Message × Bool)
  on_fee_negotiation (closing_signed m) = do
    c ← gets (λ s. s.closer)
    elim (lookup m.fee_satoshis c.prior_fee_offers) [
      | some offer ↦ complete_close m
      | none ↦ do
        let fee = calc_compromise_fee c.ideal_fee_sat c.last_fee_proposal m.fee_satoshis
        proposal ← propose_close_signed fee
        if eqb_ℤ fee m.fee_satoshis
            then complete_close m
            else pure (closing_signed proposal ∷ [], false)
    ]
  on_fee_negotiation msg = raise (expected_closing_signed msg)

  -- The case `closeFinished`.
  unfoldable pub on_finished : Message → Action World Tx (List Message × Bool)
  on_finished (closing_signed m) = pure ([], true)
  on_finished msg = raise (expected_closing_signed msg)

  unfoldable pub process_close_msg : Message → Action World Tx (List Message × Bool)
  unfolding on_idle on_shutdown_initiated on_fee_negotiation on_finished
  process_close_msg msg = do
    c ← gets (λ s. s.closer)
    elim c.state [
      | close_idle ↦ on_idle msg
      | close_shutdown_initiated ↦ on_shutdown_initiated msg
      | close_fee_negotiation ↦ on_fee_negotiation msg
      | close_finished ↦ on_finished msg
      | unknown n ↦ raise err_invalid_state
    ]
