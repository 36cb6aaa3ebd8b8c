-- ===== src/ChanCloser/Tests.antt =====
-- A channel and a wallet that never fail, and the closer's theorems at concrete inputs.
use lndmobile.Prelude.{
  ℕ, ◌*◌, ◌≤◌, ◌<◌, ◌≡◌, ◌≢◌, ◌↔◌, ◌⊎◌, inr, refl, Bool, true, false, ◌||◌, ◌==◌, Option, none,
  some, List, [], ◌∷◌, ◌++◌, arith,
}
use lndmobile.Prelude.Int.{pos, ◌≤ℤ◌, ◌<ℤ◌, eqb_ℤ}
use lndmobile.Prelude.Assoc.{lookup, insert}
use lndmobile.Prelude.Exec.{ok, err, value}
use lndmobile.ChanCloser.Fee.{fee_in_acceptable_range, calc_compromise_fee}
use lndmobile.ChanCloser.Fee.Range.{IsWithin30, fee_in_acceptable_range_iff}
use lndmobile.ChanCloser.Fee.Compromise.{compromise_moves}
use lndmobile.ChanCloser.External.{ClosingSigned, Message, closing_signed, External}
use lndmobile.ChanCloser.State.{
  amount_eq, close_idle, close_fee_negotiation, ChannelCloser, Scene, err_chan_already_closing,
}
use lndmobile.ChanCloser.Machine.{
  new_channel_closer, shutdown_chan, process_close_msg, propose_close_signed, complete_close,
}
use lndmobile.ChanCloser.Negotiation.{own_shutdown}
use lndmobile.ChanCloser.Invariant.{IsValid, process-IsValid}
use lndmobile.ChanCloser.Protocol.{IsStep, process-IsStep, IsReply, negotiation_replies}
use lndmobile.ChanCloser.Liveness.{repeated, negotiation_stalls}
use lndmobile.ChanCloser.Broadcast.{Publishes, finish_publishes}
use lndmobile.ChanCloser.Lifecycle.{shutdown_once}

-- The world is the list of the transactions that were broadcast.
abbrev wallet : External (List ℕ) ℕ
wallet = record {
  is_initiator = λ w. true;
  calc_fee = λ rate w. pos (rate * 2);
  state_snapshot = λ w. record {
    commit_fee = pos 500;
    chain_hash = [];
    remote_identity = 9 ∷ [];
    capacity = pos 10000;
  };
  channel_point = λ w. record { hash = 5 ∷ []; index = 0 };
  short_chan_id = λ w. 77;
  create_close_proposal = λ fee a b w. (value (1 ∷ [], 2 ∷ [], fee), w);
  complete_cooperative_close = λ a b c d fee w. (value (42, fee), w);
  unregister_channel = λ c w. (value tt, w);
  broadcast_tx = λ tx w. (value tt, tx ∷ w);
  log_potential_close = λ c w. w;
  finalize = λ c w. (value tt, w);
  new_chan_id_from_out_point = λ o. o.hash;
  new_sig_from_raw_signature = λ b. value b;
  to_signature_bytes = λ g. g;
  sig_hash_all = 1;
  tx_hash = λ tx. tx ∷ [];
}

abbrev HasFirst : ℕ → List ℕ → Type 0
HasFirst tx [] = ⊥
HasFirst tx (x ∷ w) = x ≡ tx

wallet-Publishes : Publishes wallet HasFirst
wallet-Publishes = record { by_broadcast = λ tx w u e. grind arith; kept = λ tx w c h. h }

abbrev negotiating : ℕ → ℕ → Scene (List ℕ) ℕ
negotiating ideal last = record {
  closer = record {
    state = close_fee_negotiation;
    chan_point = record { hash = 5 ∷ []; index = 0 };
    cid = 5 ∷ [];
    negotiation_height = 100;
    closing_tx = none;
    ideal_fee_sat = pos ideal;
    last_fee_proposal = pos last;
    prior_fee_offers = [];
    close_req = none;
    local_delivery_script = 3 ∷ [];
    remote_delivery_script = 4 ∷ [];
  };
  world = [];
}

abbrev remote_offer : ℕ → ClosingSigned
remote_offer fee = record { channel_id = 5 ∷ []; fee_satoshis = pos fee; signature = 8 ∷ [] }

negotiating-IsValid : IsValid (negotiating 100 100).closer
negotiating-IsValid = ground arith

-- A remote fee within 30% is taken over, and the close is complete.
accepts_120 :
    (process_close_msg wallet (closing_signed (remote_offer 120)) (negotiating 100 100)).0
    ≡ ok (
      closing_signed (record { channel_id = 5 ∷ []; fee_satoshis = pos 120; signature = 1 ∷ [] })
          ∷ [],
      true,
    )
unfolding process_close_msg propose_close_signed complete_close calc_compromise_fee
    fee_in_acceptable_range lookup insert lndmobile.Prelude.Int.add64 lndmobile.Prelude.Int.mul64
    lndmobile.Prelude.Int.wrap64 lndmobile.Prelude.Int.◌+ℤ◌ lndmobile.Prelude.Int.◌*ℤ◌
    lndmobile.Prelude.Int.quot
accepts_120 = refl

fee_in_acceptable_range_iff_example :
    (fee_in_acceptable_range (pos 100) (pos 131) ≡ true) ↔ IsWithin30 100 (pos 131)
fee_in_acceptable_range_iff_example = fee_in_acceptable_range_iff 100 (pos 131) (omega arith)

compromise_moves_example :
    (pos 100 <ℤ pos 900
      → (pos 100 <ℤ calc_compromise_fee (pos 80) (pos 100) (pos 900))
        × (calc_compromise_fee (pos 80) (pos 100) (pos 900) ≤ℤ pos 900))
    × (pos 900 <ℤ pos 100
        → (pos 900 ≤ℤ calc_compromise_fee (pos 80) (pos 100) (pos 900))
          × (calc_compromise_fee (pos 80) (pos 100) (pos 900) <ℤ pos 100))
compromise_moves_example =
    compromise_moves (pos 80) 100 (pos 900) (omega arith) (omega arith) (λ e. ground arith)
      (omega arith)

process-IsValid_example :
    IsValid
      (process_close_msg wallet (closing_signed (remote_offer 120)) (negotiating 100 100)).1.closer
process-IsValid_example =
    process-IsValid wallet (closing_signed (remote_offer 120)) (negotiating 100 100)
      negotiating-IsValid

process-IsStep_example :
    IsStep close_fee_negotiation
      (process_close_msg wallet (closing_signed (remote_offer 120)) (negotiating 100 100)).0
      (process_close_msg wallet
        (closing_signed (remote_offer 120))
        (negotiating 100 100)).1.closer.state
process-IsStep_example =
    process-IsStep wallet (negotiating 100 100) (closing_signed (remote_offer 120))

-- The scene after the offer of 120.
abbrev closed_at_120 : Scene (List ℕ) ℕ
closed_at_120 =
    (process_close_msg wallet (closing_signed (remote_offer 120)) (negotiating 100 100)).1

abbrev offer_120 : ClosingSigned
offer_120 = record { channel_id = 5 ∷ []; fee_satoshis = pos 120; signature = 1 ∷ [] }

runs_to_120 :
    process_close_msg wallet (closing_signed (remote_offer 120)) (negotiating 100 100)
    ≡ (ok (closing_signed offer_120 ∷ [], true), closed_at_120)
unfolding process_close_msg propose_close_signed complete_close calc_compromise_fee
    fee_in_acceptable_range lookup insert lndmobile.Prelude.Int.add64 lndmobile.Prelude.Int.mul64
    lndmobile.Prelude.Int.wrap64 lndmobile.Prelude.Int.◌+ℤ◌ lndmobile.Prelude.Int.◌*ℤ◌
    lndmobile.Prelude.Int.quot
runs_to_120 = refl

negotiation_replies_example :
    (p : ClosingSigned) × (◌≡◌ {A = List Message}
      (closing_signed offer_120 ∷ [])
      (closing_signed p ∷ []))
    × IsReply (negotiating 100 100).closer closed_at_120.closer (remote_offer 120) p true
negotiation_replies_example =
    negotiation_replies wallet (remote_offer 120) (negotiating 100 100) closed_at_120
      (closing_signed offer_120 ∷ []) true negotiating-IsValid refl runs_to_120

finish_publishes_example :
    (tx : ℕ) × (closed_at_120.closer.closing_tx ≡ some tx) × HasFirst tx closed_at_120.world
finish_publishes_example =
    finish_publishes wallet HasFirst wallet-Publishes (remote_offer 120) (negotiating 100 100)
      closed_at_120 (closing_signed offer_120 ∷ []) negotiating-IsValid refl runs_to_120

negotiation_stalls_example :
    ((repeated wallet 1000 (remote_offer 20) (negotiating 8 9)).closer.state
      ≡ close_fee_negotiation)
    × ((repeated wallet 1000 (remote_offer 20) (negotiating 8 9)).closer.last_fee_proposal ≡ pos 9)
unfolding lookup
negotiation_stalls_example =
    negotiation_stalls wallet (remote_offer 20) 9 (pos 8) (omega arith) (omega arith)
      (λ w. omega arith) (λ e. ground arith) 1000 (negotiating 8 9) refl refl refl refl

abbrev fresh : Scene (List ℕ) ℕ
fresh = record { closer = new_channel_closer wallet [] 900 100 none []; world = [] }

shutdown_once_example :
    (fresh.closer.state ≡ close_idle
      → ((shutdown_chan wallet fresh).0 ≡ ok (own_shutdown fresh.closer))
        × ((shutdown_chan wallet fresh).1.closer.state
            ≡ lndmobile.ChanCloser.State.close_shutdown_initiated)
        × (shutdown_chan wallet (shutdown_chan wallet fresh).1
            ≡ (err err_chan_already_closing, (shutdown_chan wallet fresh).1)))
    × (fresh.closer.state ≢ close_idle
        → shutdown_chan wallet fresh ≡ (err err_chan_already_closing, fresh))
shutdown_once_example = shutdown_once wallet fresh
