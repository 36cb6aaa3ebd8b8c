-- ===== src/ChanCloser/State.antt =====
-- The types of lnd/chancloser.go, and the actions of its methods on a closer and the world.
use lndmobile.Prelude.{ℕ, Option, List}
use lndmobile.Prelude.Int.{ℤ, eqb_ℤ, eqb_ℤ_iff}
use lndmobile.Prelude.Assoc.{Eq}
use lndmobile.Prelude.Exec.{ok, err, Reply, value, failure, Exec, pure, raise, modify}
use lndmobile.ChanCloser.Fee.{Amount}
use lndmobile.Wire.{Bytes, OutPoint}
use lndmobile.ChanCloser.External.{ChannelId, ClosingSigned, Message}

instance abbrev pub amount_eq : Eq ℤ
amount_eq = record { beq = eqb_ℤ; beq_iff = eqb_ℤ_iff }

-- A `uint8`; `unknown` is any value but the four constants.
pub data CloseState : Type 0 where
  close_idle close_shutdown_initiated close_fee_negotiation close_finished : CloseState
  unknown : ℕ → CloseState

pub data Error : Type 0 where
  err_chan_already_closing err_chan_close_not_finished err_invalid_state : Error
  expected_shutdown expected_closing_signed : Message → Error
  external : ℕ → Error

-- `cfg` and `closeCtx` are the record `External` and the world. A close request is a number.
pub record ChannelCloser (Tx : Type 0) : Type 0 where
  pub state : CloseState
  pub chan_point : OutPoint
  pub cid : ChannelId
  pub negotiation_height : ℕ
  pub closing_tx : Option Tx
  pub ideal_fee_sat : Amount
  pub last_fee_proposal : Amount
  pub prior_fee_offers : List (Amount × ClosingSigned)
  pub close_req : Option ℕ
  pub local_delivery_script : Bytes
  pub remote_delivery_script : Bytes

-- A closer in its world.
pub record Scene (World Tx : Type 0) : Type 0 where
  pub closer : ChannelCloser Tx
  pub world : World

abbrev pub Action : Type 0 → Type 0 → Type 0 → Type 0
Action World Tx A = Exec Error (Scene World Tx) A

module _ {World Tx : Type 0} where
  abbrev pub update : (ChannelCloser Tx → ChannelCloser Tx) → Action World Tx (Unit {0})
  update f = modify (λ s. record s { closer = f s.closer })

  -- A call of other code whose error is returned.
  abbrev pub call : {A : Type 0} → (World → Reply A × World) → Action World Tx A
  call f s =
      let (r, w) = f s.world in
      elim r [
        | value a ↦ (ok a, record s { world = w })
        | failure n ↦ (err (external n), record s { world = w })
      ]

  -- A call of other code whose result is dropped.
  abbrev pub call_ignored : {A : Type 0} → (World → Reply A × World) → Action World Tx (Unit {0})
  call_ignored f = modify (λ s. record s { world = (f s.world).1 })

  abbrev pub check : {A : Type 0} → Reply A → Action World Tx A
  check (value a) = pure a
  check (failure n) = raise (external n)
