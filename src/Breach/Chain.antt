-- ===== src/Breach/Chain.antt =====
-- What the breach arbiter (lnd/breacharbiter.go) uses of the notifier, of the chain and of channeldb,
-- and the calls of it that other parts see.
use lndmobile.Prelude.{ℕ, Bool, Option}
use lndmobile.Prelude.Int.{ℤ}
use lndmobile.Prelude.Exec.{Reply}
use lndmobile.Wire.{Bytes, MsgTx, OutPoint}
use lndmobile.Breach.Wallet.{Txn}

-- What is there on the channel of a spend notification: the hash and the first value of the spending
-- transaction, nothing as the channel is closed, or nothing yet.
pub data Poll : Type 0 where
  spent : Bytes → ℤ → Poll
  ended pending : Poll

-- The error of `PublishTransaction`.
pub data Publication : Type 0 where
  accepted double_spend refused : Publication

-- What the breach arbiter uses of the notifier, of the chain and of channeldb.
pub record Chain (World : Type 0) : Type 0 where
  -- The height of the confirmation of the breach, unless the daemon shuts down.
  pub await_breach : World → Option ℕ × World
  pub register_spend_ntfn : OutPoint → ℕ → World → Reply ℕ × World
  pub poll_spend : ℕ → World → Poll × World
  pub quitting : World → Bool × World
  pub serialize : Txn → MsgTx
  -- Whether the database commits what `Finalize` writes; else it returns an error.
  pub commits : World → Bool × World
  pub publish_transaction : MsgTx → World → Publication × World
  pub register_confirmations_ntfn : Bytes → ℕ → World → Reply ℕ × World
  pub await_justice : ℕ → World → Bool × World
  pub mark_chan_fully_closed : OutPoint → World → Reply (Unit {0}) × World

pub data Event : Type 0 where
  -- An output was found to be spent to the second level.
  converted : OutPoint → Event
  finalized published confirmed : MsgTx → Event
  closed removed : OutPoint → Event
