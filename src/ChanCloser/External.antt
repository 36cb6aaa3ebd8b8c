-- ===== src/ChanCloser/External.antt =====
-- What lnd/chancloser.go uses of other packages: the wire messages, and the operations of the
-- channel, of the broadcaster and of the close context, as a record that the machine takes.
-- Everything that these operations may change is one value of the type `World`.
use lndmobile.Prelude.{ℕ, Bool}
use lndmobile.Prelude.Exec.{Reply}
use lndmobile.Wire.{Bytes, OutPoint}
use lndmobile.ChanCloser.Fee.{Amount}

-- lnwire.ChannelID, and lnwire.Sig.
abbrev pub ChannelId : Type 0
ChannelId = Bytes

abbrev pub Sig : Type 0
Sig = Bytes

-- lnwire.Shutdown
pub record Shutdown : Type 0 where
  pub channel_id : ChannelId
  pub address : Bytes

-- lnwire.ClosingSigned
pub record ClosingSigned : Type 0 where
  pub channel_id : ChannelId
  pub fee_satoshis : Amount
  pub signature : Sig

-- lnwire.Message, an interface: the two types of the closing, and any other, known by its number.
pub data Message : Type 0 where
  shutdown : Shutdown → Message
  closing_signed : ClosingSigned → Message
  other : ℕ → Message

-- The fields of channeldb.ChannelSnapshot that are read.
pub record ChannelSnapshot : Type 0 where
  pub commit_fee : Amount
  pub chain_hash : Bytes
  pub remote_identity : Bytes
  pub capacity : Amount

-- channeldb.ChannelCloseSummary, without the two fields that never vary here.
pub record ChannelCloseSummary : Type 0 where
  pub chan_point : OutPoint
  pub chain_hash : Bytes
  pub closing_txid : Bytes
  pub close_height : ℕ
  pub remote_pub : Bytes
  pub capacity : Amount
  pub settled_balance : Amount
  pub short_chan_id : ℕ

pub record External (World Tx : Type 0) : Type 0 where
  -- lnwallet.LightningChannel
  pub is_initiator : World → Bool
  pub calc_fee : ℕ → World → Amount
  pub state_snapshot : World → ChannelSnapshot
  pub channel_point : World → OutPoint
  pub short_chan_id : World → ℕ
  pub create_close_proposal :
      Amount → Bytes → Bytes → World → Reply (Bytes × Bytes × Amount) × World
  pub complete_cooperative_close :
      Bytes → Bytes → Bytes → Bytes → Amount → World → Reply (Tx × Amount) × World
  -- The two closures of `chanCloseCfg`.
  pub unregister_channel : ChannelId → World → Reply (Unit {0}) × World
  pub broadcast_tx : Tx → World → Reply (Unit {0}) × World
  -- contractcourt.CooperativeCloseCtx
  pub log_potential_close : ChannelCloseSummary → World → World
  pub finalize : ChannelCloseSummary → World → Reply (Unit {0}) × World
  -- lnwire, wire and txscript
  pub new_chan_id_from_out_point : OutPoint → ChannelId
  pub new_sig_from_raw_signature : Bytes → Reply Sig
  pub to_signature_bytes : Sig → Bytes
  pub sig_hash_all : ℕ
  pub tx_hash : Tx → Bytes
