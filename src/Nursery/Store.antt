-- ===== src/Nursery/Store.antt =====
-- The tables of lnd/nursery_store.go, below the bucket of its chain: the two heights, the channel
-- index and the height index. The keys are those that the code serialises: a channel point, a
-- height, and a state prefix with an outpoint.
pub mod Buckets
pub mod Transitions
pub mod Queries
pub mod Views
pub mod Removal
pub mod Frame
pub mod Laws
pub mod Moves
pub mod Entry
pub mod Incubation
pub mod Registration
pub mod Consistency
pub mod Reachable
pub mod Maturity
pub mod Graduation
mod Tests
use lndmobile.Prelude.{ℕ, ◌≡◌, ◌↔◌, Bool, true, false, ◌&&◌, Option, none, some, arith, refl}
use lndmobile.Prelude.Assoc.{Eq, nat_eq}
use lndmobile.Wire.{Bytes, MsgTx, OutPoint, out_point_eqb, out_point_eqb_iff, out_point_eq}
use lndmobile.Bolt.{Bolt}
use lndmobile.Nursery.Output.{KidOutput, BabyOutput}

-- cribPrefix, psclPrefix, kndrPrefix, gradPrefix.
pub data Prefix : Type 0 where
  crib pscl kndr grad : Prefix

abbrev pub prefix_eqb : Prefix → Prefix → Bool
prefix_eqb crib crib = true
prefix_eqb pscl pscl = true
prefix_eqb kndr kndr = true
prefix_eqb grad grad = true
prefix_eqb _ _ = false

pub prefix_eqb_iff : (p q : Prefix) → (prefix_eqb p q ≡ true) ↔ (p ≡ q)
prefix_eqb_iff p q = ground arith

-- What `prefixOutputKey` serialises.
pub record PrefixKey : Type 0 where
  pub state : Prefix
  pub outpoint : OutPoint

abbrev pub key : Prefix → OutPoint → PrefixKey
key p o = record { state = p; outpoint = o }

-- `copy(pfxOutputKey, prefix)`
abbrev pub with_prefix : Prefix → PrefixKey → PrefixKey
with_prefix p k = key p k.outpoint

abbrev pub key_eqb : PrefixKey → PrefixKey → Bool
key_eqb k j = prefix_eqb k.state j.state && out_point_eqb k.outpoint j.outpoint

pub key_eqb_iff : (k j : PrefixKey) → (key_eqb k j ≡ true) ↔ (k ≡ j)
key_eqb_iff k j =
    ground (arith, prefix_eqb_iff k.state j.state, out_point_eqb_iff k.outpoint j.outpoint)

instance abbrev pub key_eq : Eq PrefixKey
key_eq = record { beq = key_eqb; beq_iff = key_eqb_iff }

-- A serialised output.
pub data Stored : Type 0 where
  kid : KidOutput → Stored
  baby : BabyOutput → Stored

pub data Error : Type 0 where
  err_contract_not_found err_immature_channel err_bucket_not_empty : Error
  no_channel_index no_height_channel_bucket no_channel_bucket no_output no_height_bucket : Error
  malformed_output : Error

module _ (bolt : Bolt) where
  open bolt use {Bucket, empty, get, put, delete, keys}

  abbrev pub ChannelBucket : Type 0
  ChannelBucket = Bucket PrefixKey Stored

  -- The values are empty.
  abbrev pub HeightChannelBucket : Type 0
  HeightChannelBucket = Bucket PrefixKey (Unit {0})

  -- The sweep transaction under `finalizedKndrTxnKey`, and a bucket for each channel point.
  pub record HeightBucket : Type 0 where
    pub finalized_kndr_txn : Option MsgTx
    pub channels : Bucket OutPoint HeightChannelBucket

  -- The bucket of the chain. A bucket that was never created is `none`; a bucket of the chain that
  -- was never created reads like one in which nothing is.
  pub record Db : Type 0 where
    pub last_finalized_height : Option ℕ
    pub last_graduated_height : Option ℕ
    pub channel_index : Option (Bucket OutPoint ChannelBucket)
    pub height_index : Option (Bucket ℕ HeightBucket)
