-- ===== src/Breach/Store.antt =====
-- `retributionStore` (lnd/breacharbiter.go): the retributions and the justice transactions by their
-- serialised channel points. A write of the database succeeds, and a call is one transaction of it.
pub mod Reference
pub mod Laws
pub mod Refinement
pub mod Views
pub mod Contract
use lndmobile.Prelude.{ℕ, ◌≡◌, Bool, true, false, Option, none, some, List, [], ◌∷◌}
use lndmobile.Prelude.Exec.{Result, ok, err, panic, Exec, pure, raise, crash, ◌>>=◌, ◌>>◌}
use lndmobile.Wire.{Bytes, MsgTx, OutPoint, hash_eq}
use lndmobile.Bolt.{Bolt}
use lndmobile.Codec.{WireCodec, write_outpoint}
use lndmobile.Breach.Info.{RetributionInfo}
use lndmobile.Breach.Codec.{encode_info, decode_info}

-- The errors of the store are one of its own, and those of decoding.
pub data Error : Type 0 where
  no_retribution_bucket : Error
  malformed : ℕ → Error

module _ (bolt : Bolt) where
  open bolt use {Bucket, empty}

  -- A bucket that was never created is `none`.
  pub record Db : Type 0 where
    pub retribution_bucket : Option (Bucket Bytes Bytes)
    pub justice_txn_bucket : Option (Bucket Bytes Bytes)

  abbrev pub new_db : Db
  new_db = record { retribution_bucket = none; justice_txn_bucket = none }

  -- `CreateBucketIfNotExists`
  abbrev pub create_bucket : Option (Bucket Bytes Bytes) → Bucket Bytes Bytes
  create_bucket none = empty
  create_bucket (some b) = b

module _ (bolt : Bolt) (codec : WireCodec) where
  open bolt use {Bucket, get, put, delete, keys}

  unfoldable pub add : RetributionInfo → Db bolt → Db bolt
  add ret db = record db {
    retribution_bucket = some (
        put (write_outpoint codec ret.chan_point) (encode_info codec ret)
          (create_bucket bolt db.retribution_bucket));
  }

  unfoldable pub finalize : OutPoint → MsgTx → Db bolt → Db bolt
  finalize chan_point final_tx db = record db {
    justice_txn_bucket =
        some (
          put (write_outpoint codec chan_point) final_tx
            (create_bucket bolt db.justice_txn_bucket));
  }

  -- What `Get` finds in a bucket that may not exist.
  abbrev pub get_in : Bytes → Option (Bucket Bytes Bytes) → Option Bytes
  get_in k none = none
  get_in k (some b) = get k b

  abbrev pub parsed_txn : Result ℕ Bytes → Result Error (Option MsgTx)
  parsed_txn (ok tx) = ok (some tx)
  parsed_txn (err e) = err (malformed e)
  parsed_txn panic = panic

  -- The justice transaction is deserialised after the transaction of the database.
  abbrev pub parse_txn : Option Bytes → Result Error (Option MsgTx)
  parse_txn none = ok none
  parse_txn (some bs) = parsed_txn (codec.deserialize_tx bs).0

  unfoldable pub get_finalized_txn : OutPoint → Db bolt → Result Error (Option MsgTx)
  get_finalized_txn chan_point db =
      parse_txn (get_in (write_outpoint codec chan_point) db.justice_txn_bucket)

  abbrev pub found : Option Bytes → Bool
  found none = false
  found (some _) = true

  unfoldable pub is_breached : OutPoint → Db bolt → Bool
  is_breached chan_point db = found (get_in (write_outpoint codec chan_point) db.retribution_bucket)

  abbrev pub delete_in : Bytes → Option (Bucket Bytes Bytes) → Option (Bucket Bytes Bytes)
  delete_in k none = none
  delete_in k (some b) = some (delete k b)

  unfoldable pub remove : OutPoint → Exec Error (Db bolt) (Unit {0})
  remove chan_point db = elim db.retribution_bucket [
    | none ↦ (err no_retribution_bucket, db)
    | some b ↦ (
      ok tt,
      record {
        retribution_bucket = some (delete (write_outpoint codec chan_point) b);
        justice_txn_bucket = delete_in (write_outpoint codec chan_point) db.justice_txn_bucket;
      },
    )
  ]

  module _ {S : Type 0} (cb : RetributionInfo → Exec Error S (Unit {0})) where
    abbrev pub visit_decoded : Result ℕ RetributionInfo → Exec Error S (Unit {0})
    visit_decoded (ok ret) = cb ret
    visit_decoded (err e) = raise (malformed e)
    visit_decoded panic = crash

    -- The function that `ForAll` applies to each value.
    unfoldable pub visit : Bytes → Exec Error S (Unit {0})
    visit bs = visit_decoded (decode_info codec bs).0

    abbrev pub visit_next : Option Bytes → Exec Error S (Unit {0}) → Exec Error S (Unit {0})
    visit_next none rest = rest
    visit_next (some bs) rest = visit bs >> rest

    -- `ForEach` of a bucket; a key of the cursor has a value.
    unfoldable pub for_each : Bucket Bytes Bytes → List Bytes → Exec Error S (Unit {0})
    unfolding visit
    for_each b [] = pure tt
    for_each b (k ∷ ks) = visit_next (get k b) (for_each b ks)

    unfoldable pub for_all_in : Option (Bucket Bytes Bytes) → Exec Error S (Unit {0})
    unfolding for_each
    for_all_in none = pure tt
    for_all_in (some b) = for_each b (keys b)

    unfoldable pub for_all : Db bolt → Exec Error S (Unit {0})
    unfolding for_all_in
    for_all db = for_all_in db.retribution_bucket
