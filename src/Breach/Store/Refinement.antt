-- ===== src/Breach/Store/Refinement.antt =====
-- `retributionStore` (lnd/breacharbiter.go) beside the functions of Reference, over any calls.
use lndmobile.Prelude.{◌≡◌, Bool, true, false, Option, none, some, List, [], ◌∷◌, All, refl}
use lndmobile.Wire.{Bytes, MsgTx, OutPoint}
use lndmobile.Bolt.{Bolt}
use lndmobile.Codec.{WireCodec}
use lndmobile.Codec.Laws.{IsPoint}
use lndmobile.Breach.Info.{RetributionInfo}
use lndmobile.Breach.Codec.{encode_info}
use lndmobile.Breach.Codec.RoundTrip.{Encodable}
use lndmobile.Breach.Store.{Db, new_db, add, finalize, remove}
use lndmobile.Breach.Store.Laws.{Table, put-Table, delete-Table}
use lndmobile.Breach.Store.Reference.{
  Op, Returned, Model, no_retributions, apply, sequence, call, IsOp,
}

abbrev pub as_bytes : MsgTx → Bytes
as_bytes tx = tx

module _ (bolt : Bolt) (codec : WireCodec) where
  open bolt use {Bucket, get-empty}

  abbrev pub HasPoint : OutPoint → RetributionInfo → Type 0
  HasPoint o r = Encodable codec r × (r.chan_point ≡ o)

  abbrev pub HasTx : OutPoint → MsgTx → Type 0
  HasTx _ tx = codec.IsTx tx

  abbrev created : Option (Bucket Bytes Bytes) → Bool
  created none = false
  created (some _) = true

  -- The buckets hold what the functions say.
  pub record Refines (db : Db bolt) (m : Model) : Type 0 where
    pub infos : Table bolt codec (encode_info codec) HasPoint db.retribution_bucket m.retributions
    pub txns : Table bolt codec as_bytes HasTx db.justice_txn_bucket m.finalized
    pub used : created db.retribution_bucket ≡ m.used

  pub new_db-Refines : Refines (new_db bolt) no_retributions
  new_db-Refines = record {
    infos = record { agrees = λ o p. refl; valid = λ o r e. cc; keys = λ k bs e. cc };
    txns = record { agrees = λ o p. refl; valid = λ o r e. cc; keys = λ k bs e. cc };
    used = refl;
  }

  -- A call returns what the reference does, and the buckets go on to refine it.
  abbrev Simulated : Returned × Db bolt → Returned × Model → Type 0
  Simulated x y = (x.0 ≡ y.0) × Refines x.1 y.1

  remove-Refines :
      (b j : Option (Bucket Bytes Bytes)) (f : OutPoint → Option RetributionInfo)
      (g : OutPoint → Option MsgTx) (used : Bool) (o : OutPoint)
      → Table bolt codec (encode_info codec) HasPoint b f
      → Table bolt codec as_bytes HasTx j g
      → created b ≡ used
      → IsPoint codec o
      → Simulated
          (remove bolt codec o (record { retribution_bucket = b; justice_txn_bucket = j }))
          (apply (Op.remove o) (record { retributions = f; finalized = g; used = used }))
  unfolding remove
  remove-Refines none j f g true o t x e i = cc
  remove-Refines none j f g false o t x e i = (refl, record { infos = t; txns = x; used = e })
  remove-Refines (some b) j f g false o t x e i = cc
  remove-Refines (some b) j f g true o t x e i = (
    refl,
    record {
      infos = delete-Table bolt codec (encode_info codec) HasPoint (some b) f t o i;
      txns = delete-Table bolt codec as_bytes HasTx j g x o i;
      used = refl;
    },
  )

  call-Refines :
      (db : Db bolt) (m : Model) (op : Op)
      → Refines db m
      → IsOp codec op
      → Simulated (call bolt codec op db) (apply op m)
  unfolding add finalize
  call-Refines db m (Op.add r) h i = (
    refl,
    record {
      infos =
          put-Table bolt codec (encode_info codec) HasPoint db.retribution_bucket m.retributions
            h.infos r.chan_point r i.point (i, refl);
      txns = h.txns;
      used = refl;
    },
  )
  call-Refines db m (Op.finalize o tx) h i = (
    refl,
    record {
      infos = h.infos;
      txns =
          put-Table bolt codec as_bytes HasTx db.justice_txn_bucket m.finalized h.txns o tx i.0 i.1;
      used = h.used;
    },
  )
  call-Refines db m (Op.remove o) h i =
      remove-Refines db.retribution_bucket db.justice_txn_bucket m.retributions m.finalized m.used o
        h.infos h.txns h.used i

  pub sequence-Refines :
      (ops : List Op) (db : Db bolt) (m : Model)
      → Refines db m
      → All (IsOp codec) ops
      → let x = sequence (call bolt codec) ops db in
        let y = sequence apply ops m in (x.0 ≡ y.0) × Refines x.1 y.1
  sequence-Refines [] db m h a = (refl, h)
  sequence-Refines (op ∷ ops) db m h a =
      let (e, h') = call-Refines db m op h a.0 in
      let (es, h'') = sequence-Refines ops (call bolt codec op db).1 (apply op m).1 h' a.1 in
      (cc, h'')
