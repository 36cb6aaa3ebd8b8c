-- ===== src/Breach/Store/Contract.antt =====
-- What the store promises its client (`RetributionStore` of lnd/breacharbiter.go), over any calls
-- from an empty database.
use lndmobile.Prelude.{
  ◌≡◌, ◌↔◌, Option, none, some, List, [], ◌≢◌, none≢some, All, refl, ap, sym, ◌∙◌,
}
use mathlib.Core.List.{append-nil, Memᴰ}
use mathlib.Core.List.Memᴰ
use mathlib.Core.Option
use lndmobile.Prelude.Exec.{ok, Exec}
use lndmobile.Wire.{hash_eq, Bytes, MsgTx, OutPoint}
use lndmobile.Bolt.{Bolt}
use lndmobile.Codec.{WireCodec, write_outpoint}
use lndmobile.Codec.Laws.{IsPoint}
use lndmobile.Breach.Info.{RetributionInfo}
use lndmobile.Breach.Codec.{encode_info}
use lndmobile.Breach.Store.{
  Error, Db, new_db, parse_txn, found, get_finalized_txn, is_breached, for_all_in, for_all,
  parsed_txn,
}
use lndmobile.Breach.Store.Laws.{Table}
use lndmobile.Breach.Store.Refinement.{
  HasPoint, as_bytes, Refines, new_db-Refines, sequence-Refines,
}
use lndmobile.Breach.Store.Reference.{
  Op, Model, Returned, no_retributions, apply, sequence, call, IsOp,
}
use lndmobile.Breach.Store.Views.{
  each, is_some, entries, entries_sound, entries_complete, for_each_lem,
}

module _ (bolt : Bolt) (codec : WireCodec) where
  open bolt use {Bucket, keys, contains-keys}

  none_empty :
      (f : OutPoint → Option RetributionInfo)
      → Table bolt codec (encode_info codec) (HasPoint bolt codec) none f
      → (r : RetributionInfo) → f r.chan_point ≢ some r
  none_empty f t r e =
      let i = (t.valid r.chan_point r e).0 in
      none≢some (t.agrees r.chan_point i.point ∙ ap (Option.map (encode_info codec)) e)

  found_lem :
      (r : Option RetributionInfo) → found bolt codec (Option.map (encode_info codec) r) ≡ is_some r
  found_lem none = refl
  found_lem (some r) = refl

  is_breached_lem :
      (db : Db bolt) (m : Model) (o : OutPoint)
      → Refines bolt codec db m
      → IsPoint codec o
      → is_breached bolt codec o db ≡ is_some (m.retributions o)
  unfolding is_breached
  is_breached_lem db m o h i =
      ap (found bolt codec) (h.infos.agrees o i) ∙ found_lem (m.retributions o)

  parse_txn_lem :
      (x : Option MsgTx)
      → ((tx : MsgTx) → x ≡ some tx → codec.IsTx tx)
      → parse_txn bolt codec (Option.map as_bytes x) ≡ ok x
  parse_txn_lem none v = refl
  parse_txn_lem (some tx) v =
      let whole =
        ap codec.deserialize_tx (sym (append-nil tx))
        ∙ codec.deserialize_tx_lem tx [] (v tx refl) in
      ap (λ x. parsed_txn bolt codec x.0) whole

  get_finalized_txn_lem :
      (db : Db bolt) (m : Model) (o : OutPoint)
      → Refines bolt codec db m
      → IsPoint codec o
      → get_finalized_txn bolt codec o db ≡ ok (m.finalized o)
  unfolding get_finalized_txn
  get_finalized_txn_lem db m o h i =
      ap (parse_txn bolt codec) (h.txns.agrees o i)
      ∙ parse_txn_lem (m.finalized o) (λ tx e. h.txns.valid o tx e)

  -- What a client can see of the store after some calls, and the reference after the same.
  abbrev pub store_after : List Op → List Returned × Db bolt
  store_after ops = sequence (call bolt codec) ops (new_db bolt)

  abbrev pub reference_after : List Op → List Returned × Model
  reference_after ops = sequence apply ops no_retributions

  -- The retributions on which a bucket runs a callback are those of a function.
  abbrev pub Presents :
      {S : Type 0}
      → (RetributionInfo → Exec Error S (Unit {0}))
      → Exec Error S (Unit {0})
      → (OutPoint → Option RetributionInfo)
      → Type 0
  Presents cb run f =
      (list : List RetributionInfo) × (run ≡ each cb list)
      × ((r : RetributionInfo) → Memᴰ r list ↔ (f r.chan_point ≡ some r))

  for_all_in_lem :
      {S : Type 0} (cb : RetributionInfo → Exec Error S (Unit {0}))
      (b : Option (Bucket Bytes Bytes)) (f : OutPoint → Option RetributionInfo)
      → Table bolt codec (encode_info codec) (HasPoint bolt codec) b f
      → Presents cb (for_all_in bolt codec cb b) f
  unfolding for_all_in
  for_all_in_lem cb none f t =
      ([], refl, λ r. (λ m. absurd (Memᴰ.not-nil m), λ e. absurd (none_empty f t r e)))
  for_all_in_lem cb (some b) f t =
      let known = λ (r : RetributionInfo) (e : f r.chan_point ≡ some r).
        entries_complete bolt codec b f t (keys b) r e (t.valid r.chan_point r e).0 (
          (contains-keys (write_outpoint codec r.chan_point) b).1 (λ z. none≢some (
            sym z
            ∙ t.agrees r.chan_point (t.valid r.chan_point r e).0.point
            ∙ ap (Option.map (encode_info codec)) e))) in
      (
        entries bolt codec b (keys b),
        for_each_lem bolt codec b f t cb (keys b),
        λ r. (λ m. entries_sound bolt codec b f t (keys b) r m, known r),
      )

  pub for_all-Presents :
      {S : Type 0} (cb : RetributionInfo → Exec Error S (Unit {0})) (ops : List Op)
      → All (IsOp codec) ops
      → Presents cb (for_all bolt codec cb (store_after ops).1) (reference_after ops).1.retributions
  unfolding for_all
  for_all-Presents cb ops a =
      let (e, h) =
        sequence-Refines bolt codec ops (new_db bolt) no_retributions (new_db-Refines bolt codec)
          a in
      for_all_in_lem cb (store_after ops).1.retribution_bucket (reference_after ops).1.retributions
        h.infos

  -- For every sequence of calls of Add, Finalize and Remove on an empty database, with arguments that
  -- can be encoded, each call returns what it does on the reference, and afterwards IsBreached and
  -- GetFinalizedTxn answer what the reference holds for any channel point that can be encoded, and
  -- ForAll runs its callback, whatever this is, on the retributions of a list in turn until the
  -- callback fails; the list has those, each as it was added, that the reference holds under their
  -- channel points, and no other.
  pub store_refines :
      {S : Type 0} (cb : RetributionInfo → Exec Error S (Unit {0})) (ops : List Op) (o : OutPoint)
      → All (IsOp codec) ops
      → IsPoint codec o
      → let db = (store_after ops).1 in
        let m = (reference_after ops).1 in
        ((store_after ops).0 ≡ (reference_after ops).0)
        × (is_breached bolt codec o db ≡ is_some (m.retributions o))
        × (get_finalized_txn bolt codec o db ≡ ok (m.finalized o))
        × Presents cb (for_all bolt codec cb db) m.retributions
  store_refines cb ops o a i =
      let (e, h) =
        sequence-Refines bolt codec ops (new_db bolt) no_retributions (new_db-Refines bolt codec)
          a in
      let db = (store_after ops).1 in
      let m = (reference_after ops).1 in
      (e, is_breached_lem db m o h i, get_finalized_txn_lem db m o h i, for_all-Presents cb ops a)
