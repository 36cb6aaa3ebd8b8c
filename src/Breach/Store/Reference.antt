-- ===== src/Breach/Store/Reference.antt =====
-- What the breach arbiter relies on in its store: the retribution and the justice transaction of
-- each channel as functions of the channel point, and the calls as updates of the two.
use lndmobile.Prelude.{Bool, true, false, Option, none, some, List, [], ◌∷◌, if◌then◌else◌}
use lndmobile.Prelude.Exec.{Result, ok, err}
use lndmobile.Wire.{MsgTx, OutPoint, out_point_eqb}
use lndmobile.Bolt.{Bolt}
use lndmobile.Codec.{WireCodec}
use lndmobile.Codec.Laws.{IsPoint}
use lndmobile.Breach.Info.{RetributionInfo}
use lndmobile.Breach.Codec.RoundTrip.{Encodable}
use lndmobile.Breach.Store.{Error, no_retribution_bucket, Db}
use lndmobile.Breach.Store

pub data Op : Type 0 where
  add : RetributionInfo → Op
  finalize : OutPoint → MsgTx → Op
  remove : OutPoint → Op

pub record Model : Type 0 where
  pub retributions : OutPoint → Option RetributionInfo
  pub finalized : OutPoint → Option MsgTx
  -- Whether a retribution was ever added.
  pub used : Bool

abbrev pub no_retributions : Model
no_retributions = record { retributions = λ _. none; finalized = λ _. none; used = false }

abbrev pub update : {A : Type 0} → OutPoint → Option A → (OutPoint → Option A) → OutPoint → Option A
update o a f p = if out_point_eqb o p then a else f p

abbrev pub Returned : Type 0
Returned = Result Error (Unit {0})

abbrev pub apply : Op → Model → Returned × Model
apply (add r) m =
    (ok tt, record m { retributions = update r.chan_point (some r) m.retributions; used = true })
apply (finalize o tx) m = (ok tt, record m { finalized = update o (some tx) m.finalized })
apply (remove o) m =
    if m.used
    then (
      ok tt,
      record m {
        retributions = update o none m.retributions;
        finalized = update o none m.finalized;
      },
    )
    else (err no_retribution_bucket, m)

-- A sequence of calls, with what each of them returns.
abbrev pub sequence : {S : Type 0} → (Op → S → Returned × S) → List Op → S → List Returned × S
sequence f [] s = ([], s)
sequence f (op ∷ ops) s = let (r, s') = f op s in let (rs, s'') = sequence f ops s' in (r ∷ rs, s'')

module _ (bolt : Bolt) (codec : WireCodec) where
  -- The same call of the store.
  abbrev pub call : Op → Db bolt → Returned × Db bolt
  call (add r) db = (ok tt, Store.add bolt codec r db)
  call (finalize o tx) db = (ok tt, Store.finalize bolt codec o tx db)
  call (remove o) db = Store.remove bolt codec o db

-- Arguments that the encodings can represent.
abbrev pub IsOp : WireCodec → Op → Type 0
IsOp codec (add r) = Encodable codec r
IsOp codec (finalize o tx) = IsPoint codec o × codec.IsTx tx
IsOp codec (remove o) = IsPoint codec o
