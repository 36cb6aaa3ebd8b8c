-- ===== src/Breach/Retribution/Ledger.antt =====
-- The writes of `exactRetribution` (lnd/breacharbiter.go) to the store, against the calls in their
-- order.
use lndmobile.Prelude.{◌≡◌, List, [], ◌∷◌}
use lndmobile.Wire.{OutPoint, out_point_eq}
use lndmobile.Bolt.{Bolt}
use lndmobile.Codec.{WireCodec}
use lndmobile.Breach.Wallet.{Wallet}
use lndmobile.Breach.Store.{Db, finalize, remove}
use lndmobile.Breach.Chain.{
  Event, converted, finalized, published, confirmed, closed, removed, Chain,
}
use lndmobile.Breach.Retribution.{Steps}

module _ (bolt : Bolt) (codec : WireCodec) where
  -- A store after what some calls for a channel write.
  abbrev pub replay : OutPoint → List Event → Db bolt → Db bolt
  replay o [] db = db
  replay o (finalized tx ∷ es) db = replay o es (finalize bolt codec o tx db)
  replay o (removed c ∷ es) db = replay o es (remove bolt codec c db).1
  replay o (converted _ ∷ es) db = replay o es db
  replay o (published _ ∷ es) db = replay o es db
  replay o (confirmed _ ∷ es) db = replay o es db
  replay o (closed _ ∷ es) db = replay o es db

module _ {World : Type 0} (bolt : Bolt) (codec : WireCodec) (wallet : Wallet World)
    (chain : Chain World) where
  -- Steps from a store for a channel write what their calls say, and are still for the channel.
  pub record Written {A : Type 0} (o : OutPoint) (db : Db bolt)
      (a : Steps bolt codec wallet chain A) : Type 0 where
    pub stored : a.scene.db ≡ replay bolt codec o a.events db
    pub point : a.scene.info.chan_point ≡ o
