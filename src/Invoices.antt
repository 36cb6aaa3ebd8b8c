-- ===== src/Invoices.antt =====
-- The invoice registry (lnd/invoiceregistry.go): debug invoices in memory in front of the database,
-- and the clients that are told of settled invoices.
pub mod Laws
mod Tests
pub mod Clients
use lndmobile.Prelude.{
  ℕ, ◌+◌, ◌%◌, ◌^◌, ◌≡◌, Bool, true, false, Option, none, some, List, [], ◌∷◌, ◌++◌, if◌then◌else◌,
}
use lndmobile.Prelude.Int.{ℤ}
use lndmobile.Prelude.Assoc.{nat_eq, lookup, insert, delete}
use lndmobile.Prelude.Exec.{Result, ok, err, panic, Reply, value, failure, Exec}
use lndmobile.Wire.{Bytes, hash_eq}

-- What the registry uses of channeldb and of other packages. The database is a value of the type
-- parameter, and an error is known by a number.
pub record InvoiceDb (W : Type 0) : Type 1 where
  pub Invoice : Type 0
  pub add : Invoice → W → Reply (Unit {0}) × W
  pub find : Bytes → W → Reply Invoice
  pub settle : Bytes → W → Reply (Unit {0}) × W
  pub err_invoice_not_found : ℕ
  -- An invoice of a creation date, a value and a preimage; the other fields are zero.
  pub new_invoice : ℕ → ℕ → Bytes → Invoice
  pub payment_preimage : Invoice → Bytes
  pub new_msat_from_satoshis : ℤ → ℕ
  pub sum256 : Bytes → Bytes
  pub payment_preimage-new_invoice :
      (now v : ℕ) (pre : Bytes) → payment_preimage (new_invoice now v pre) ≡ pre

-- The channels are numbered in the order in which they are made.
pub record Subscription : Type 0 where
  pub new_invoices : ℕ
  pub settled_invoices : ℕ
  pub id : ℕ

module _ {W : Type 0} (db : InvoiceDb W) where
  open db use {Invoice, add, find, settle, new_invoice, new_msat_from_satoshis, sum256}

  -- A goroutine that has not run: the one of `SettleInvoice`, or a send on a channel.
  pub data Goroutine : Type 0 where
    notify_settled : Bytes → Goroutine
    send : ℕ → Invoice → Goroutine

  pub record Registry : Type 0 where
    pub cdb : W
    pub next_client_id : ℕ
    pub notification_clients : List (ℕ × Subscription)
    pub debug_invoices : List (Bytes × Invoice)
    pub goroutines : List Goroutine
    pub made_channels : ℕ

  unfoldable pub new_invoice_registry : W → Registry
  new_invoice_registry w = record {
    cdb = w;
    next_client_id = 0;
    notification_clients = [];
    debug_invoices = [];
    goroutines = [];
    made_channels = 0;
  }

  unfoldable pub add_debug_invoice : ℕ → ℤ → Bytes → Registry → Registry
  add_debug_invoice now amt preimage r =
      let payment_hash = sum256 preimage in
      let invoice = new_invoice now (new_msat_from_satoshis amt) preimage in
      record r { debug_invoices = insert payment_hash invoice r.debug_invoices }

  unfoldable pub add_invoice : Invoice → Exec ℕ Registry (Unit {0})
  add_invoice invoice r =
      let (reply, w) = add invoice r.cdb in
      let r' = record r { cdb = w } in
      elim reply [ value u ↦ (ok tt, r') | failure e ↦ (err e, r') ]

  unfoldable pub lookup_invoice : Bytes → Registry → Reply Invoice
  lookup_invoice r_hash r = elim (lookup r_hash r.debug_invoices) [
    | some invoice ↦ value invoice
    | none ↦ find r_hash r.cdb
  ]

  unfoldable pub settle_invoice : Bytes → Exec ℕ Registry (Unit {0})
  settle_invoice r_hash r = elim (lookup r_hash r.debug_invoices) [
    | some invoice ↦ (ok tt, r)
    | none ↦
        let (reply, w) = settle r_hash r.cdb in
        elim reply [
          | failure e ↦ (err e, record r { cdb = w })
          | value u ↦
              (ok tt, record r { cdb = w; goroutines = notify_settled r_hash ∷ r.goroutines })
        ]
  ]

  -- The channel on which `notifyClients` sends to a client.
  abbrev pub event_chan : Bool → Subscription → ℕ
  event_chan settled c = if settled then c.settled_invoices else c.new_invoices

  -- The sends that `notifyClients` starts, in an order of the runtime's choice.
  unfoldable pub sends : Invoice → Bool → List (ℕ × Subscription) → List Goroutine
  sends invoice settled [] = []
  sends invoice settled ((i, c) ∷ cs) =
      send (event_chan settled c) invoice ∷ sends invoice settled cs

  unfoldable pub notify_clients : Invoice → Bool → Registry → Registry
  unfolding sends
  notify_clients invoice settled r = record r {
    goroutines = sends invoice settled r.notification_clients ++ r.goroutines;
  }

  -- The body of the goroutine that `SettleInvoice` launches.
  unfoldable pub run_notify_settled : Bytes → Registry → Registry
  unfolding notify_clients
  run_notify_settled r_hash r = elim (find r_hash r.cdb) [
    | failure e ↦ r
    | value invoice ↦ notify_clients invoice true r
  ]

  unfoldable pub cancel : Subscription → Registry → Registry
  cancel c r = record r { notification_clients = delete c.id r.notification_clients }

  -- The client identifier is a `uint32`.
  unfoldable pub subscribe_notifications : Registry → Subscription × Registry
  subscribe_notifications r =
      let client : Subscription = record {
        new_invoices = r.made_channels;
        settled_invoices = r.made_channels + 1;
        id = r.next_client_id;
      } in
      (
        client,
        record r {
          made_channels = r.made_channels + 2;
          notification_clients = insert r.next_client_id client r.notification_clients;
          next_client_id = (r.next_client_id + 1) % 2 ^ 32;
        },
      )
