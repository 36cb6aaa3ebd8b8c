-- ===== src/Beacon.antt =====
-- The witness beacon (lnd/witness_beacon.go): preimages from the invoice registry and from the
-- witness cache, and the subscribers that are told of new ones.
pub mod Laws
mod Tests
use lndmobile.Prelude.{
  ℕ, zero, suc, ◌||◌, ◌+◌, ◌%◌, ◌^◌, ◌==◌, ◌≡◌, Bool, true, false, Option, none, some, List, [],
  ◌∷◌, ◌++◌, if◌then◌else◌,
}
use lndmobile.Prelude.Assoc.{nat_eq, lookup, insert, delete}
use lndmobile.Prelude.Exec.{Result, ok, err, panic, Reply, value, failure, Exec}
use lndmobile.Wire.{Bytes, copy_to}
use lndmobile.Invoices.{InvoiceDb, Registry, lookup_invoice}

-- What the beacon uses of the witness cache of channeldb, with one type of witness.
pub record WitnessCache (C : Type 0) : Type 0 where
  pub lookup_witness : Bytes → C → Reply Bytes
  pub add_witness : Bytes → C → Reply (Unit {0}) × C

-- Channels are numbered.
pub record PreimageSubscriber : Type 0 where
  pub update_chan : ℕ
  pub quit : ℕ

-- A goroutine of `AddPreimage`: it sends the preimage, or it stops when the subscriber quits.
pub record Update : Type 0 where
  pub client : PreimageSubscriber
  pub preimage : Bytes

-- contractcourt.WitnessSubscription: the channel, and what `CancelSubscription` has captured.
pub record WitnessSubscription : Type 0 where
  pub witness_updates : ℕ
  pub client_id : ℕ
  pub quit : ℕ

abbrev pub contains_nat : ℕ → List ℕ → Bool
contains_nat c [] = false
contains_nat c (x ∷ xs) = x == c || contains_nat c xs

module _ {W C : Type 0} (db : InvoiceDb W) (cache : WitnessCache C) where
  open db use {payment_preimage, err_invoice_not_found}
  open cache use {lookup_witness, add_witness}

  pub record Beacon : Type 0 where
    pub invoices : Registry db
    pub w_cache : C
    pub client_counter : ℕ
    pub subscribers : List (ℕ × PreimageSubscriber)
    pub goroutines : List Update
    pub closed : List ℕ
    pub made_channels : ℕ

  -- The counter is a `uint64`.
  unfoldable pub subscribe_updates : Beacon → WitnessSubscription × Beacon
  subscribe_updates p =
      let client : PreimageSubscriber = record {
        update_chan = p.made_channels;
        quit = p.made_channels + 1;
      } in
      (
        record {
          witness_updates = client.update_chan;
          client_id = p.client_counter;
          quit = client.quit;
        },
        record p {
          made_channels = p.made_channels + 2;
          subscribers = insert p.client_counter client p.subscribers;
          client_counter = (p.client_counter + 1) % 2 ^ 64;
        },
      )

  -- Closing a channel that is closed panics.
  unfoldable pub cancel_subscription : WitnessSubscription → Exec ℕ Beacon (Unit {0})
  cancel_subscription s p =
      let p' = record p { subscribers = delete s.client_id p.subscribers } in
      if contains_nat s.quit p.closed
      then (panic, p')
      else (ok tt, record p' { closed = s.quit ∷ p.closed })

  abbrev pub cached : Reply Bytes → Option Bytes
  cached (failure e) = none
  cached (value preimage) = some preimage

  unfoldable pub lookup_preimage : Bytes → Beacon → Option Bytes
  lookup_preimage pay_hash p = elim (lookup_invoice db (copy_to 32 pay_hash) p.invoices) [
    | value invoice ↦ some (payment_preimage invoice)
    | failure e ↦
        if e == err_invoice_not_found then cached (lookup_witness pay_hash p.w_cache) else none
  ]

  unfoldable pub updates : Bytes → List (ℕ × PreimageSubscriber) → List Update
  updates pre [] = []
  updates pre ((i, c) ∷ cs) = record { client = c; preimage = pre } ∷ updates pre cs

  unfoldable pub add_preimage : Bytes → Exec ℕ Beacon (Unit {0})
  unfolding updates
  add_preimage pre p =
      let (reply, c) = add_witness pre p.w_cache in
      let p' = record p { w_cache = c } in
      elim reply [
        | failure e ↦ (err e, p')
        | value u ↦ (ok tt, record p' { goroutines = updates pre p.subscribers ++ p.goroutines })
      ]
