-- ===== src/Invoices/Tests.antt =====
-- The registry's theorems over a database that is an association list.
use lndmobile.Prelude.{ℕ, ◌≡◌, Bool, true, false, Option, none, some, List, [], ◌∷◌, arith, refl}
use lndmobile.Prelude.Assoc.{nat_eq, lookup, insert}
use lndmobile.Prelude.Exec.{Reply, value, failure}
use lndmobile.Wire.{Bytes, hash_eq}
use lndmobile.Invoices.{InvoiceDb, Registry, subscribe_notifications}
use lndmobile.Invoices.Clients.{FreshIds, subscribe_keeps_clients}

-- An invoice is its value, its preimage and whether it is settled; the hash of a preimage is the
-- preimage with a byte in front.
abbrev Row : Type 0
Row = ℕ × Bytes × Bool

abbrev reply_of : Option Row → Reply Row
reply_of none = failure 1
reply_of (some r) = value r

abbrev mark : Bytes → List (Bytes × Row) → Option Row → Reply (Unit {0}) × List (Bytes × Row)
mark h w none = (failure 1, w)
mark h w (some (v, pre, b)) = (value tt, insert h (v, pre, true) w)

abbrev table : InvoiceDb (List (Bytes × Row))
table = record {
  Invoice = Row;
  add = λ r w. (value tt, insert (0 ∷ r.1) r w);
  find = λ h w. reply_of (lookup h w);
  settle = λ h w. mark h w (lookup h w);
  err_invoice_not_found = 1;
  new_invoice = λ now v pre. (v, pre, false);
  payment_preimage = λ r. r.1;
  new_msat_from_satoshis = λ a. 1000;
  sum256 = λ pre. 0 ∷ pre;
  payment_preimage-new_invoice = λ now v pre. refl;
}

abbrev one_client : Registry table
one_client = record {
  cdb = (0 ∷ 4 ∷ [], (70, 4 ∷ [], false)) ∷ [];
  next_client_id = 3;
  notification_clients = (2, record { new_invoices = 10; settled_invoices = 11; id = 2 }) ∷ [];
  debug_invoices = [];
  goroutines = [];
  made_channels = 12;
}

one_client-FreshIds : FreshIds table one_client
unfolding lookup
one_client-FreshIds = record { below = λ i n. ground arith }

subscribe_example :
    lookup
      (subscribe_notifications table one_client).0.id
      (subscribe_notifications table one_client).1.notification_clients
    ≡ some (subscribe_notifications table one_client).0
subscribe_example = (subscribe_keeps_clients table one_client one_client-FreshIds (omega arith)).1
