-- ===== src/Beacon/Tests.antt =====
-- The beacon's theorems over tables of invoices and witnesses.
use lndmobile.Prelude.{Option, none, some, List, [], ◌∷◌, arith, refl}
use lndmobile.Prelude.Assoc.{nat_eq, lookup, insert}
use lndmobile.Prelude.Exec.{Reply, value, failure}
use lndmobile.Wire.{Bytes, hash_eq}
use lndmobile.Invoices.{InvoiceDb}
use lndmobile.Beacon.{WitnessCache, Beacon, add_preimage}
use lndmobile.Beacon.Laws.{IsTold, add_preimage_effect, FreshSubscribers}

-- An invoice is its preimage, which is its own hash; there are no invoices in the database.
abbrev no_invoices : InvoiceDb (Unit {0})
no_invoices = record {
  Invoice = Bytes;
  add = λ i w. (value tt, w);
  find = λ h w. failure 1;
  settle = λ h w. (failure 1, w);
  err_invoice_not_found = 1;
  new_invoice = λ now v pre. pre;
  payment_preimage = λ i. i;
  new_msat_from_satoshis = λ a. 1000;
  sum256 = λ pre. pre;
  payment_preimage-new_invoice = λ now v pre. refl;
}

abbrev reply_of : Option Bytes → Reply Bytes
reply_of none = failure 2
reply_of (some p) = value p

abbrev witnesses : WitnessCache (List (Bytes × Bytes))
witnesses = record {
  lookup_witness = λ h c. reply_of (lookup h c);
  add_witness = λ pre c. (value tt, insert pre pre c);
}

abbrev listening : Beacon no_invoices witnesses
listening = record {
  invoices = record {
    cdb = tt;
    next_client_id = 0;
    notification_clients = [];
    debug_invoices = [];
    goroutines = [];
    made_channels = 0;
  };
  w_cache = (5 ∷ [], 5 ∷ []) ∷ [];
  client_counter = 3;
  subscribers = (2, record { update_chan = 4; quit = 5 }) ∷ [];
  goroutines = [];
  closed = 3 ∷ 1 ∷ [];
  made_channels = 6;
}

listening-FreshSubscribers : FreshSubscribers no_invoices witnesses listening
unfolding lookup
listening-FreshSubscribers = record { below = λ i n. ground arith; unmade = λ c m. ground arith }

add_preimage_example :
    IsTold
      (record { update_chan = 4; quit = 5 })
      (8 ∷ [])
      (add_preimage no_invoices witnesses (8 ∷ []) listening).1.goroutines
unfolding lookup
add_preimage_example =
    ((add_preimage_effect no_invoices witnesses (8 ∷ []) listening).1
        (insert (8 ∷ []) (8 ∷ []) listening.w_cache) refl).3
      2 (record { update_chan = 4; quit = 5 }) refl
