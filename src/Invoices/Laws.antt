-- ===== src/Invoices/Laws.antt =====
-- What a lookup finds after a debug invoice was added, and what settling does.
use lndmobile.Prelude.{
  ℕ, ◌≡◌, ◌⊎◌, ◌==◌, Bool-cases, subst, sym, ap, ◌∙◌, Bool, true, Option, none, some, List, [], ◌∷◌,
  ◌++◌, if◌then◌else◌, arith, refl, inl, inr, Option-cases, none≢some, some_injective,
}
use lndmobile.Prelude.Int.{ℤ}
use lndmobile.Prelude.Assoc.{nat_eq, lookup, lookup-insert}
use lndmobile.Prelude.Exec.{Result, ok, err, Reply, value, failure}
use lndmobile.Wire.{Bytes, bytes_eq, hash_eq}
use lndmobile.Invoices.{
  InvoiceDb, Registry, Goroutine, notify_settled, send, event_chan, Subscription, add_debug_invoice,
  lookup_invoice, settle_invoice, sends, notify_clients, run_notify_settled,
}

module _ {W : Type 0} (db : InvoiceDb W) where
  open db use {Invoice, find, settle, new_invoice, new_msat_from_satoshis, sum256}

  -- A debug invoice is found under the hash of its preimage, whatever the database holds, and the
  -- lookup of another hash is as before.
  pub lookup_invoice-add_debug_invoice :
      (now : ℕ) (amt : ℤ) (preimage h : Bytes) (r : Registry db)
      → lookup_invoice db h (add_debug_invoice db now amt preimage r) ≡ (
          if bytes_eq (sum256 preimage) h
          then value (new_invoice now (new_msat_from_satoshis amt) preimage)
          else lookup_invoice db h r)
  unfolding lookup_invoice add_debug_invoice
  lookup_invoice-add_debug_invoice now amt preimage h r = ground (
    arith,
    lookup-insert (sum256 preimage) h (new_invoice now (new_msat_from_satoshis amt) preimage)
        r.debug_invoices,
  )

  abbrev settle_replied :
      Bytes → Registry db → Reply (Unit {0}) × W → Result ℕ (Unit {0}) × Registry db
  settle_replied h r x = elim x.0 [
    | failure e ↦ (err e, record r { cdb = x.1 })
    | value u ↦ (ok tt, record r { cdb = x.1; goroutines = notify_settled h ∷ r.goroutines })
  ]

  abbrev settle_found : Bytes → Registry db → Option Invoice → Result ℕ (Unit {0}) × Registry db
  settle_found h r o = elim o [ some i ↦ (ok tt, r) | none ↦ settle_replied h r (settle h r.cdb) ]

  settle_reply :
      (x : Reply (Unit {0}) × W)
      → ((w : W) × (x ≡ (value tt, w))) ⊎ ((e : ℕ) × (w : W) × (x ≡ (failure e, w)))
  settle_reply (value u, w) = inl (w, refl)
  settle_reply (failure e, w) = inr (e, w, refl)

  -- What settling an invoice may do.
  pub data Settling (h : Bytes) (r : Registry db) : Result ℕ (Unit {0}) × Registry db → Type 0 where
    -- A debug invoice stays as it is.
    debug : (i : Invoice) → lookup h r.debug_invoices ≡ some i → Settling h r (ok tt, r)
    -- The database refuses, and nobody is told.
    refused :
        (e : ℕ) (w : W)
        → lookup h r.debug_invoices ≡ none
        → settle h r.cdb ≡ (failure e, w)
        → Settling h r (err e, record r { cdb = w })
    -- The database settles the invoice, and one goroutine is to tell the clients.
    settled :
        (w : W)
        → lookup h r.debug_invoices ≡ none
        → settle h r.cdb ≡ (value tt, w)
        → Settling h r (ok tt, record r { cdb = w; goroutines = notify_settled h ∷ r.goroutines })

  -- Settling ends in one of the three ways.
  pub settle_invoice-Settling : (h : Bytes) (r : Registry db) → Settling h r (settle_invoice db h r)
  unfolding settle_invoice
  settle_invoice-Settling h r = elim (Option-cases (lookup h r.debug_invoices)) [
    | inr (i, e) ↦ subst (λ o. Settling h r (settle_found h r o)) (sym e) (debug i e)
    | inl e ↦
        subst (λ o. Settling h r (settle_found h r o)) (sym e)
          (elim (settle_reply (settle h r.cdb)) [
            | inl (w, s) ↦ subst (λ x. Settling h r (settle_replied h r x)) (sym s) (settled w e s)
            | inr (x, w, s) ↦
                subst (λ y. Settling h r (settle_replied h r y)) (sym s) (refused x w e s)
          ])
  ]

  abbrev notified : Registry db → Reply Invoice → Registry db
  notified r x = elim x [ failure e ↦ r | value invoice ↦ notify_clients db invoice true r ]

  abbrev pub IsSent : Goroutine db → List (Goroutine db) → Type 0
  IsSent g [] = ⊥
  IsSent g (x ∷ xs) = (x ≡ g) ⊎ IsSent g xs

  sends-IsSent :
      (invoice : Invoice) (b : Bool) (cs : List (ℕ × Subscription)) (gs : List (Goroutine db))
      (i : ℕ) (c : Subscription)
      → lookup i cs ≡ some c
      → IsSent (send (event_chan db b c) invoice) (sends db invoice b cs ++ gs)
  unfolding sends lookup
  sends-IsSent invoice b [] gs i c e = absurd (none≢some e)
  sends-IsSent invoice b ((j, d) ∷ cs) gs i c e = elim (Bool-cases (j == i)) [
    | inl m ↦ inl (
        ap (λ x. send (event_chan db b x) invoice)
          (some_injective (sym (ap (λ x. if x then some d else lookup i cs) m) ∙ e)))
    | inr m ↦
        inr (
          sends-IsSent invoice b cs gs i c
            (sym (ap (λ x. if x then some d else lookup i cs) m) ∙ e))
  ]

  kept_sends : (xs gs : List (Goroutine db)) (g : Goroutine db) → IsSent g gs → IsSent g (xs ++ gs)
  kept_sends [] gs g m = m
  kept_sends (x ∷ xs) gs g m = inr (kept_sends xs gs g m)

  -- The goroutine of `SettleInvoice` sends the invoice, as the database has it then, to every
  -- client that is registered, on the channel for settled invoices. What was to run still is.
  pub settled_clients_told :
      (h : Bytes) (r : Registry db) (invoice : Invoice)
      → find h r.cdb ≡ value invoice
      → ((i : ℕ) (c : Subscription)
          → lookup i r.notification_clients ≡ some c
          → IsSent (send c.settled_invoices invoice) (run_notify_settled db h r).goroutines)
        × ((g : Goroutine db)
            → IsSent g r.goroutines
            → IsSent g (run_notify_settled db h r).goroutines)
  unfolding run_notify_settled notify_clients
  settled_clients_told h r invoice e =
      subst
        (λ x.
          ((i : ℕ) (c : Subscription)
            → lookup i r.notification_clients ≡ some c
            → IsSent (send c.settled_invoices invoice) (notified r x).goroutines)
          × ((g : Goroutine db) → IsSent g r.goroutines → IsSent g (notified r x).goroutines))
        (sym e)
        (
          sends-IsSent invoice true r.notification_clients r.goroutines,
          kept_sends (sends db invoice true r.notification_clients) r.goroutines,
        )
