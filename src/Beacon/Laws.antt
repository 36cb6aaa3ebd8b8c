-- ===== src/Beacon/Laws.antt =====
-- Which preimages the beacon finds, and whom it tells.
use lndmobile.Prelude.{
  ℕ, ◌+◌, ◌<◌, ◌==◌, ==_iff, ◌≡◌, ◌≢◌, ◌⊎◌, Bool-cases, subst, sym, ap, ◌∙◌, true, false, Option,
  none, some, List, [], ◌∷◌, ◌++◌, if◌then◌else◌, arith, refl, inl, inr, Option-cases, none≢some,
  some_injective,
}
use lndmobile.Prelude.Int.{ℤ}
use lndmobile.Prelude.Assoc.{nat_eq, lookup, insert, lookup-insert, lookup-delete}
use lndmobile.Prelude.Exec.{Result, ok, err, panic, Reply, value, failure, reply_cases}
use lndmobile.Wire.{copy_to, Bytes, bytes_eq_iff, hash_eq}
use lndmobile.Invoices.{InvoiceDb, lookup_invoice, add_debug_invoice}
use lndmobile.Invoices.Laws.{lookup_invoice-add_debug_invoice}
use lndmobile.Beacon.{
  WitnessCache, PreimageSubscriber, Update, contains_nat, Beacon, subscribe_updates,
  cancel_subscription, cached, lookup_preimage, updates, add_preimage,
}

-- Whether a goroutine is to send a preimage to a subscriber.
abbrev pub IsTold : PreimageSubscriber → Bytes → List Update → Type 0
IsTold c pre [] = ⊥
IsTold c pre (u ∷ us) = ((u.client ≡ c) × (u.preimage ≡ pre)) ⊎ IsTold c pre us

module _ {W C : Type 0} (db : InvoiceDb W) (cache : WitnessCache C) where
  open db use {payment_preimage, err_invoice_not_found, sum256, payment_preimage-new_invoice}
  open cache use {lookup_witness, add_witness}

  -- The registry answers for a payment hash that it knows an invoice for; only if it has no such
  -- invoice is the cache asked; and any other error of the registry hides what the cache holds.
  pub data Sources (h : Bytes) (p : Beacon db cache) : Option Bytes → Type 0 where
    from_invoice :
        (i : db.Invoice)
        → lookup_invoice db (copy_to 32 h) p.invoices ≡ value i
        → Sources h p (some (payment_preimage i))
    from_cache :
        (pre : Bytes)
        → lookup_invoice db (copy_to 32 h) p.invoices ≡ failure err_invoice_not_found
        → lookup_witness h p.w_cache ≡ value pre
        → Sources h p (some pre)
    nowhere :
        (e : ℕ)
        → lookup_invoice db (copy_to 32 h) p.invoices ≡ failure err_invoice_not_found
        → lookup_witness h p.w_cache ≡ failure e
        → Sources h p none
    hidden :
        (e : ℕ)
        → e ≢ err_invoice_not_found
        → lookup_invoice db (copy_to 32 h) p.invoices ≡ failure e
        → Sources h p none

  abbrev answer : Bytes → Beacon db cache → Reply db.Invoice → Option Bytes
  answer h p x = elim x [
    | value i ↦ some (payment_preimage i)
    | failure e ↦
        if e == err_invoice_not_found then cached db cache (lookup_witness h p.w_cache) else none
  ]

  from_failure :
      (h : Bytes) (p : Beacon db cache) (e : ℕ)
      → lookup_invoice db (copy_to 32 h) p.invoices ≡ failure e
      → Sources h p (answer h p (failure e))
  from_failure h p e q = elim (Bool-cases (e == err_invoice_not_found)) [
    | inr m ↦
        subst (λ b. Sources h p (if b then cached db cache (lookup_witness h p.w_cache) else none))
          (sym m) (hidden e (λ s. ground (arith, ==_iff e err_invoice_not_found)) q)
    | inl m ↦
        let same = q ∙ ap failure ((==_iff e err_invoice_not_found).0 m) in
        subst (λ b. Sources h p (if b then cached db cache (lookup_witness h p.w_cache) else none))
          (sym m)
          (elim (reply_cases (lookup_witness h p.w_cache)) [
            | inl (pre, w) ↦
                subst (λ x. Sources h p (cached db cache x)) (sym w) (from_cache pre same w)
            | inr (x, w) ↦ subst (λ y. Sources h p (cached db cache y)) (sym w) (nowhere x same w)
          ])
  ]

  -- A preimage is found in one of these ways.
  pub lookup_preimage-Sources :
      (h : Bytes) (p : Beacon db cache) → Sources h p (lookup_preimage db cache h p)
  unfolding lookup_preimage
  lookup_preimage-Sources h p = elim (reply_cases (lookup_invoice db (copy_to 32 h) p.invoices)) [
    | inl (i, q) ↦ subst (λ x. Sources h p (answer h p x)) (sym q) (from_invoice i q)
    | inr (e, q) ↦ subst (λ x. Sources h p (answer h p x)) (sym q) (from_failure h p e q)
  ]

  -- A debug invoice makes its preimage known under the preimage's hash.
  pub lookup_preimage-add_debug_invoice :
      (now : ℕ) (amt : ℤ) (preimage h : Bytes) (p : Beacon db cache)
      → copy_to 32 h ≡ sum256 preimage
      → lookup_preimage db cache h
          (record p { invoices = add_debug_invoice db now amt preimage p.invoices })
        ≡ some preimage
  unfolding lookup_preimage
  lookup_preimage-add_debug_invoice now amt preimage h p e =
      let found = lookup_invoice-add_debug_invoice db now amt preimage (copy_to 32 h) p.invoices in
      let invoice = db.new_invoice now (db.new_msat_from_satoshis amt) preimage in
      let same = (bytes_eq_iff (sum256 preimage) (copy_to 32 h)).1 (sym e) in
      ap (answer h p) (
        found
        ∙ ap (λ b. if b then value invoice else lookup_invoice db (copy_to 32 h) p.invoices) same)
      ∙ ap some (payment_preimage-new_invoice now (db.new_msat_from_satoshis amt) preimage)

  updates-IsTold :
      (pre : Bytes) (cs : List (ℕ × PreimageSubscriber)) (us : List Update) (i : ℕ)
      (c : PreimageSubscriber)
      → lookup i cs ≡ some c
      → IsTold c pre (updates db cache pre cs ++ us)
  unfolding updates lookup
  updates-IsTold pre [] us i c e = absurd (none≢some e)
  updates-IsTold pre ((j, d) ∷ cs) us i c e = elim (Bool-cases (j == i)) [
    | inl m ↦ inl (some_injective (sym (ap (λ x. if x then some d else lookup i cs) m) ∙ e), refl)
    | inr m ↦
        inr (updates-IsTold pre cs us i c (sym (ap (λ x. if x then some d else lookup i cs) m) ∙ e))
  ]

  abbrev end_add :
      Bytes → Beacon db cache → Reply (Unit {0}) × C → Result ℕ (Unit {0}) × Beacon db cache
  end_add pre p x = elim x.0 [
    | failure e ↦ (err e, record p { w_cache = x.1 })
    | value u ↦ (
      ok tt,
      record p { w_cache = x.1; goroutines = updates db cache pre p.subscribers ++ p.goroutines },
    )
  ]

  -- `AddPreimage` returns the error of the cache and tells nobody, or the cache has taken the
  -- preimage and every subscriber is told it. The subscribers stay in either case.
  pub add_preimage_effect :
      (pre : Bytes) (p : Beacon db cache)
      → ((e : ℕ) (c : C)
          → add_witness pre p.w_cache ≡ (failure e, c)
          → add_preimage db cache pre p ≡ (err e, record p { w_cache = c }))
        × ((c : C)
            → add_witness pre p.w_cache ≡ (value tt, c)
            → ((add_preimage db cache pre p).0 ≡ ok tt)
              × ((add_preimage db cache pre p).1.w_cache ≡ c)
              × ((add_preimage db cache pre p).1.subscribers ≡ p.subscribers)
              × ((i : ℕ) (s : PreimageSubscriber)
                  → lookup i p.subscribers ≡ some s
                  → IsTold s pre (add_preimage db cache pre p).1.goroutines))
  unfolding add_preimage
  add_preimage_effect pre p = (
    λ e c q. ap (end_add pre p) q,
    λ c q. (
      ap (λ x. (end_add pre p x).0) q,
      ap (λ x. (end_add pre p x).1.w_cache) q,
      ap (λ x. (end_add pre p x).1.subscribers) q,
      λ i s m.
          subst (λ x. IsTold s pre (end_add pre p x).1.goroutines) (sym q)
            (updates-IsTold pre p.subscribers p.goroutines i s m),
    ),
  )

  -- Subscribers and channels are those that were numbered.
  pub record FreshSubscribers (p : Beacon db cache) : Type 0 where
    pub below : (i : ℕ) → lookup i p.subscribers ≢ none → i < p.client_counter
    pub unmade : (c : ℕ) → contains_nat c p.closed ≡ true → c < p.made_channels

  next_free :
      (p : Beacon db cache) → FreshSubscribers p → lookup p.client_counter p.subscribers ≡ none
  next_free p f = elim (Option-cases (lookup p.client_counter p.subscribers)) [
    | inl e ↦ e
    | inr (c, e) ↦ ground (arith, f.below p.client_counter)
  ]

  next_open :
      (p : Beacon db cache)
      → FreshSubscribers p
      → contains_nat (p.made_channels + 1) p.closed ≡ false
  next_open p f = ground (arith, f.unmade (p.made_channels + 1))

  -- If the numbers in use are below the counters, a new subscriber takes a number that no subscriber
  -- has. Cancelling the subscription once succeeds and leaves the subscribers that were there before
  -- it, and cancelling it a second time panics, since its channel is closed then.
  pub subscription_once :
      (p : Beacon db cache)
      → FreshSubscribers p
      → let (s, q) = subscribe_updates db cache p in
        let cancelled = cancel_subscription db cache s q in
        (lookup s.client_id p.subscribers ≡ none)
        × (cancelled.0 ≡ ok tt)
        × ((i : ℕ) → lookup i cancelled.1.subscribers ≡ lookup i p.subscribers)
        × ((cancel_subscription db cache s cancelled.1).0 ≡ panic)
  unfolding subscribe_updates cancel_subscription
  subscription_once p f =
      let id = p.client_counter in
      let c : PreimageSubscriber = record {
        update_chan = p.made_channels;
        quit = p.made_channels + 1;
      } in
      (
        next_free p f,
        ground (arith, next_open p f),
        λ i. ground (
          arith,
          next_open p f,
          next_free p f,
          lookup-insert id i c p.subscribers,
          lookup-delete id i (insert id c p.subscribers),
          ==_iff id i,
        ),
        ground (arith, next_open p f),
      )
