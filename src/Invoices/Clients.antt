-- ===== src/Invoices/Clients.antt =====
-- The clients of the invoice registry.
use lndmobile.Prelude.{
  ℕ, ◌+◌, ◌<◌, ◌^◌, ==_iff, ◌≡◌, ◌≢◌, none, some, arith, inl, inr, Option-cases,
}
use lndmobile.Prelude.Assoc.{nat_eq, lookup, insert, lookup-insert, lookup-delete}
use lndmobile.Invoices.{InvoiceDb, Registry, cancel, subscribe_notifications}

module _ {W : Type 0} (db : InvoiceDb W) where
  -- The identifiers in use are those that were given out.
  pub record FreshIds (r : Registry db) : Type 0 where
    pub below : (i : ℕ) → lookup i r.notification_clients ≢ none → i < r.next_client_id

  next_id_free :
      (r : Registry db) → FreshIds r → lookup r.next_client_id r.notification_clients ≡ none
  next_id_free r f = elim (Option-cases (lookup r.next_client_id r.notification_clients)) [
    | inl e ↦ e
    | inr (c, e) ↦ ground (arith, f.below r.next_client_id)
  ]

  -- Before the identifiers wrap around, a new client takes an identifier that no client has, all
  -- other clients stay, and the identifiers in use are below the next one, as they were before.
  pub subscribe_keeps_clients :
      (r : Registry db)
      → FreshIds r
      → r.next_client_id + 1 < 2 ^ 32
      → let (c, s) = subscribe_notifications db r in
        (lookup c.id r.notification_clients ≡ none)
        × (lookup c.id s.notification_clients ≡ some c)
        × ((i : ℕ) → i ≢ c.id → lookup i s.notification_clients ≡ lookup i r.notification_clients)
        × FreshIds s
  unfolding subscribe_notifications
  subscribe_keeps_clients r f b =
      let c = (subscribe_notifications db r).0 in
      let put = λ (i : ℕ). lookup-insert r.next_client_id i c r.notification_clients in
      (
        next_id_free r f,
        ground (arith, put r.next_client_id),
        λ i n. ground (arith, put i, ==_iff r.next_client_id i),
        record { below = λ i n. ground (arith, put i, f.below i, ==_iff r.next_client_id i) },
      )

  -- Cancelling a new subscription leaves the clients that were there before it, if the identifiers
  -- in use are below the next one.
  pub cancel-subscribe_notifications :
      (r : Registry db)
      → FreshIds r
      → let (c, s) = subscribe_notifications db r in
        ((i : ℕ) → lookup i (cancel db c s).notification_clients ≡ lookup i r.notification_clients)
  unfolding subscribe_notifications cancel
  cancel-subscribe_notifications r f i =
      let id = r.next_client_id in
      let c = (subscribe_notifications db r).0 in
      let clients = r.notification_clients in
      ground (
        arith,
        lookup-insert id i c clients,
        lookup-delete id i (insert id c clients),
        next_id_free r f,
        ==_iff id i,
      )
