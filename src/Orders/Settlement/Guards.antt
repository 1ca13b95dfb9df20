-- ===== src/Orders/Settlement/Guards.antt =====
-- When a payment settles an order, and when it must not.
use just1kbot.Prelude.{
  ap, if◌then◌else◌, str_eq, ℕ, ltb_ℤ, true, false, Option, none, some, String, ◌⊎◌, ◌≡◌, refl,
  arith,
}
use just1kbot.Database.{
  OrderStatus, Decimal, CancellationReason, Review, OrderMetadata, Order, Db, ok, order_by_id,
  put_order,
}
use just1kbot.Fulfillment.Operations.{WhiteInternetService}
use just1kbot.Orders.Settlement.{
  mark_order_canceled, mark_order_paid, release_held, receive_payment, underpaid_order,
  with_external_id,
}

-- Cancelling touches a pending order only, and an order that is canceled already at most gets its
-- missing reason; doing it again, for whatever reason, changes nothing more.
mark_order_canceled_idempotent :
    (reason again : CancellationReason) (o : Order)
    → (mark_order_canceled again (mark_order_canceled reason o) ≡ mark_order_canceled reason o)
      × ((Order.status (mark_order_canceled reason o) ≡ Order.status o)
          ⊎ ((Order.status o ≡ OrderStatus.pending)
              × (Order.status (mark_order_canceled reason o) ≡ OrderStatus.canceled)))
unfolding mark_order_canceled
mark_order_canceled_idempotent reason again o = ground arith

-- The payment that an order has once a payment with the id is received.
abbrev pub named_id : Option String → Option String → Option String
named_id none e = e
named_id (some f) e = if str_eq f "" then e else some f

abbrev pub named : Option String → Order → Order
named external_id o = record o { external_id = named_id external_id (Order.external_id o) }

with_external_id-named :
    (external_id : Option String) (o : Order) → with_external_id external_id o ≡ named external_id o
with_external_id-named none o = refl
with_external_id-named (some e) o = ground arith

-- The payment's id is written to the order first.
receive_payment-named :
    (wi : WhiteInternetService) (external_id : Option String) (amount : Option Decimal) (o : Order)
    → receive_payment wi external_id amount o ≡ receive_payment wi none amount (named external_id o)
unfolding receive_payment
receive_payment-named wi external_id amount o =
    ap (receive_payment wi none amount) (with_external_id-named external_id o)

-- A payment of a pending order is received.
pub mark_order_paid-received :
    (wi : WhiteInternetService) (db : Db) (order_id : ℕ) (o : Order) (external_id : Option String)
    (amount : Option Decimal)
    → order_by_id order_id db ≡ some o
    → Order.status o ≡ OrderStatus.pending
    → mark_order_paid wi order_id external_id amount db
      ≡ receive_payment wi none amount (named external_id o) db
unfolding mark_order_paid
mark_order_paid-received wi db order_id o external_id amount f s =
    rw (f, s)
      (ap (λ m. m db)
        (receive_payment-named wi external_id amount (record o { status = OrderStatus.pending })))

module _ (wi : WhiteInternetService) (db : Db) (order_id : ℕ) (o : Order) where
  -- A payment that arrives for an order that the gateway had canceled settles nothing: the answer is
  -- `None`, and the only write is that the order is not newly paid.
  mark_order_paid-gateway_canceled :
      (external_id : Option String) (amount : Option Decimal)
      → order_by_id order_id db ≡ some o
      → Order.status o ≡ OrderStatus.canceled
      → OrderMetadata.cancellation_reason (Order.metadata o)
        ≡ some CancellationReason.gateway_canceled
      → mark_order_paid wi order_id external_id amount db
        ≡ (ok none, put_order (record o { newly_paid = false }) db)
  unfolding mark_order_paid
  mark_order_paid-gateway_canceled external_id amount f s r = rw (f, s, r)

  -- Less money than a pending order asks for, whatever payment it comes with, settles nothing: the
  -- order stays pending, is put up for review by hand, and neither the ledger nor a user changes.
  pub mark_order_paid-underpaid :
      (external_id : Option String) (received : Decimal)
      → order_by_id order_id db ≡ some o
      → Order.status o ≡ OrderStatus.pending
      → ltb_ℤ received (Order.amount_rub o) ≡ true
      → let (answer, after) = mark_order_paid wi order_id external_id (some received) db in
        (p : Order) × (answer ≡ ok (some p))
        × (Order.status p ≡ OrderStatus.pending)
        × (Review.requires_manual_review (OrderMetadata.review (Order.metadata p)) ≡ true)
        × (Db.entries after ≡ Db.entries db)
        × (Db.allocations after ≡ Db.allocations db)
        × (Db.users after ≡ Db.users db)
  unfolding receive_payment
  mark_order_paid-underpaid external_id received f s low = (
    record (underpaid_order (named external_id o) (some received)) { newly_paid = false },
    rw (mark_order_paid-received wi db order_id o external_id (some received) f s, low),
    s,
    refl,
    rw (mark_order_paid-received wi db order_id o external_id (some received) f s, low),
    rw (mark_order_paid-received wi db order_id o external_id (some received) f s, low),
    rw (mark_order_paid-received wi db order_id o external_id (some received) f s, low),
  )

  -- A payment for an order that is paid, and not held, changes neither the ledger nor a user: the
  -- second news of a payment is not settled twice.
  pub mark_order_paid-again :
      (external_id : Option String) (amount : Option Decimal)
      → order_by_id order_id db ≡ some o
      → Order.status o ≡ OrderStatus.paid
      → OrderMetadata.settlement_held (Order.metadata o) ≡ false
      → mark_order_paid wi order_id external_id amount db ≡ (
        ok (some (record o { newly_paid = false })),
        put_order (record o { newly_paid = false }) db,
      )
  unfolding mark_order_paid release_held
  mark_order_paid-again external_id amount f s n = rw (f, s, n)
