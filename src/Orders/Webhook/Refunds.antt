-- ===== src/Orders/Webhook/Refunds.antt =====
-- What the news of a cancellation or of a refund does to an order.
use just1kbot.Prelude.{true, false, none, some, ◌⊎◌, ◌≡◌, ◌≢◌, arith}
use just1kbot.Database.{
  OrderStatus, CancellationReason, Review, OrderMetadata, Order, Db, ok, put_order,
}
use just1kbot.Fulfillment.Operations.{WhiteInternetService}
use just1kbot.Orders.Settlement.{mark_order_canceled}
use just1kbot.Orders.Webhook.{
  WebhookResult, Runtime, is_other_payment, is_full_amount, refund, mismatched,
  process_webhook_event, find_order, is_empty,
}

module _ (py : Runtime) (wi : WhiteInternetService) (r : WebhookResult) (o : Order) (db : Db) where
  -- News that names an order, and a payment other than the order's own, is dropped: nothing is
  -- written.
  process_webhook_event-other :
      is_empty (WebhookResult.order_id r) ≡ false
      → find_order py r db ≡ some o
      → is_other_payment r o ≡ true
      → process_webhook_event py wi r db ≡ (ok none, db)
  unfolding process_webhook_event
  process_webhook_event-other i f n = rw (i, f, n)

  -- News that names an order, of a cancellation and not of a payment, cancels a pending order and
  -- leaves every other order as it is.
  process_webhook_event-cancels :
      is_empty (WebhookResult.order_id r) ≡ false
      → find_order py r db ≡ some o
      → is_other_payment r o ≡ false
      → WebhookResult.is_paid r ≡ false
      → WebhookResult.is_canceled r ≡ true
      → let canceled = mark_order_canceled CancellationReason.gateway_canceled o in
        ((Order.status o ≡ OrderStatus.pending)
          × (Order.status canceled ≡ OrderStatus.canceled)
          × (process_webhook_event py wi r db ≡ (ok (some canceled), put_order canceled db)))
        ⊎ ((Order.status o ≢ OrderStatus.pending)
            × (process_webhook_event py wi r db ≡ (ok (some o), db)))
  unfolding process_webhook_event mark_order_canceled
  process_webhook_event-cancels i f n p c = rw (i, f, n, p, c) (ground arith)

  -- Only a paid order is refunded: for a pending or a canceled one the answer is `None`, for one that
  -- is refunded already it is the order, and nothing is written.
  refund-unpaid :
      Order.status o ≢ OrderStatus.paid
      → ((refund py wi r o db ≡ (ok none, db)) × (Order.status o ≢ OrderStatus.refunded))
        ⊎ ((refund py wi r o db ≡ (ok (some o), db)) × (Order.status o ≡ OrderStatus.refunded))
  unfolding refund
  refund-unpaid n = ground arith

  -- A refund of a paid order for another amount than its own leaves the order paid and puts it up for
  -- review by hand; the ledger, the allocations and the users stay.
  refund-mismatch :
      Order.status o ≡ OrderStatus.paid
      → is_full_amount (WebhookResult.amount_rub r) o ≡ false
      → let (answer, after) = refund py wi r o db in
        (p : Order) × (answer ≡ ok (some p))
        × (Order.status p ≡ OrderStatus.paid)
        × (Review.requires_manual_review (OrderMetadata.review (Order.metadata p)) ≡ true)
        × (Db.entries after ≡ Db.entries db)
        × (Db.allocations after ≡ Db.allocations db)
        × (Db.users after ≡ Db.users db)
  unfolding refund mismatched
  refund-mismatch s n =
      (mismatched r o, simp (s, n), s, ground arith, simp (s, n), simp (s, n), simp (s, n))
