-- ===== src/Examples/Orders.antt =====
-- Checkout and settlement at concrete inputs.
use just1kbot.Prelude.{arith, [], ◌∷◌, ◌+ℤ◌, pos, true, false, some, none, ◌≡◌, refl}
use just1kbot.Database.{
  gateway, OrderStatus, CancellationReason, Review, OrderMetadata, Order, User, Db, Session, Error,
  ok, err, session_scope, put_order,
}
use just1kbot.Ledger.Balance.{position}
use just1kbot.Orders.Pricing.{resolve_order_terms}
use just1kbot.Orders.Checkout.{
  Request, add_order, ambiguous, held_ambiguous, create_order, pay_from_wallet, latest,
}
use just1kbot.Orders.Checkout.Guards.{placed, create_order-ambiguous}
use just1kbot.Orders.Settlement.{mark_order_canceled, mark_order_paid}
use just1kbot.Orders.Settlement.Guards.{mark_order_paid-underpaid}
use just1kbot.Orders.Settlement.Topup.{mark_order_paid-topup, mark_order_paid-topup_twice}
use just1kbot.Ledger.Entries.{conflicts_with, new_entry}
use just1kbot.Ledger.Operations.{order_credit_values}
use just1kbot.Database.{user_by_id}
use just1kbot.Fulfillment.Standard.{fulfilled_user}
use just1kbot.Orders.Checkout.Payment.{bought, subscription_request, pay_from_wallet-IsCovered}
use just1kbot.Ledger.Coverage.Append.{IsCovered}
use just1kbot.Examples.Ledger.{shop-IsCovered, position-shop}
use just1kbot.Examples.Data.{
  shop, shop_with, session, customer, topup_order, request, whole_floats, idle_service,
}

create_order-ambiguous_example :
    let (answer, after) =
      session_scope
        (create_order whole_floats (λ o. ambiguous) request (gateway "yookassa"))
        session in
    let o : Order = placed whole_floats request (gateway "yookassa") shop in
    (answer ≡ err Error.payment_creation_ambiguous)
    × (Session.current after ≡ Session.committed after)
    × (Db.entries (Session.committed after) ≡ Db.entries shop)
    × (Db.orders (Session.committed after)
        ≡ Db.orders (put_order (held_ambiguous o) ((add_order o shop).1)))
unfolding resolve_order_terms latest
create_order-ambiguous_example =
    create_order-ambiguous whole_floats request (λ o. ambiguous) (gateway "yookassa") session refl
      refl refl refl

abbrev gateway_canceled_order : Order
gateway_canceled_order =
    mark_order_canceled CancellationReason.gateway_canceled (topup_order OrderStatus.pending)

mark_order_paid-underpaid_example :
    let (answer, after) = mark_order_paid idle_service 70 (some "pay-1") (some (pos 29999)) shop in
    (p : Order) × (answer ≡ ok (some p))
    × (Order.status p ≡ OrderStatus.pending)
    × (Review.requires_manual_review (OrderMetadata.review (Order.metadata p)) ≡ true)
    × (Db.entries after ≡ Db.entries shop)
    × (Db.allocations after ≡ Db.allocations shop)
    × (Db.users after ≡ Db.users shop)
mark_order_paid-underpaid_example =
    mark_order_paid-underpaid idle_service shop 70 (topup_order OrderStatus.pending) (some "pay-1")
      (pos 29999) refl refl refl

abbrev blocked : User
blocked = record customer { topup_blocked = true }

abbrev newcomer : User
newcomer = record customer { referred_by = none }

abbrev new_shop : Db
new_shop = record (shop_with (topup_order OrderStatus.pending) newcomer) { entries = [] }

mark_order_paid-topup_example :
    let (answer, after) =
      mark_order_paid idle_service 70 (some "pay-1") (some (pos 30000)) new_shop in
    (p : Order) × (answer ≡ ok (some p))
    × (Order.status p ≡ OrderStatus.paid)
    × (Order.newly_paid p ≡ true)
    × (Db.entries after ≡ new_entry (order_credit_values 1 (pos 30000) 70) new_shop ∷ [])
    × (Db.users after ≡ Db.users new_shop)
mark_order_paid-topup_example =
    mark_order_paid-topup idle_service new_shop (topup_order OrderStatus.pending) newcomer newcomer
      (some "pay-1") (pos 30000) refl (omega arith) refl refl refl refl refl refl refl

mark_order_paid-topup_twice_example :
    let first = (mark_order_paid idle_service 70 (some "pay-1") (some (pos 30000)) new_shop).1 in
    let (answer, after) = mark_order_paid idle_service 70 (some "pay-1") (some (pos 30000)) first in
    (p : Order) × (answer ≡ ok (some p))
    × (Order.status p ≡ OrderStatus.paid)
    × (Order.newly_paid p ≡ false)
    × (Db.entries after ≡ Db.entries first)
    × (Db.allocations after ≡ Db.allocations first)
    × (Db.users after ≡ Db.users first)
mark_order_paid-topup_twice_example =
    mark_order_paid-topup_twice idle_service new_shop (topup_order OrderStatus.pending) newcomer
      newcomer (some "pay-1") (pos 30000) (some "pay-1") (some (pos 30000)) refl refl (omega arith)
      refl refl refl refl refl refl refl

-- 200 rubles out of the 350 in the wallet.
abbrev purchase : Request
purchase = record request { amount_rub = some (pos 20000) }

pay_from_wallet-IsCovered_example :
    let (answer, after) =
      pay_from_wallet whole_floats idle_service (subscription_request purchase customer) shop in
    ((o : Order) × (answer ≡ ok o))
    × (position after 1 +ℤ pos 20000 ≡ position shop 1)
    × IsCovered after 1
    × (user_by_id 1 after
        ≡ some (
            fulfilled_user
              (bought whole_floats idle_service purchase customer shop)
              (Db.now shop)
              customer))
unfolding resolve_order_terms conflicts_with
pay_from_wallet-IsCovered_example =
    pay_from_wallet-IsCovered whole_floats idle_service purchase customer shop refl refl
      (omega arith) refl shop-IsCovered (refl, (refl, tt)) (rw position-shop (omega arith)) refl
