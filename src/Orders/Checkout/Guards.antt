-- ===== src/Orders/Checkout/Guards.antt =====
-- What checkout refuses, what it hands back again, and what it keeps when the provider fails.
use just1kbot.Prelude.{pos, ltb_ℤ, true, false, Option, none, some, ◌≡◌, arith, if◌then◌else◌}
use just1kbot.Database.{
  wallet, OrderStatus, PaymentMethod, User, Order, Db, Session, ok, err, rollback, session_scope,
  Error, user_by_id, put_order, is_wallet,
}
use just1kbot.Ledger.Balance.{
  AccountBalanceSnapshot, snapshot, get_account_balance, lock_account_user,
}
use just1kbot.Fulfillment.Operations.{WhiteInternetService}
use just1kbot.Orders.Pricing.{FloatOps, Quote, resolve_order_terms}
use just1kbot.Orders.Checkout.{
  Request, asked, new_order, satisfies_order_checks, add_order, is_duplicate, latest, usable,
  GatewayAnswer, ambiguous, failed, held_ambiguous, settle_answer, create_order, pay_from_wallet,
}

module _ (floats : FloatOps) (r : Request) where
  -- What the request comes to, once the server has looked its price up.
  abbrev pub quoted : Option User → Db → Quote
  quoted user db =
      resolve_order_terms floats user (Request.user_id r) (Request.tariff_id r) (asked r) db

  -- The row that a call of `create_order` would add.
  abbrev pub placed : PaymentMethod → Db → Order
  placed method db =
      new_order r (quoted (user_by_id (Request.user_id r) db) db) method OrderStatus.pending none
        (Db.now db)

  module _ (gateway : Order → GatewayAnswer) (method : PaymentMethod) (s : Session) where
    -- Asking again within the window, for an order that is not paid from the wallet, hands back the
    -- order that is pending already: the provider is not asked and nothing is written.
    create_order-again :
        (existing : Order)
        → is_wallet method ≡ false
        → usable (
            latest
              (is_duplicate (placed method (Session.current s)))
              (Db.orders (Session.current s)))
          ≡ some existing
        → create_order floats gateway r method s ≡ (ok existing, s)
    unfolding create_order
    create_order-again existing w e = rw (w, e)

    -- When the provider fails for an order that the table accepts, that is not paid from the wallet
    -- and that no usable pending order duplicates, the call raises and leaves no trace of the
    -- order: the transaction sees what was committed before.
    create_order-failed :
        is_wallet method ≡ false
        → usable (
            latest
              (is_duplicate (placed method (Session.current s)))
              (Db.orders (Session.current s)))
          ≡ none
        → satisfies_order_checks (placed method (Session.current s)) ≡ true
        → gateway (placed method (Session.current s)) ≡ failed
        → session_scope (create_order floats gateway r method) s
          ≡ (err Error.gateway_failed, rollback s)
    unfolding create_order add_order settle_answer session_scope
    create_order-failed w e c g = rw (w, e, c, w, g)

    -- When the provider's answer is ambiguous for an order that the table accepts, that is not paid
    -- from the wallet and that no usable pending order duplicates, the call raises, and yet the
    -- order that may have been paid for is committed, with a mark: the scope that ends by the
    -- exception does not take it back.
    pub create_order-ambiguous :
        is_wallet method ≡ false
        → usable (
            latest
              (is_duplicate (placed method (Session.current s)))
              (Db.orders (Session.current s)))
          ≡ none
        → satisfies_order_checks (placed method (Session.current s)) ≡ true
        → gateway (placed method (Session.current s)) ≡ ambiguous
        → let (answer, after) = session_scope (create_order floats gateway r method) s in
          (answer ≡ err Error.payment_creation_ambiguous)
          × (Session.current after ≡ Session.committed after)
          × (Db.entries (Session.committed after) ≡ Db.entries (Session.current s))
          × (Db.orders (Session.committed after)
              ≡ Db.orders (
                  put_order
                    (held_ambiguous (placed method (Session.current s)))
                    ((add_order (placed method (Session.current s)) (Session.current s)).1)))
    unfolding create_order add_order settle_answer session_scope
    create_order-ambiguous w e c g =
        (rw (w, e, c, w, g), rw (w, e, c, w, g), rw (w, e, c, w, g), rw (w, e, c, w, g))

  -- A user who has less money available than the price pays nothing from the wallet: the call raises,
  -- for a financial hold before all, then for a debt, else for the missing money, and writes nothing.
  pay_from_wallet-refuses :
      (wi : WhiteInternetService) (user : User) (db : Db)
      → user_by_id (Request.user_id r) db ≡ some user
      → ltb_ℤ (AccountBalanceSnapshot.available (snapshot db (Request.user_id r))) (
          Order.amount_rub (
            new_order r
              (quoted (some user) db)
              wallet
              OrderStatus.paid
              (some (Db.now db))
              (Db.now db)))
        ≡ true
      → pay_from_wallet floats wi r db ≡ (
        err (
            if User.financial_hold user
            then Error.financial_hold_blocked
            else if ltb_ℤ (pos 0) (AccountBalanceSnapshot.debt (snapshot db (Request.user_id r)))
            then Error.account_debt_blocked
            else Error.insufficient_balance),
        db,
      )
  unfolding pay_from_wallet get_account_balance lock_account_user
  pay_from_wallet-refuses wi user db f low = rw (f) (ground arith)
