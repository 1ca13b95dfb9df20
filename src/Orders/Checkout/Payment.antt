-- ===== src/Orders/Checkout/Payment.antt =====
-- A purchase from the wallet.
use just1kbot.Prelude.{
  ℕ, List, update_where, ap, ◌∙◌, first_where, ◌==◌, ℕ, pos, ◌+ℤ◌, ◌-ℤ◌, ◌≤ℤ◌, ◌<ℤ◌, ltb_ℤ, Bool,
  true, false, Option, none, some, ◌++◌, [], ◌∷◌, ◌≡◌, refl, arith,
}
use mathlib.Core.Path.{fun_ext}
use just1kbot.Database.{
  Action, pure, gets, ◌>>=◌, ◌>>◌, order_by_id, VlessSubscription, OrderMetadata, put_user,
  put_order, Decimal, wallet, standard, OrderStatus, User, Order, Db, ok, user_by_id,
}
use just1kbot.Ledger.Balance.{
  AccountBalanceSnapshot, snapshot, snapshot_of, position, is_whole, get_account_balance,
  lock_account_user,
}
use just1kbot.Ledger.Lots.{credit_capacity, used_of_credit}
use just1kbot.Ledger.Coverage.Append.{IsCovered, available-position}
use just1kbot.Ledger.Coverage.Spending.{Distinct}
use just1kbot.Ledger.Coverage.Debit.{IsFresh, after_debit, create_order_debit-IsCovered}
use just1kbot.Subscription.Access.{check_vpn_access, synced, sync_access_state}
use just1kbot.Subscription.Extension.{or_else}
use just1kbot.Fulfillment.Operations.{WhiteInternetService}
use just1kbot.Fulfillment.Standard.{
  fulfilled_user, with_previous, remember, fulfill_standard, fulfill_order,
}
use just1kbot.Orders.Pricing.{FloatOps}
use just1kbot.Orders.Checkout.{
  Request, new_order, satisfies_order_checks, add_order, pay_from_wallet,
}
use just1kbot.Orders.Checkout.Guards.{quoted}

debt-position :
    (db : Db) (u : ℕ)
    → pos 0 <ℤ position db u
    → ltb_ℤ (pos 0) (AccountBalanceSnapshot.debt (snapshot db u)) ≡ false
unfolding snapshot snapshot_of ◌-ℤ◌
debt-position db u h = ground arith

available-enough :
    (db : Db) (u : ℕ) (r : Decimal)
    → pos 0 <ℤ r
    → r ≤ℤ position db u
    → ltb_ℤ (AccountBalanceSnapshot.available (snapshot db u)) r ≡ false
available-enough db u r h k = rw (available-position db u (omega (arith, h, k))) (ground arith)

ltb_ℤ-positive : (r : Decimal) → pos 0 <ℤ r → ltb_ℤ (pos 0) r ≡ true
ltb_ℤ-positive r h = ground arith

-- What is owed and what covers it are a matter of the ledger alone.
position-same : (a b : Db) (u : ℕ) → Db.entries b ≡ Db.entries a → position b u ≡ position a u
unfolding position
position-same a b u e = rw e refl

credit_capacity-same :
    (a b : Db)
    → Db.entries b ≡ Db.entries a
    → Db.allocations b ≡ Db.allocations a
    → credit_capacity b ≡ credit_capacity a
unfolding credit_capacity used_of_credit
credit_capacity-same a b e f = fun_ext (λ c. rw (e, f) refl)

IsCovered-same :
    (a b : Db) (u : ℕ)
    → Db.entries b ≡ Db.entries a
    → Db.allocations b ≡ Db.allocations a
    → IsCovered a u
    → IsCovered b u
IsCovered-same a b u e f h = rw (position-same a b u e, credit_capacity-same a b e f, e) h

synced-ledger :
    (target : Bool) (sub : Option VlessSubscription) (d : Db)
    → (Db.entries (synced target sub d) ≡ Db.entries d)
      × (Db.allocations (synced target sub d) ≡ Db.allocations d)
      × (Db.users (synced target sub d) ≡ Db.users d)
unfolding synced
synced-ledger target none d = (refl, refl, refl)
synced-ledger target (some sub) d = ground arith

-- A user's row that is written over is found with its new values.
first_where-update :
    (v u : User) (us : List User)
    → first_where (λ x. User.id x == User.id v) us ≡ some u
    → first_where
        (λ x. User.id x == User.id v)
        (update_where (λ x. User.id x == User.id v) (λ _. v) us)
      ≡ some v
first_where-update v u [] h = ground (arith, h)
first_where-update v u (x ∷ xs) h = ground (arith, first_where-update v u xs)

-- A standard order's fulfilment succeeds, gives the user what the order is for, and leaves the ledger
-- alone.
fulfill_standard-ledger :
    (o : Order) (user : User) (d : Db)
    → (fulfill_standard o user d ≡ (ok tt, (fulfill_standard o user d).1))
      × (Db.entries (fulfill_standard o user d).1 ≡ Db.entries d)
      × (Db.allocations (fulfill_standard o user d).1 ≡ Db.allocations d)
      × (user_by_id (User.id user) d ≡ some user
          → user_by_id (User.id user) (fulfill_standard o user d).1
            ≡ some (fulfilled_user o (Db.now d) user))
unfolding fulfill_standard sync_access_state fulfilled_user
fulfill_standard-ledger o user d =
    let kept =
      synced-ledger (check_vpn_access (some (fulfilled_user o (Db.now d) user)) (Db.now d))
        (first_where (λ s. VlessSubscription.user_id s == User.id user) (Db.vless_subscriptions d))
        (put_user (fulfilled_user o (Db.now d) user) (
          put_order (with_previous o (remember user (OrderMetadata.previous (Order.metadata o))))
            d)) in
    (
      refl,
      kept.0,
      kept.1,
      λ h.
          ap (first_where (λ x. User.id x == User.id user)) kept.2
          ∙ first_where-update (fulfilled_user o (Db.now d) user) user (Db.users d) h,
    )

-- The user's request for a subscription, otherwise as the request.
abbrev pub subscription_request : Request → User → Request
subscription_request r user = record r { user_id = User.id user; service_type = standard }

-- A user under no financial hold, otherwise as the user.
abbrev pub free : User → User
free user = record user { financial_hold = false }

module _ (floats : FloatOps) (wi : WhiteInternetService) (r : Request) (user : User) (db : Db) where
  -- The order that the call adds.
  abbrev pub bought : Order
  bought =
      new_order (subscription_request r user)
        (quoted floats (subscription_request r user) (some (free user)) db) wallet OrderStatus.paid
        (some (Db.now db)) (Db.now db)

  abbrev with_order : Db
  with_order = record db { orders = Db.orders db ++ bought ∷ [] }

  -- The last two steps of the call.
  abbrev finish : Action Order
  finish =
      fulfill_order wi bought
      >> (gets (order_by_id (Request.id r)) >>= λ fulfilled. pure (or_else fulfilled bought))

  finish-ledger :
      (d : Db)
      → user_by_id (User.id user) d ≡ some (free user)
      → ((o : Order) × ((finish d).0 ≡ ok o))
        × (Db.entries (finish d).1 ≡ Db.entries d)
        × (Db.allocations (finish d).1 ≡ Db.allocations d)
        × (user_by_id (User.id user) (finish d).1
            ≡ some (fulfilled_user bought (Db.now d) (free user)))
  unfolding fulfill_order
  finish-ledger d g =
      let kept = fulfill_standard-ledger bought (free user) d in
      rw (g, kept.0) ((_, refl), kept.1, kept.2, kept.3 g)

  -- A user under no financial hold who asks for a subscription, at a whole positive number of
  -- rubles that the wallet's balance pays, gets it: on a covered account, in a ledger whose entry
  -- ids are distinct, for an order that no row of the ledger stands for yet, the call returns an
  -- order, the position falls by exactly the price, the account is covered again, and the user's row
  -- is the one that the order's fulfilment makes of it, with the days, the devices and the tariff.
  pub pay_from_wallet-IsCovered :
      user_by_id (User.id user) db ≡ some (free user)
      → satisfies_order_checks bought ≡ true
      → pos 0 <ℤ Order.amount_rub bought
      → is_whole (Order.amount_rub bought) ≡ true
      → IsCovered db (User.id user)
      → Distinct (Db.entries db)
      → Order.amount_rub bought ≤ℤ position db (User.id user)
      → IsFresh db (User.id user) (Order.amount_rub bought) (Request.id r)
      → let (answer, after) = pay_from_wallet floats wi (subscription_request r user) db in
        ((o : Order) × (answer ≡ ok o))
        × (position after (User.id user) +ℤ Order.amount_rub bought ≡ position db (User.id user))
        × IsCovered after (User.id user)
        × (user_by_id (User.id user) after ≡ some (fulfilled_user bought (Db.now db) (free user)))
  unfolding pay_from_wallet get_account_balance lock_account_user add_order
  pay_from_wallet-IsCovered f checks p w c d k fresh =
      rw
        (
          f,
          debt-position db (User.id user) (omega (arith, p, k)),
          available-enough db (User.id user) (Order.amount_rub bought) p k,
          checks,
          ltb_ℤ-positive (Order.amount_rub bought) p,
          (create_order_debit-IsCovered with_order (free user) (Order.amount_rub bought)
              (Request.id r) p w (IsCovered-same db with_order (User.id user) refl refl c) d
              (rw (position-same db with_order (User.id user) refl) k) fresh).0,
        )
        (let debit =
            create_order_debit-IsCovered with_order (free user) (Order.amount_rub bought)
              (Request.id r) p w (IsCovered-same db with_order (User.id user) refl refl c) d
              (rw (position-same db with_order (User.id user) refl) k) fresh in
          let spent : Db =
            after_debit with_order (free user) (Order.amount_rub bought) (Request.id r) in
          let done = finish-ledger spent f in
          (
            done.0,
            ap (λ x. x +ℤ Order.amount_rub bought)
                  (position-same spent (finish spent).1 (User.id user) done.1)
                ∙ (debit.2 ∙ position-same db with_order (User.id user) refl),
            IsCovered-same spent (finish spent).1 (User.id user) done.1 done.2 debit.3,
            done.3,
          ))
