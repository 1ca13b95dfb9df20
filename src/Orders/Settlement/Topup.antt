-- ===== src/Orders/Settlement/Topup.antt =====
-- A top-up that is paid in full is credited.
use just1kbot.Prelude.{
  Option, String, ℕ, ◌==◌, pos, ◌<ℤ◌, ltb_ℤ, abs_ℤ, true, false, not, ◌&&◌, none, some, List, [],
  ◌∷◌, ◌++◌, first_where, update_where, ◌≡◌, refl, arith,
}
use just1kbot.Database.{
  topup, OrderStatus, Decimal, User, Order, OrderMetadata, Db, ok, user_by_id, order_by_id,
  put_order,
}
use just1kbot.Ledger.Balance.{is_whole}
use just1kbot.Ledger.Entries.{conflicts_with, new_entry, append_entry}
use just1kbot.Ledger.Operations.{order_credit_values}
use just1kbot.Ledger.Operations.Idempotence.{create_order_credit_new}
use just1kbot.Referral.Grant.{no_grant, grant_referral_bonus_for_topup}
use just1kbot.Fulfillment.Operations.{WhiteInternetService}
use just1kbot.Fulfillment.Standard.{fulfill_order}
use just1kbot.Orders.Settlement.Guards.{named, mark_order_paid-received, mark_order_paid-again}
use just1kbot.Orders.Settlement.{
  mark_notify_pending, settle_benefits, receive_payment, mark_order_paid, hold_reason, now_paid,
}

-- A row that is written over is found with its new values.
first_where-update_where :
    (i : ℕ) (x y : Order) (os : List Order)
    → Order.id x ≡ i
    → first_where (λ o. Order.id o == i) os ≡ some y
    → first_where (λ o. Order.id o == i) (update_where (λ o. Order.id o == Order.id x) (λ _. x) os)
      ≡ some x
first_where-update_where i x y [] e h = ground arith
first_where-update_where i x y (o ∷ os) e h = ground (arith, first_where-update_where i x y os e)

order_by_id-put_order :
    (x y : Order) (db : Db)
    → order_by_id (Order.id x) db ≡ some y
    → order_by_id (Order.id x) (put_order x db) ≡ some x
order_by_id-put_order x y db h = first_where-update_where (Order.id x) x y (Db.orders db) refl h

-- A user whom no one referred earns no one a bonus.
grant-unreferred :
    (user_id order_id : ℕ) (amount : Decimal) (purchaser : User) (db : Db)
    → first_where (λ u. User.id u == user_id && not (User.is_deleted u)) (Db.users db)
      ≡ some purchaser
    → User.referred_by purchaser ≡ none
    → grant_referral_bonus_for_topup user_id order_id amount db ≡ (ok no_grant, db)
unfolding grant_referral_bonus_for_topup
grant-unreferred user_id order_id amount purchaser db h n = rw (h, n)

-- A pending top-up, otherwise as the order.
abbrev pub pending_topup : Order → Order
pending_topup o = record o { service_type = topup; status = OrderStatus.pending }

module _ (wi : WhiteInternetService) (db : Db) (o : Order) (u purchaser : User)
    (external_id : Option String) where
  abbrev paid_order : Order
  paid_order = now_paid (named external_id (pending_topup o)) db

  abbrev noted : Order
  noted = mark_notify_pending paid_order

  -- The ledger as the settlement leaves it.
  abbrev credited : Db → Db
  credited d =
      append_entry (order_credit_values (Order.user_id o) (abs_ℤ (Order.amount_rub o)) (Order.id o))
        (put_order noted d)

  settle_benefits-topup :
      (d : Db)
      → pos 0 <ℤ Order.amount_rub o
      → is_whole (Order.amount_rub o) ≡ true
      → first_where
          (conflicts_with
            (order_credit_values (Order.user_id o) (abs_ℤ (Order.amount_rub o)) (Order.id o)))
          (Db.entries d)
        ≡ none
      → user_by_id (Order.user_id o) d ≡ some u
      → first_where (λ x. User.id x == Order.user_id o && not (User.is_deleted x)) (Db.users d)
        ≡ some purchaser
      → User.referred_by purchaser ≡ none
      → settle_benefits wi paid_order d ≡ (ok tt, put_order noted (credited d))
  unfolding settle_benefits mark_notify_pending fulfill_order
  settle_benefits-topup d p w f g q n =
      rw
        (
          create_order_credit_new (put_order noted d) (Order.user_id o) (Order.id o)
              (Order.amount_rub o) p w f,
          grant-unreferred (Order.user_id o) (Order.id o) (Order.amount_rub o) purchaser
              (credited d) q n,
          g,
        )
        refl

  -- The database after the settlement.
  abbrev settled : Db
  settled = put_order noted (credited (put_order paid_order db))

  mark_order_paid-settled :
      (received : Decimal)
      → ltb_ℤ received (Order.amount_rub o) ≡ false
      → pos 0 <ℤ Order.amount_rub o
      → is_whole (Order.amount_rub o) ≡ true
      → first_where
          (conflicts_with
            (order_credit_values (Order.user_id o) (abs_ℤ (Order.amount_rub o)) (Order.id o)))
          (Db.entries db)
        ≡ none
      → order_by_id (Order.id o) db ≡ some (pending_topup o)
      → user_by_id (Order.user_id o) db ≡ some u
      → hold_reason (pending_topup o) (some u) ≡ none
      → first_where (λ x. User.id x == Order.user_id o && not (User.is_deleted x)) (Db.users db)
        ≡ some purchaser
      → User.referred_by purchaser ≡ none
      → mark_order_paid wi (Order.id o) external_id (some received) db ≡ (ok (some noted), settled)
  unfolding receive_payment mark_notify_pending
  mark_order_paid-settled received k p w f e g r q n =
      rw
        (
          mark_order_paid-received wi db (Order.id o) (pending_topup o) external_id (some received)
              e refl,
          k,
          g,
          r,
          settle_benefits-topup (put_order paid_order db) p w f g q n,
          order_by_id-put_order noted noted (credited (put_order paid_order db)) (
              order_by_id-put_order noted paid_order (put_order paid_order db)
                (order_by_id-put_order paid_order (pending_topup o) db e)),
        )
        refl

  -- Money in full, whatever payment it comes with, for a pending top-up of a whole positive number of
  -- rubles, of a user who is neither deleted nor banned nor held nor blocked, whom no one referred,
  -- and whose order conflicts with no row of the ledger, settles the order: it is paid, and the
  -- ledger gains exactly the credit of the order's amount, while the users stay.
  pub mark_order_paid-topup :
      (received : Decimal)
      → ltb_ℤ received (Order.amount_rub o) ≡ false
      → pos 0 <ℤ Order.amount_rub o
      → is_whole (Order.amount_rub o) ≡ true
      → first_where
          (conflicts_with
            (order_credit_values (Order.user_id o) (abs_ℤ (Order.amount_rub o)) (Order.id o)))
          (Db.entries db)
        ≡ none
      → order_by_id (Order.id o) db ≡ some (pending_topup o)
      → user_by_id (Order.user_id o) db ≡ some u
      → hold_reason (pending_topup o) (some u) ≡ none
      → first_where (λ x. User.id x == Order.user_id o && not (User.is_deleted x)) (Db.users db)
        ≡ some purchaser
      → User.referred_by purchaser ≡ none
      → let (answer, after) = mark_order_paid wi (Order.id o) external_id (some received) db in
        (p : Order) × (answer ≡ ok (some p))
        × (Order.status p ≡ OrderStatus.paid)
        × (Order.newly_paid p ≡ true)
        × (Db.entries after
            ≡ Db.entries db
              ++ new_entry
                  (order_credit_values (Order.user_id o) (abs_ℤ (Order.amount_rub o)) (Order.id o))
                  db
                ∷ [])
        × (Db.users after ≡ Db.users db)
  unfolding mark_notify_pending
  mark_order_paid-topup received k p w f e g r q n =
      let run = mark_order_paid-settled received k p w f e g r q n in
      (noted, rw run refl, refl, refl, rw run refl, rw run refl)

  -- A top-up is settled once: after money in full has settled it, under the same conditions and with
  -- no earlier settlement held, any second notice of a payment, with whatever id and amount, gets the
  -- paid order back as not newly paid, and changes neither the ledger nor a user.
  pub mark_order_paid-topup_twice :
      (received : Decimal) (again : Option String) (amount : Option Decimal)
      → OrderMetadata.settlement_held (Order.metadata o) ≡ false
      → ltb_ℤ received (Order.amount_rub o) ≡ false
      → pos 0 <ℤ Order.amount_rub o
      → is_whole (Order.amount_rub o) ≡ true
      → first_where
          (conflicts_with
            (order_credit_values (Order.user_id o) (abs_ℤ (Order.amount_rub o)) (Order.id o)))
          (Db.entries db)
        ≡ none
      → order_by_id (Order.id o) db ≡ some (pending_topup o)
      → user_by_id (Order.user_id o) db ≡ some u
      → hold_reason (pending_topup o) (some u) ≡ none
      → first_where (λ x. User.id x == Order.user_id o && not (User.is_deleted x)) (Db.users db)
        ≡ some purchaser
      → User.referred_by purchaser ≡ none
      → let first = (mark_order_paid wi (Order.id o) external_id (some received) db).1 in
        let (answer, after) = mark_order_paid wi (Order.id o) again amount first in
        (p : Order) × (answer ≡ ok (some p))
        × (Order.status p ≡ OrderStatus.paid)
        × (Order.newly_paid p ≡ false)
        × (Db.entries after ≡ Db.entries first)
        × (Db.allocations after ≡ Db.allocations first)
        × (Db.users after ≡ Db.users first)
  unfolding mark_notify_pending
  mark_order_paid-topup_twice received again amount held k p w f e g r q n =
      let run = mark_order_paid-settled received k p w f e g r q n in
      let there : order_by_id (Order.id o) settled ≡ some noted =
        order_by_id-put_order noted noted (credited (put_order paid_order db)) (
          order_by_id-put_order noted paid_order (put_order paid_order db)
            (order_by_id-put_order paid_order (pending_topup o) db e)) in
      let second =
        mark_order_paid-again wi settled (Order.id o) noted again amount there refl held in
      (
        record noted { newly_paid = false },
        rw (run, second) refl,
        refl,
        refl,
        rw (run, second) refl,
        rw (run, second) refl,
        rw (run, second) refl,
      )
