-- ===== src/Referral/Activity.antt =====
-- Which paid orders and legacy payments activate a referral
-- (services/referral_bonus.py and database/repositories/users_repo.py).
use just1kbot.Prelude.{
  ℕ, ltb, ◌==◌, pos, leb_ℤ, ltb_ℤ, Bool, true, false, not, ◌&&◌, ◌||◌, Option, none, some,
  first_where, count_where, if◌then◌else◌,
}
use just1kbot.Database.{
  Decimal, User, Payment, Order, Db, is_paid, is_topup, is_wallet, user_by_id, max_int64,
}
use just1kbot.Ledger.Entries.{sql_eq}

-- 68 rubles.
abbrev pub referral_active_min_topup_rub : Decimal
referral_active_min_topup_rub = pos 6800

-- A real-money order: a top-up, or a purchase that the wallet did not pay.
abbrev pub is_real_money : Order → Bool
is_real_money o = is_topup (Order.service_type o) || not (is_wallet (Order.payment_method o))

abbrev pub is_qualifying_order : ℕ → Order → Bool
is_qualifying_order user_id o =
    Order.user_id o == user_id
    && (is_paid (Order.status o)
        && (leb_ℤ referral_active_min_topup_rub (Order.amount_rub o) && is_real_money o))

abbrev pub is_qualifying_payment : ℕ → Payment → Bool
is_qualifying_payment user_id p =
    Payment.user_id p == user_id
    && (Payment.is_provider_succeeded p
        && (Payment.is_fulfilled p
            && (Payment.is_credited p && leb_ℤ referral_active_min_topup_rub (Payment.amount p))))

abbrev is_some : {A : Type 0} → Option A → Bool
is_some none = false
is_some (some _) = true

-- `_referral_paid_activity_condition`
unfoldable pub has_paid_activity : Db → User → Bool
has_paid_activity db u =
    is_some (first_where (is_qualifying_order u.id) db.orders)
    || is_some (first_where (is_qualifying_payment u.id) db.payments)

unfoldable pub get_user_active_referrals_count : Db → ℕ → ℕ
get_user_active_referrals_count db telegram_id =
    if ltb telegram_id 1 || ltb max_int64 telegram_id
    then 0
    else count_where
        (λ u.
          sql_eq (User.referred_by u) (some telegram_id)
          && (not (User.is_deleted u) && has_paid_activity db u))
        db.users

-- `_has_other_qualifying_topup`: the same condition, the order at hand left out.
unfoldable pub has_other_qualifying_topup : Db → ℕ → ℕ → Bool
has_other_qualifying_topup db user_id exclude_order_id =
    is_some (
      first_where (λ o. is_qualifying_order user_id o && not (Order.id o == exclude_order_id))
        db.orders)
    || is_some (first_where (is_qualifying_payment user_id) db.payments)

-- Referred by another user: `referred_by` is set, and is not the user's own telegram id.
abbrev pub is_referred : User → Bool
is_referred u = elim (User.referred_by u) [ none ↦ false | some r ↦ not (r == User.telegram_id u) ]

unfoldable pub is_first_topup_eligible : Db → ℕ → Bool
is_first_topup_eligible db user_id =
    elim (first_where (λ u. User.id u == user_id && not (User.is_deleted u)) db.users) [
      | none ↦ false
      | some u ↦
          is_referred u
          && (count_where
                  (λ p.
                    Payment.user_id p == user_id
                    && (Payment.is_credited p
                        && (Payment.is_fulfilled p
                            && leb_ℤ referral_active_min_topup_rub (Payment.amount p))))
                  db.payments
                == 0
              && count_where (is_qualifying_order user_id) db.orders == 0)
    ]

-- `is_eligible_for_referral_first_discount`: referred, and nothing paid yet but top-ups.
unfoldable pub is_eligible_for_referral_first_discount : Db → ℕ → Bool
is_eligible_for_referral_first_discount db user_id = elim (user_by_id user_id db) [
  | none ↦ false
  | some u ↦
      is_referred u
      && (count_where
              (λ o.
                Order.user_id o == user_id
                && (is_paid (Order.status o)
                    && (ltb_ℤ (pos 0) (Order.amount_rub o)
                        && not (is_topup (Order.service_type o)))))
              db.orders
            == 0
          && count_where
              (λ p.
                Payment.user_id p == user_id
                && (Payment.is_credited p
                    && (Payment.is_fulfilled p && ltb_ℤ (pos 0) (Payment.amount p))))
              db.payments
            == 0)
]
