-- ===== src/WhiteInternet/Checkout.antt =====
-- `get_or_create_white_internet_tariff` and `_checkout_wallet_order` of
-- services/white_internet_service.py.
pub mod Frame
pub mod Refusal
use just1kbot.Prelude.{
  ℕ, suc, ◌==◌, pos, eqb_ℤ, Bool, true, false, ◌&&◌, Option, none, some, List, [], ◌∷◌, ◌++◌,
  first_where, update_where, if◌then◌else◌,
}
use just1kbot.Database.{
  ServiceType, wallet, OrderStatus, Decimal, Instant, User, Tariff, Operation, CancellationReason,
  Terms, OrderMetadata, Order, Db, Result, ok, err, Action, Error, and_then, pure, ◌>>=◌, ◌>>◌,
  gets, modify, service_eq, put_order,
}
use just1kbot.Ledger.Balance.{whole_rubles}
use just1kbot.Ledger.Operations.{create_order_debit}
use just1kbot.Orders.Checkout.{add_order}
use just1kbot.Orders.Settlement.{mark_order_canceled}
use just1kbot.WhiteInternet.Settings.{Settings, Message}

abbrev is_default_tariff : Settings → Tariff → Bool
is_default_tariff st t =
    service_eq (Tariff.service_type t) ServiceType.white_internet
    && (Tariff.duration_days t == Settings.base_duration_days st && Tariff.device_limit t == 1)

abbrev default_tariff : Settings → ℕ → Tariff
default_tariff st id = record {
  id = id;
  service_type = ServiceType.white_internet;
  duration_days = Settings.base_duration_days st;
  device_limit = 1;
  price_rub = Settings.base_price_rub st;
  is_active = true;
}

abbrev put_tariff : Tariff → Db → Db
put_tariff t db = record db {
  tariffs = update_where (λ x. Tariff.id x == Tariff.id t) (λ _. t) (Db.tariffs db);
}

reactivated : Tariff → Action Tariff
reactivated t = do
  modify (put_tariff (record t { is_active = true }))
  pure (record t { is_active = true })

unfoldable pub get_or_create_white_internet_tariff : Settings → Action Tariff
unfolding reactivated
get_or_create_white_internet_tariff st db =
    elim (first_where (is_default_tariff st) (Db.tariffs db)) [
      | some t ↦ reactivated t db
      | none ↦ (
        ok (default_tariff st (Db.next_tariff_id db)),
        record db {
          tariffs = Db.tariffs db ++ default_tariff st (Db.next_tariff_id db) ∷ [];
          next_tariff_id = suc (Db.next_tariff_id db);
        },
      )
    ]

-- What is bought from the wallet. `id` is the order's `uuid4`.
pub record Purchase : Type 0 where
  pub id : ℕ
  pub tariff_id : Option ℕ
  pub amount_due : Decimal
  pub duration_days : ℕ
  pub traffic_bytes : ℕ
  pub device_limit : ℕ
  pub operation : Operation
  pub is_trial : Bool

abbrev terms_of : Purchase → Terms
terms_of p = record {
  is_tariff_change = false;
  is_renewal = false;
  operation = some (Purchase.operation p);
  is_referral_discount = false;
  discount_rub = none;
  original_price_rub = none;
  is_trial = Purchase.is_trial p;
}

-- No other key is set.
abbrev metadata_of : Terms → OrderMetadata
metadata_of terms = record {
  terms = terms;
  review = record {
    requires_manual_review = false;
    underpaid = none;
    refund_amount_mismatch = none;
    refund_external_id = none;
    late_payment_attempt_rejected = none;
  };
  previous = record {
    subscription_end = none;
    tariff_id = none;
    device_limit = none;
    subscription_id = none;
  };
  payment_creation_ambiguous = false;
  late_notify_pending = false;
  late_notify_attempts = none;
  referrer_notify_pending = none;
  cancellation_reason = none;
  settlement_held = false;
  settlement_hold_reason = none;
  revived_from_canceled = false;
}

abbrev pub wallet_order : User → Purchase → Instant → Order
wallet_order user p now = record {
  id = Purchase.id p;
  user_id = User.id user;
  service_type = ServiceType.white_internet;
  tariff_id = Purchase.tariff_id p;
  amount_rub = Purchase.amount_due p;
  duration_days = Purchase.duration_days p;
  traffic_bytes = Purchase.traffic_bytes p;
  device_limit = some (Purchase.device_limit p);
  payment_method = wallet;
  external_id = none;
  payment_url = none;
  status = OrderStatus.pending;
  metadata = metadata_of (terms_of p);
  created_at = now;
  paid_at = none;
  refunded_at = none;
  newly_paid = false;
}

abbrev pub paid_order : Order → Instant → Order
paid_order o now = record o { status = OrderStatus.paid; paid_at = some now }

unfoldable pub mark_paid : Order → Action (Option Message)
mark_paid o = do now ← gets Db.now; modify (put_order (paid_order o now)); pure none

-- `except InsufficientAccountBalanceError`; any other error passes.
unfoldable pub after_debit : {A : Type 0} → Order → Result A × Db → Result (Option Message) × Db
unfolding mark_paid
after_debit o (ok _, db) = mark_paid o db
after_debit o (err Error.insufficient_account_balance, db) =
    (do
      modify (put_order (mark_order_canceled (CancellationReason.other "insufficient_balance") o))
      pure (some Message.insufficient_balance))
      db
after_debit o (err e, db) = (err e, db)

unfoldable pub pay : User → Order → Action (Option Message)
unfolding mark_paid after_debit
pay user o db =
    if eqb_ℤ (Order.amount_rub o) (pos 0)
    then mark_paid o db
    else after_debit o (create_order_debit (User.id user) (Order.amount_rub o) (Order.id o) none db)

unfoldable pub place : User → Purchase → Action (Option Message)
unfolding pay
place user p = do
  amount ← whole_rubles p.amount_due true
  now ← gets Db.now
  add_order (wallet_order user p now)
  pay user (wallet_order user p now)

-- A message is the failure that the caller hands on.
unfoldable pub checkout_wallet_order : User → Purchase → Action (Option Message)
unfolding place
checkout_wallet_order user p db =
    if user.financial_hold
    then (ok (some Message.payment_dispute_blocked), db)
    else if user.topup_blocked
    then (ok (some Message.topup_blocked), db)
    else place user p db

-- `if debit_balance:`
unfoldable pub checkout_if : Bool → User → Purchase → Action (Option Message)
checkout_if true user p = checkout_wallet_order user p
checkout_if false user p = pure none
