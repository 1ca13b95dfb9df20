-- ===== src/Examples/Data.antt =====
-- A small shop: one user with two lots of money, one order, two tariffs and a referrer.
use just1kbot.Prelude.{ℕ, ◌*◌, ◌/◌, ◌==◌, pos, true, false, none, some, [], ◌∷◌}
use just1kbot.Database.{
  payment_credit, admin_adjustment, order_credit, referral_bonus, standard, gateway, topup,
  OrderStatus, Notices, User, Tariff, EntryMetadata, AccountLedgerEntry, OrderMetadata, Order, Db,
  Session, pure, ServiceType,
}
use just1kbot.Dates.{day}
use just1kbot.Fulfillment.Operations.{WhiteInternetService}
use just1kbot.Orders.Checkout.{Request}
use just1kbot.Orders.Pricing.{FloatOps}
use just1kbot.Orders.Webhook.{WebhookResult, Runtime}

abbrev pub no_notices : Notices
no_notices = record {
  notified_3d = false;
  notified_1d = false;
  notified_2h = false;
  notified_expired = false;
  notified_grace_12h = false;
  notification_retry_count = 0;
  last_notification_attempt = none;
}

abbrev pub customer : User
customer = record {
  id = 1;
  telegram_id = 1001;
  referred_by = some 1002;
  subscription_end = some (130 * day);
  device_limit = 3;
  current_tariff_id = some 4;
  is_banned = false;
  is_deleted = false;
  financial_hold = false;
  topup_blocked = false;
  last_trial_reset_at = none;
  notices = no_notices;
  usage = record {
    total_wi_traffic_bytes = 5000;
    monthly_wi_bytes = 700;
    monthly_vless_bytes = 30;
    traffic_cycle = some 24318;
  };
}

abbrev pub referrer : User
referrer = record customer { id = 2; telegram_id = 1002; referred_by = some 1003 }

abbrev pub monthly : Tariff
monthly = record {
  id = 4;
  service_type = standard;
  duration_days = 30;
  device_limit = 3;
  price_rub = 150;
  is_active = true;
}

abbrev pub yearly : Tariff
yearly = record {
  id = 5;
  service_type = standard;
  duration_days = 365;
  device_limit = 5;
  price_rub = 1200;
  is_active = true;
}

abbrev pub plain : EntryMetadata
plain = record { is_referral_bonus = false; topup_order_id = none; original_credit_id = none }

-- 300 rubles of a top-up, and a bonus of 50 rubles.
abbrev pub topup_credit : AccountLedgerEntry
topup_credit = record {
  id = 1;
  user_id = 1;
  entry_type = payment_credit;
  amount = pos 30000;
  payment_id = none;
  quote_id = none;
  order_id = some 70;
  reversal_of_id = none;
  idempotency_key = order_credit 70;
  metadata = plain;
  created_at = 1;
}

abbrev pub bonus_credit : AccountLedgerEntry
bonus_credit = record {
  id = 2;
  user_id = 1;
  entry_type = admin_adjustment;
  amount = pos 5000;
  payment_id = none;
  quote_id = none;
  order_id = none;
  reversal_of_id = none;
  idempotency_key = referral_bonus 60 1;
  metadata = record {
    is_referral_bonus = true;
    topup_order_id = some 60;
    original_credit_id = none;
  };
  created_at = 2;
}

abbrev pub empty_metadata : OrderMetadata
empty_metadata = record {
  terms = record {
    is_tariff_change = false;
    is_renewal = false;
    operation = none;
    is_referral_discount = false;
    discount_rub = none;
    original_price_rub = none;
    is_trial = false;
  };
  review = record {
    requires_manual_review = false;
    underpaid = none;
    refund_amount_mismatch = none;
    refund_external_id = none;
    late_payment_attempt_rejected = none;
  };
  previous = record {
    subscription_end = none;
    tariff_id = none;
    device_limit = none;
    subscription_id = none;
  };
  payment_creation_ambiguous = false;
  late_notify_pending = false;
  late_notify_attempts = none;
  referrer_notify_pending = none;
  cancellation_reason = none;
  settlement_held = false;
  settlement_hold_reason = none;
  revived_from_canceled = false;
}

-- A top-up of 300 rubles through a gateway, as `status` says.
abbrev pub topup_order : OrderStatus → Order
topup_order status = record {
  id = 70;
  user_id = 1;
  service_type = topup;
  tariff_id = none;
  amount_rub = pos 30000;
  duration_days = 0;
  traffic_bytes = 0;
  device_limit = none;
  payment_method = gateway "yookassa";
  external_id = some "pay-1";
  payment_url = some "https://pay/1";
  status = status;
  metadata = empty_metadata;
  created_at = 100 * day;
  paid_at = none;
  refunded_at = none;
  newly_paid = false;
}

abbrev pub shop_with : Order → User → Db
shop_with o u = record {
  entries = topup_credit ∷ bonus_credit ∷ [];
  allocations = [];
  users = u ∷ referrer ∷ [];
  tariffs = monthly ∷ yearly ∷ [];
  orders = o ∷ [];
  payments = [];
  subscriptions = [];
  orphan_cleanups = [];
  servers = [];
  vless_subscriptions = [];
  post_commit_tasks = [];
  deprovisions = [];
  vless_deprovisions = [];
  next_entry_id = 3;
  next_subscription_id = 1;
  next_tariff_id = 6;
  next_user_id = 3;
  now = 100 * day;
}

abbrev pub shop : Db
shop = shop_with (topup_order OrderStatus.pending) customer

abbrev pub session : Session
session = record { committed = shop; current = shop }

-- A White Internet service that does nothing.
abbrev pub idle_service : WhiteInternetService
idle_service = record {
  purchase_device_slot = λ user_id. pure true;
  topup_quota = λ user_id bytes. pure true;
  renew_subscription = λ user_id. pure (true, none);
  purchase_subscription = λ user_id. pure (true, none);
  deactivate_user_subscriptions = λ user_id except. pure tt;
}

-- Whole numbers in place of floating point ones.
abbrev pub whole_floats : FloatOps
whole_floats = record {
  Float = ℕ;
  of_int = λ n. n;
  div = λ a b. a / b;
  mul = λ a b. a * b;
  round = λ a. a;
  ceil = λ a. a;
  is_close = λ a b. a == b;
}

abbrev pub runtime : Runtime
runtime = record { strip = λ s. s; uuid = λ s. some 70; refund_name = λ n. "refund" }

abbrev pub news : WebhookResult
news = record {
  order_id = "70";
  is_paid = false;
  is_refunded = false;
  is_canceled = false;
  external_id = "pay-1";
  amount_rub = some (pos 30000);
  related_external_id = "";
}

abbrev pub request : Request
request = record {
  id = 71;
  user_id = 1;
  service_type = ServiceType.topup;
  tariff_id = none;
  amount_rub = some (pos 50000);
  duration_days = none;
  traffic_bytes = 0;
  device_limit = none;
  metadata = empty_metadata;
}
