-- ===== src/WhiteInternet/Settings.antt =====
-- The constants of config/constants.py, which are read from the environment, and the answers of the
-- service.
use just1kbot.Prelude.{ℕ, ◌-◌, ◌*◌, zero, suc, ltb, ◌==◌, pos, ◌+ℤ◌, Bool, Option, if◌then◌else◌}
use just1kbot.Database.{Decimal}

-- The prefix `WHITE_INTERNET_` of the names is left out, and `base_price_rub` is `int` of the
-- constant, its only use here. `is_admin` is utils/admin.py.
pub record Settings : Type 0 where
  pub base_price_rub : ℕ
  pub base_duration_days : ℕ
  pub base_traffic_bytes : ℕ
  pub trial_duration_days : ℕ
  pub trial_traffic_bytes : ℕ
  pub extra_device_price_rub : Decimal
  pub extra_device_traffic_bytes : ℕ
  pub max_device_limit : ℕ
  pub max_expiry_days : ℕ
  pub max_quota_bytes : ℕ
  pub topup_packs : ℕ → Option Decimal
  pub is_admin : ℕ → Bool

-- The texts of bot/texts that tell an answer from another.
pub data Message : Type 0 where
  user_not_found sub_not_found sub_disabled sub_not_ready sub_expired : Message
  deactivation_pending already_active no_servers_available renewal_horizon_exceeded : Message
  admin_only access_denied trial_cannot_add_device trial_cannot_topup trial_already_used : Message
  device_limit_max_reached cap_exceeded invalid_topup_pack trial_extend_forbidden : Message
  payment_dispute_blocked topup_blocked insufficient_balance reset_cooldown : Message
  buy_success renew_success add_device_success topup_success trial_activated extended : Message
  reset_success failure : Message

-- `max(1, device_limit)`
abbrev pub at_least_one : ℕ → ℕ
at_least_one n = if n == 0 then 1 else n

-- `Decimal(n) * price`
unfoldable pub times : ℕ → Decimal → Decimal
times zero price = pos 0
times (suc n) price = price +ℤ times n price

unfoldable pub get_white_internet_tier_price : Settings → ℕ → ℕ → Decimal
get_white_internet_tier_price st device_limit base_price =
    let limit : ℕ =
      at_least_one
        (if ltb st.max_device_limit device_limit then st.max_device_limit else device_limit) in
    pos (base_price * 100) +ℤ times (limit - 1) st.extra_device_price_rub
