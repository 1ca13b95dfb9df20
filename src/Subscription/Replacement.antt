-- ===== src/Subscription/Replacement.antt =====
-- `replace_subscription`: a conversion of what was paid into another tariff's coverage.
use just1kbot.Prelude.{ℕ, ltb, leb, some}
use just1kbot.Database.{
  Instant, User, Db, Action, Error, pure, ◌>>=◌, ◌>>◌, gets, modify, raise_if, put_user,
}
use just1kbot.Subscription.Access.{sync_access_state}
use just1kbot.Subscription.Extension.{fresh_notices, get_active_hwid_count}

unfoldable pub replaced : Instant → ℕ → ℕ → User → User
replaced subscription_end device_limit tariff_id user = record user {
  subscription_end = some subscription_end;
  device_limit = device_limit;
  current_tariff_id = some tariff_id;
  notices = fresh_notices;
}

-- A `datetime` here is aware of its zone. `ttl_hours` is the setting `VLESS_HWID_TTL_HOURS`.
unfoldable pub replace_subscription : ℕ → User → Instant → ℕ → ℕ → Action User
replace_subscription ttl_hours user subscription_end device_limit tariff_id = do
  now ← gets Db.now
  raise_if (leb subscription_end now) Error.value_error
  devices ← gets (get_active_hwid_count ttl_hours user.id)
  raise_if (ltb device_limit devices) Error.value_error
  modify (put_user (replaced subscription_end device_limit tariff_id user))
  sync_access_state (replaced subscription_end device_limit tariff_id user)
  pure (replaced subscription_end device_limit tariff_id user)
