-- ===== src/Subscription/Extension.antt =====
-- `extend_subscription`.
pub mod Laws
use just1kbot.Prelude.{
  ℕ, ◌+◌, ◌*◌, ltb, leb, ◌==◌, Bool, false, not, ◌&&◌, Option, none, some, List, [], first_where,
  count_where, if◌then◌else◌,
}
use just1kbot.Database.{
  Instant, User, Notices, Device, VlessSubscription, Db, Action, Error, pure, ◌>>=◌, ◌>>◌, gets,
  modify, raise_if, put_user,
}
use just1kbot.Dates.{day, hour, permanent_subscription_days, permanent_end_date}
use just1kbot.Subscription.Access.{sync_access_state}

-- The flags and the counter that every paid change of a subscription resets.
abbrev pub fresh_notices : Notices
fresh_notices = record {
  notified_3d = false;
  notified_1d = false;
  notified_2h = false;
  notified_expired = false;
  notified_grace_12h = false;
  notification_retry_count = 0;
  last_notification_attempt = none;
}

hwids_of : Option VlessSubscription → List Device
hwids_of none = []
hwids_of (some s) = s.active_hwids

-- `get_active_hwid_count`: the devices seen within the time to live. The cutoff is compared from
-- the other side: the instant is at or after `now - ttl`.
unfoldable pub get_active_hwid_count : ℕ → ℕ → Db → ℕ
unfolding hwids_of
get_active_hwid_count ttl_hours user_id db =
    count_where (λ d. leb db.now (Device.last_seen d + ttl_hours * hour))
      (hwids_of (first_where (λ s. VlessSubscription.user_id s == user_id) db.vless_subscriptions))

-- A lower limit than the devices in use is refused.
exceeds : Option ℕ → ℕ → Bool
exceeds none devices = false
exceeds (some limit) devices = ltb limit devices

unfoldable pub extended_end : Option Instant → ℕ → Instant → Option Instant
extended_end end days now =
    if days == 0
    then end
    else if leb permanent_subscription_days days
    then some permanent_end_date
    else some ((elim end [ none ↦ now | some e ↦ if ltb now e then e else now ]) + days * day)

abbrev pub or_else : {A : Type 0} → Option A → A → A
or_else none a = a
or_else (some b) a = b

abbrev pub or_keep : Option ℕ → Option ℕ → Option ℕ
or_keep none b = b
or_keep (some a) b = some a

extended : ℕ → Option ℕ → Option ℕ → Instant → User → User
extended days limit tariff_id now user = record user {
  subscription_end = extended_end user.subscription_end days now;
  notices = fresh_notices;
  device_limit = or_else limit user.device_limit;
  current_tariff_id = or_keep tariff_id user.current_tariff_id;
}

extend_user : ℕ → ℕ → Option ℕ → Option ℕ → Option User → Action (Option User)
unfolding exceeds extended
extend_user ttl_hours days limit tariff_id none = pure none
extend_user ttl_hours days limit tariff_id (some user) = do
  devices ← gets (get_active_hwid_count ttl_hours user.id)
  raise_if (exceeds limit devices) Error.value_error
  now ← gets Db.now
  let user' = extended days limit tariff_id now user
  modify (put_user user')
  sync_access_state user'
  pure (some user')

-- `ttl_hours` is the setting `VLESS_HWID_TTL_HOURS`; days are never negative here, so that the
-- first check has nothing to refuse.
unfoldable pub extend_subscription : ℕ → ℕ → ℕ → Option ℕ → Option ℕ → Action (Option User)
unfolding extend_user
extend_subscription ttl_hours telegram_id days limit tariff_id = do
  user ← gets (λ db.
      first_where (λ u. User.telegram_id u == telegram_id && not (User.is_deleted u)) (Db.users db))
  extend_user ttl_hours days limit tariff_id user
