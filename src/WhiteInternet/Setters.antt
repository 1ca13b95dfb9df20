-- ===== src/WhiteInternet/Setters.antt =====
-- database/repositories/white_internet_repo.py: what an administrator sets on a subscription's row.
use just1kbot.Prelude.{ℕ, ◌+◌, ◌*◌, ltb, ◌==◌, Bool, true, false, not, ◌||◌, if◌then◌else◌}
use just1kbot.Database.{
  WhiteInternetStatus, WhiteInternetSubscription, Action, Error, ◌>>=◌, ◌>>◌, modify, raise_if,
  is_live,
}
use just1kbot.Fulfillment.Operations.{put_white_internet}
use just1kbot.WhiteInternet.Settings.{Settings}
use just1kbot.WhiteInternet.Repository.{
  quota, metered, effective_device_limit, locked, write, fresh_counters, revived, exceeds_cap,
  without_90p, min_ℕ,
}

-- `status in (ACTIVE, EXHAUSTED)`
abbrev pub is_counting : WhiteInternetStatus → Bool
is_counting WhiteInternetStatus.active = true
is_counting WhiteInternetStatus.exhausted = true
is_counting _ = false

-- The snapshots and the epoch stay.
unfoldable pub with_counters_reset : WhiteInternetSubscription → WhiteInternetSubscription
with_counters_reset sub = revived (record sub {
  traffic = fresh_counters sub.traffic;
  reminders = record sub.reminders { notified_90p = false };
})

unfoldable pub reset_traffic_used_atomic : ℕ → Action WhiteInternetSubscription
reset_traffic_used_atomic subscription_id = do
  sub ← locked subscription_id
  raise_if sub.is_trial Error.trial_subscription
  raise_if (not (is_counting sub.status)) Error.inactive_subscription
  write (with_counters_reset sub)

-- An exhausted subscription comes back if the quota leaves anything.
abbrev revived_if_left : WhiteInternetSubscription → WhiteInternetSubscription
revived_if_left sub =
    if ltb (metered (WhiteInternetSubscription.traffic sub)) (quota sub) then revived sub else sub

abbrev plus_extra : ℕ → WhiteInternetSubscription → WhiteInternetSubscription
plus_extra bytes sub = record sub {
  extra_traffic_bytes = WhiteInternetSubscription.extra_traffic_bytes sub + bytes;
}

unfoldable pub with_extra : ℕ → WhiteInternetSubscription → WhiteInternetSubscription
with_extra bytes sub = without_90p (revived_if_left (plus_extra bytes sub))

-- The row is changed before the cap is looked at; whoever gets the error rolls back. Bytes below 0
-- are refused as 0 bytes are, here and below.
unfoldable pub add_extra_traffic_atomic : Settings → ℕ → ℕ → Action WhiteInternetSubscription
add_extra_traffic_atomic st subscription_id extra_bytes = do
  raise_if (extra_bytes == 0) Error.white_internet
  sub ← locked subscription_id
  raise_if sub.is_trial Error.trial_subscription
  raise_if (not (is_live sub.status)) Error.inactive_subscription
  modify (put_white_internet (plus_extra extra_bytes sub))
  raise_if (exceeds_cap st (effective_device_limit sub) extra_bytes sub) Error.quota_cap_exceeded
  write (with_extra extra_bytes sub)

unfoldable pub with_base : ℕ → WhiteInternetSubscription → WhiteInternetSubscription
with_base bytes sub = without_90p (revived_if_left (record sub { base_traffic_bytes = bytes }))

unfoldable pub set_base_traffic_quota_atomic : Settings → ℕ → ℕ → Action WhiteInternetSubscription
set_base_traffic_quota_atomic st subscription_id base_bytes = do
  raise_if (base_bytes == 0) Error.white_internet
  sub ← locked subscription_id
  raise_if sub.is_trial Error.trial_subscription
  raise_if (not (is_live sub.status)) Error.inactive_subscription
  raise_if (ltb (effective_device_limit sub * st.max_quota_bytes) base_bytes)
      Error.quota_cap_exceeded
  write (with_base base_bytes sub)

-- The devices that are in use are not part of the row here.
unfoldable pub with_device_limit :
    Settings → ℕ → WhiteInternetSubscription → WhiteInternetSubscription
with_device_limit st limit sub = record sub {
  device_limit = limit;
  extra_traffic_bytes = min_ℕ sub.extra_traffic_bytes (limit * st.max_quota_bytes);
}

unfoldable pub set_device_limit_atomic : Settings → ℕ → ℕ → Action WhiteInternetSubscription
set_device_limit_atomic st subscription_id limit = do
  raise_if (limit == 0 || ltb st.max_device_limit limit) Error.device_limit_exceeded
  sub ← locked subscription_id
  raise_if sub.is_trial Error.trial_subscription
  write (with_device_limit st limit sub)
