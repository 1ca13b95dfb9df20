-- ===== src/WhiteInternet/Repository.antt =====
-- database/repositories/white_internet_repo.py: the changes of one row, each under its lock.
use just1kbot.Prelude.{
  ℕ, suc, ◌+◌, ◌-◌, ◌*◌, ltb, leb, ◌==◌, Bool, true, false, ◌&&◌, ◌||◌, Option, none, some, [], ◌∷◌,
  ◌++◌, String, str_eq, first_where, update_where, if◌then◌else◌,
}
use just1kbot.Database.{
  WhiteInternetStatus, ProvisioningStatus, Instant, Reminders, TrafficCounters,
  WhiteInternetSubscription, WhiteInternetOrphanCleanup, Db, Action, Error, pure, ◌>>=◌, ◌>>◌, gets,
  modify, raise_if, or_raise, is_dormant, status_eq,
}
use just1kbot.Dates.{day, calculate_extension_end}
use just1kbot.Fulfillment.Operations.{put_white_internet}
use just1kbot.WhiteInternet.Settings.{Settings, at_least_one}

abbrev pub quota : WhiteInternetSubscription → ℕ
quota sub =
    WhiteInternetSubscription.base_traffic_bytes sub
    + WhiteInternetSubscription.extra_traffic_bytes sub

-- `max(0, traffic_used_bytes - traffic_overage_bytes)`
abbrev pub metered : TrafficCounters → ℕ
metered t = TrafficCounters.used t - TrafficCounters.overage t

-- `max(0, total_quota - used)`
abbrev pub available : WhiteInternetSubscription → ℕ
available sub = quota sub - metered (WhiteInternetSubscription.traffic sub)

abbrev pub effective_device_limit : WhiteInternetSubscription → ℕ
effective_device_limit sub = at_least_one (WhiteInternetSubscription.device_limit sub)

abbrev pub subscription_by_id : ℕ → Db → Option WhiteInternetSubscription
subscription_by_id id db =
    first_where (λ s. WhiteInternetSubscription.id s == id) (Db.subscriptions db)

-- `get_subscription_with_lock`, and the error that its absence is.
abbrev pub locked : ℕ → Action WhiteInternetSubscription
locked id = do sub ← gets (subscription_by_id id); or_raise sub Error.subscription_not_found

-- The row of an object that another call has changed.
abbrev pub subscription_or : WhiteInternetSubscription → Db → WhiteInternetSubscription
subscription_or sub db = elim (subscription_by_id (WhiteInternetSubscription.id sub) db) [
  | some s ↦ s
  | none ↦ sub
]

abbrev pub write : WhiteInternetSubscription → Action WhiteInternetSubscription
write sub = do modify (put_white_internet sub); pure sub

-- The counters of a new period; the snapshots stay.
abbrev pub fresh_counters : TrafficCounters → TrafficCounters
fresh_counters t = record t { used = 0; uplink = 0; downlink = 0; overage = 0 }

abbrev pub no_reminders : Bool → Reminders → Reminders
no_reminders is_90p r = record r {
  notified_3d = false;
  notified_1d = false;
  notified_2h = false;
  notified_expired = false;
  notified_90p = is_90p;
}

-- `expires_at if expires_at > now else now`
abbrev pub base_time : Instant → Instant → Instant
base_time expires_at now = if ltb now expires_at then expires_at else now

abbrev pub min_ℕ : ℕ → ℕ → ℕ
min_ℕ a b = if ltb b a then b else a

-- What is left of the packs that were bought, if the renewal comes within a week of the end.
unfoldable pub rolled_over : Settings → Instant → WhiteInternetSubscription → ℕ
rolled_over st now sub =
    if sub.is_trial || ltb (sub.expires_at + 7 * day) now
    then 0
    else min_ℕ (min_ℕ sub.extra_traffic_bytes (available sub))
        (effective_device_limit sub * st.max_quota_bytes)

unfoldable pub renewed :
    Settings → ℕ → ℕ → Instant → WhiteInternetSubscription → WhiteInternetSubscription
renewed st duration_days base_bytes now sub = record sub {
  is_trial = false;
  base_traffic_bytes = base_bytes;
  extra_traffic_bytes = rolled_over st now sub;
  expires_at = base_time sub.expires_at now + duration_days * day;
  status = WhiteInternetStatus.active;
  desired_version = sub.desired_version + 1;
  provisioning_status = ProvisioningStatus.pending_update;
  reminders = no_reminders false sub.reminders;
  traffic = fresh_counters sub.traffic;
}

-- The renewal would reach beyond the furthest end that is allowed.
abbrev pub exceeds_horizon : Settings → ℕ → Instant → WhiteInternetSubscription → Bool
exceeds_horizon st duration_days now sub =
    ltb (now + Settings.max_expiry_days st * day)
      (base_time (WhiteInternetSubscription.expires_at sub) now + duration_days * day)

unfoldable pub renew_subscription_atomic : Settings → ℕ → ℕ → ℕ → Action WhiteInternetSubscription
renew_subscription_atomic st subscription_id duration_days base_bytes = do
  sub ← locked subscription_id
  raise_if (is_dormant sub.status) Error.inactive_subscription
  now ← gets Db.now
  raise_if (exceeds_horizon st duration_days now sub) Error.renewal_horizon_exceeded
  write (renewed st duration_days base_bytes now sub)

-- A subscription that was exhausted becomes active again, and its node is told.
abbrev pub revived : WhiteInternetSubscription → WhiteInternetSubscription
revived sub =
    if status_eq (WhiteInternetSubscription.status sub) WhiteInternetStatus.exhausted
    then record sub {
      status = WhiteInternetStatus.active;
      desired_version = WhiteInternetSubscription.desired_version sub + 1;
      provisioning_status = ProvisioningStatus.pending_update;
    }
    else sub

-- `status == EXPIRED or expires_at <= now`
abbrev pub has_expired : Instant → WhiteInternetSubscription → Bool
has_expired now sub =
    status_eq (WhiteInternetSubscription.status sub) WhiteInternetStatus.expired
    || leb (WhiteInternetSubscription.expires_at sub) now

-- More packs than the devices may hold.
abbrev pub exceeds_cap : Settings → ℕ → ℕ → WhiteInternetSubscription → Bool
exceeds_cap st devices bytes sub =
    ltb (devices * Settings.max_quota_bytes st)
      (WhiteInternetSubscription.extra_traffic_bytes sub + bytes)

unfoldable pub with_slot : ℕ → WhiteInternetSubscription → WhiteInternetSubscription
with_slot extra_bytes sub = revived (record sub {
  device_limit = effective_device_limit sub + 1;
  extra_traffic_bytes = sub.extra_traffic_bytes + extra_bytes;
})

unfoldable pub add_device_slot_atomic : Settings → ℕ → ℕ → Action WhiteInternetSubscription
add_device_slot_atomic st subscription_id extra_bytes = do
  sub ← locked subscription_id
  raise_if sub.is_trial Error.trial_subscription
  raise_if (is_dormant sub.status) Error.inactive_subscription
  now ← gets Db.now
  raise_if (has_expired now sub) Error.inactive_subscription
  raise_if (leb st.max_device_limit (effective_device_limit sub)) Error.device_limit_exceeded
  raise_if (exceeds_cap st (effective_device_limit sub + 1) extra_bytes sub)
      Error.quota_cap_exceeded
  write (with_slot extra_bytes sub)

-- `used < 0.90 * total_quota` takes back the reminder that 90% are used. The product of 0.90 and the
-- quota is a floating point number; the test here is the exact one.
abbrev is_below_90p : WhiteInternetSubscription → Bool
is_below_90p sub =
    ltb 0 (quota sub) && ltb (metered (WhiteInternetSubscription.traffic sub) * 10) (quota sub * 9)

abbrev pub without_90p : WhiteInternetSubscription → WhiteInternetSubscription
without_90p sub =
    if is_below_90p sub
    then record sub {
      reminders = record (WhiteInternetSubscription.reminders sub) { notified_90p = false };
    }
    else sub

unfoldable pub with_pack : ℕ → WhiteInternetSubscription → WhiteInternetSubscription
with_pack bytes sub =
    without_90p (revived (record sub { extra_traffic_bytes = sub.extra_traffic_bytes + bytes }))

-- 1024 * 1024 * 1024
abbrev pub gigabyte : ℕ
gigabyte = 1073741824

unfoldable pub topup_quota_atomic : Settings → ℕ → ℕ → Action ℕ
topup_quota_atomic st subscription_id pack_gb = do
  sub ← locked subscription_id
  raise_if sub.is_trial Error.trial_subscription
  raise_if (is_dormant sub.status) Error.inactive_subscription
  now ← gets Db.now
  raise_if (has_expired now sub) Error.inactive_subscription
  raise_if (exceeds_cap st (effective_device_limit sub) (pack_gb * gigabyte) sub)
      Error.quota_cap_exceeded
  modify (put_white_internet (with_pack (pack_gb * gigabyte) sub))
  pure (pack_gb * gigabyte)

unfoldable pub expired : WhiteInternetSubscription → WhiteInternetSubscription
expired sub = elim sub.status [
  | WhiteInternetStatus.expired ↦ sub
  | WhiteInternetStatus.disabled ↦ sub
  | _ ↦ record sub {
    status = WhiteInternetStatus.expired;
    desired_version = sub.desired_version + 1;
    provisioning_status = ProvisioningStatus.pending_delete;
  }
]

unfoldable pub expire_subscription_atomic : ℕ → Action WhiteInternetSubscription
expire_subscription_atomic subscription_id = do sub ← locked subscription_id; write (expired sub)

abbrev starts_new_cycle : Instant → WhiteInternetSubscription → Bool
starts_new_cycle now sub =
    leb (WhiteInternetSubscription.expires_at sub) now
    || (elim (WhiteInternetSubscription.status sub) [
      | WhiteInternetStatus.expired ↦ true
      | WhiteInternetStatus.exhausted ↦ true
      | WhiteInternetStatus.pending ↦ true
      | _ ↦ false
    ])

abbrev new_cycle : WhiteInternetSubscription → WhiteInternetSubscription
new_cycle sub = record sub {
  traffic = fresh_counters (WhiteInternetSubscription.traffic sub);
  extra_traffic_bytes = 0;
  status = WhiteInternetStatus.active;
  provisioning_status = ProvisioningStatus.pending_update;
  reminders = no_reminders false (WhiteInternetSubscription.reminders sub);
}

unfoldable pub extended : ℕ → Instant → WhiteInternetSubscription → WhiteInternetSubscription
extended days now sub =
    let longer : WhiteInternetSubscription = record sub {
      expires_at = calculate_extension_end (some sub.expires_at) days now;
      desired_version = sub.desired_version + 1;
      reminders = no_reminders sub.reminders.notified_90p sub.reminders;
    } in
    if starts_new_cycle now sub then new_cycle longer else longer

unfoldable pub extend_subscription_atomic : ℕ → ℕ → Action WhiteInternetSubscription
extend_subscription_atomic subscription_id days = do
  raise_if (ltb days 1) Error.value_error
  sub ← locked subscription_id
  raise_if (status_eq sub.status WhiteInternetStatus.disabled) Error.inactive_subscription
  raise_if sub.is_trial Error.trial_subscription
  now ← gets Db.now
  write (extended days now sub)

unfoldable pub cancel_pending_orphan_cleanups_for_client : ℕ → String → Action (Unit {0})
cancel_pending_orphan_cleanups_for_client server_id client_uuid = modify (λ db. record db {
  orphan_cleanups =
      update_where
        (λ c.
          WhiteInternetOrphanCleanup.server_id c == server_id
          && (str_eq (WhiteInternetOrphanCleanup.client_uuid c) client_uuid
              && WhiteInternetOrphanCleanup.is_pending c))
        (λ c. record c { is_pending = false }) (Db.orphan_cleanups db);
})

unfoldable pub enqueue_orphan_cleanup : ℕ → String → ℕ → Action (Unit {0})
enqueue_orphan_cleanup server_id client_uuid desired_version = modify (λ db. record db {
  orphan_cleanups =
      Db.orphan_cleanups db
      ++ (record {
        server_id = server_id;
        client_uuid = client_uuid;
        desired_version = desired_version;
        is_pending = true;
      })
        ∷ [];
})

-- The row of a new subscription.
abbrev pub new_subscription :
    ℕ → ℕ → ℕ → String → ℕ → ℕ → Bool → Instant → WhiteInternetSubscription
new_subscription id user_id origin_node_id uuid duration_days base_bytes is_trial now = record {
  id = id;
  user_id = user_id;
  origin_node_id = some origin_node_id;
  uuid = uuid;
  status = WhiteInternetStatus.pending;
  expires_at = now + duration_days * day;
  base_traffic_bytes = base_bytes;
  extra_traffic_bytes = 0;
  traffic = record {
    used = 0;
    uplink = 0;
    downlink = 0;
    overage = 0;
    last_uplink_snapshot = 0;
    last_downlink_snapshot = 0;
    stats_epoch = none;
  };
  device_limit = 1;
  is_trial = is_trial;
  provisioning_status = ProvisioningStatus.pending_create;
  desired_version = 1;
  actual_version = 0;
  last_reconciled_node_epoch = none;
  pending_hard_delete = false;
  reminders = record {
    notified_3d = is_trial;
    notified_1d = false;
    notified_2h = false;
    notified_expired = false;
    notified_90p = false;
  };
}

unfoldable pub create_white_internet_subscription :
    ℕ → ℕ → String → ℕ → ℕ → Bool → Action WhiteInternetSubscription
create_white_internet_subscription user_id origin_node_id uuid duration_days base_bytes is_trial =
    do
      sub ← gets (λ db.
          new_subscription (Db.next_subscription_id db) user_id origin_node_id uuid duration_days
            base_bytes is_trial (Db.now db))
      modify (λ db. record db {
        subscriptions = Db.subscriptions db ++ sub ∷ [];
        next_subscription_id = suc (Db.next_subscription_id db);
      })
      cancel_pending_orphan_cleanups_for_client origin_node_id uuid
      pure sub
