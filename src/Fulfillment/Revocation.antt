-- ===== src/Fulfillment/Revocation.antt =====
-- `FulfillmentService.revoke_order`.
use just1kbot.Prelude.{ℕ, ◌+◌, ◌-◌, ◌*◌, ltb, leb, ◌==◌, Option, none, some, if◌then◌else◌}
use just1kbot.Database.{
  ServiceType, Instant, User, Order, WhiteInternetSubscription, Db, Action, pure, ◌>>=◌, ◌>>◌, gets,
  modify, user_by_id, put_user,
}
use just1kbot.Dates.{day, hour, vpn_access_grace_hours}
use just1kbot.Subscription.Access.{sync_access_state}
use just1kbot.Fulfillment.Operations.{WhiteInternetService, white_internet_of, put_white_internet}
use just1kbot.Fulfillment.Standard.{is_device_slot, is_traffic_pack, some_if_truthy}

-- WHITE_INTERNET_DEFAULT_DEVICE_LIMIT
abbrev pub default_device_limit : ℕ
default_device_limit = 1

-- The default of WHITE_INTERNET_EXTRA_DEVICE_TRAFFIC_BYTES.
abbrev pub extra_device_traffic_bytes : ℕ
extra_device_traffic_bytes = 53687091200

-- An end that the revoked days bring to now or before goes behind the grace period.
unfoldable pub revoked_end : ℕ → Instant → Instant → Instant
revoked_end duration_days end now =
    if leb end (now + duration_days * day)
    then now - (vpn_access_grace_hours + 1) * hour
    else end - duration_days * day

-- `"previous_device_limit" in meta`, which is a number.
restored_limit : Option ℕ → ℕ → ℕ
restored_limit none old = old
restored_limit (some n) old = n

-- A tariff change goes back to what it replaced; other days are taken off a current end.
unfoldable pub revoked_user : Order → Instant → User → User
unfolding restored_limit
revoked_user order now user =
    elim (if order.metadata.terms.is_tariff_change
      then order.metadata.previous.subscription_end
      else none) [
        | some prev_end ↦ record user {
          subscription_end = some prev_end;
          current_tariff_id =
              some_if_truthy order.metadata.previous.tariff_id user.current_tariff_id;
          device_limit = restored_limit order.metadata.previous.device_limit user.device_limit;
        }
        | none ↦ elim (if ltb 0 order.duration_days then user.subscription_end else none) [
          | some end ↦ record user {
            subscription_end = some (revoked_end order.duration_days end now);
          }
          | none ↦ user
        ]
      ]

unfoldable pub revoke_standard : Order → User → Action (Unit {0})
revoke_standard order user = do
  now ← gets Db.now
  modify (put_user (revoked_user order now user))
  sync_access_state (revoked_user order now user)

unfoldable pub without_pack : ℕ → WhiteInternetSubscription → WhiteInternetSubscription
without_pack traffic_bytes sub = record sub {
  extra_traffic_bytes = sub.extra_traffic_bytes - traffic_bytes;
  desired_version = sub.desired_version + 1;
}

slots : ℕ → ℕ
slots n = if n == 0 then 1 else n

unfoldable pub without_slot : WhiteInternetSubscription → WhiteInternetSubscription
unfolding slots
without_slot sub = record sub {
  device_limit =
      if ltb (slots sub.device_limit - 1) default_device_limit
      then default_device_limit
      else slots sub.device_limit - 1;
  extra_traffic_bytes = sub.extra_traffic_bytes - extra_device_traffic_bytes;
  desired_version = sub.desired_version + 1;
}

change_white_internet :
    (WhiteInternetSubscription → WhiteInternetSubscription)
    → Option WhiteInternetSubscription
    → Action (Unit {0})
change_white_internet f none = pure tt
change_white_internet f (some sub) = modify (put_white_internet (f sub))

module _ (wi : WhiteInternetService) where
  unfoldable pub revoke_white_internet : Order → User → Action (Unit {0})
  unfolding change_white_internet
  revoke_white_internet order user db =
      (if is_traffic_pack order
          then change_white_internet (without_pack order.traffic_bytes)
              (white_internet_of user.id db)
          else if is_device_slot order
          then change_white_internet without_slot (white_internet_of user.id db)
          else wi.deactivate_user_subscriptions user.id order.metadata.previous.subscription_id)
        db

  revoke_for : ServiceType → Order → User → Action (Unit {0})
  revoke_for ServiceType.standard order user = revoke_standard order user
  revoke_for ServiceType.awg order user = revoke_standard order user
  revoke_for ServiceType.white_internet order user = revoke_white_internet order user
  revoke_for ServiceType.topup order user = pure tt

  revoke_for_user : Order → Option User → Action (Unit {0})
  unfolding revoke_for
  revoke_for_user order none = pure tt
  revoke_for_user order (some user) = revoke_for order.service_type order user

  unfoldable pub revoke_order : Order → Action (Unit {0})
  unfolding revoke_for_user
  revoke_order order = do user ← gets (user_by_id order.user_id); revoke_for_user order user
