-- ===== src/Fulfillment/Standard.antt =====
-- `FulfillmentService.fulfill_order`.
use just1kbot.Prelude.{
  ℕ, ◌+◌, ◌*◌, ◌/◌, ltb, ◌==◌, Bool, true, false, not, ◌&&◌, ◌||◌, Option, none, some,
  if◌then◌else◌,
}
use just1kbot.Database.{
  ServiceType, WhiteInternetStatus, Instant, User, Operation, Terms, Previous, OrderMetadata, Order,
  WhiteInternetSubscription, Db, Action, Error, pure, ◌>>=◌, ◌>>◌, gets, modify, raise_if,
  user_by_id, put_user, put_order, truthy,
}
use just1kbot.Dates.{day}
use just1kbot.Subscription.Access.{sync_access_state}
use just1kbot.Subscription.Extension.{fresh_notices, or_keep}
use just1kbot.Fulfillment.Operations.{WhiteInternetService, white_internet_of}

abbrev pub some_if_truthy : Option ℕ → Option ℕ → Option ℕ
some_if_truthy o old = if truthy o then o else old

-- What the order must remember of the user for a later revocation. `user.device_limit` is never null.
unfoldable pub remember : User → Previous → Previous
remember user p = record p {
  subscription_end = or_keep user.subscription_end p.subscription_end;
  tariff_id = some_if_truthy user.current_tariff_id p.tariff_id;
  device_limit = some user.device_limit;
}

-- The days of a tariff change count from now; any other days are added to a current end.
unfoldable pub fulfilled_end : Bool → ℕ → Option Instant → Instant → Option Instant
fulfilled_end is_tariff_change duration_days end now =
    if is_tariff_change && ltb 0 duration_days
    then some (now + duration_days * day)
    else if ltb 0 duration_days
    then some
        ((elim end [ none ↦ now | some e ↦ if ltb e now then now else e ]) + duration_days * day)
    else end

abbrev or_user_limit : Option ℕ → ℕ → ℕ
or_user_limit none old = old
or_user_limit (some n) old = if ltb 0 n then n else old

unfoldable pub fulfilled_user : Order → Instant → User → User
fulfilled_user order now user = record user {
  subscription_end =
      fulfilled_end order.metadata.terms.is_tariff_change order.duration_days user.subscription_end
        now;
  device_limit = or_user_limit order.device_limit user.device_limit;
  current_tariff_id = some_if_truthy order.tariff_id user.current_tariff_id;
  notices = fresh_notices;
}

abbrev pub with_previous : Order → Previous → Order
with_previous order p = record order { metadata = record (Order.metadata order) { previous = p } }

unfoldable pub fulfill_standard : Order → User → Action (Unit {0})
fulfill_standard order user = do
  now ← gets Db.now
  modify (put_order (with_previous order (remember user order.metadata.previous)))
  modify (put_user (fulfilled_user order now user))
  sync_access_state (fulfilled_user order now user)

abbrev is_operation : Operation → Operation → Bool
is_operation Operation.add_device_slot Operation.add_device_slot = true
is_operation Operation.topup Operation.topup = true
is_operation _ _ = false

abbrev pub has_operation : Operation → Option Operation → Bool
has_operation op none = false
has_operation op (some o) = is_operation op o

-- `meta_op == "add_device_slot"`, or an order of devices alone.
abbrev pub is_device_slot : Order → Bool
is_device_slot order =
    has_operation Operation.add_device_slot
      (Terms.operation (OrderMetadata.terms (Order.metadata order)))
    || (truthy (Order.device_limit order)
        && (Order.traffic_bytes order == 0 && Order.duration_days order == 0))

-- `meta_op == "topup"`, or an order of traffic alone.
abbrev pub is_traffic_pack : Order → Bool
is_traffic_pack order =
    has_operation Operation.topup (Terms.operation (OrderMetadata.terms (Order.metadata order)))
    || (ltb 0 (Order.traffic_bytes order) && Order.duration_days order == 0)

-- 1024 ** 3
abbrev pub gigabyte : ℕ
gigabyte = 1073741824

abbrev at_least_one : ℕ → ℕ
at_least_one n = if n == 0 then 1 else n

-- `sub and sub.status in ("ACTIVE", "EXPIRED", "EXHAUSTED")`
abbrev is_renewable : Option WhiteInternetSubscription → Bool
is_renewable none = false
is_renewable (some s) = elim (WhiteInternetSubscription.status s) [
  | WhiteInternetStatus.active ↦ true
  | WhiteInternetStatus.expired ↦ true
  | WhiteInternetStatus.exhausted ↦ true
  | _ ↦ false
]

remember_subscription : Order → Option ℕ → Action (Unit {0})
remember_subscription order none = pure tt
remember_subscription order (some sub_id) = modify (
    put_order (
      with_previous order
        (record (OrderMetadata.previous (Order.metadata order)) { subscription_id = some sub_id })))

buy_or_renew : WhiteInternetService → Bool → ℕ → Action (Bool × Option ℕ)
buy_or_renew wi true user_id = wi.renew_subscription user_id
buy_or_renew wi false user_id = wi.purchase_subscription user_id

module _ (wi : WhiteInternetService) where
  unfoldable pub fulfill_slot : User → Action (Unit {0})
  fulfill_slot user = do
    done ← wi.purchase_device_slot user.id
    raise_if (not done) Error.runtime_error

  fulfill_pack : Order → User → Action (Unit {0})
  fulfill_pack order user = do
    done ← wi.topup_quota user.id (at_least_one (order.traffic_bytes / gigabyte))
    raise_if (not done) Error.runtime_error

  fulfill_subscription : Order → User → Action (Unit {0})
  unfolding buy_or_renew remember_subscription
  fulfill_subscription order user = do
    sub ← gets (white_internet_of user.id)
    (done, created) ← buy_or_renew wi (is_renewable sub) user.id
    raise_if (not done) Error.runtime_error
    remember_subscription order created

  unfoldable pub fulfill_white_internet : Order → User → Action (Unit {0})
  unfolding fulfill_slot fulfill_pack fulfill_subscription
  fulfill_white_internet order user =
      if is_device_slot order
      then fulfill_slot user
      else if is_traffic_pack order
      then fulfill_pack order user
      else fulfill_subscription order user

  -- By service; `invalidate_user_cache` is a cache of the process and is left out.
  unfoldable pub fulfill_for : ServiceType → Order → User → Action (Unit {0})
  fulfill_for ServiceType.standard order user = fulfill_standard order user
  fulfill_for ServiceType.awg order user = fulfill_standard order user
  fulfill_for ServiceType.white_internet order user = fulfill_white_internet order user
  fulfill_for ServiceType.topup order user = pure tt

  unfoldable pub fulfill_for_user : Order → Option User → Action (Unit {0})
  unfolding fulfill_for
  fulfill_for_user order none = pure tt
  fulfill_for_user order (some user) = fulfill_for order.service_type order user

  unfoldable pub fulfill_order : Order → Action (Unit {0})
  unfolding fulfill_for_user
  fulfill_order order = do user ← gets (user_by_id order.user_id); fulfill_for_user order user
