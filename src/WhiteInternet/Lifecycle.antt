-- ===== src/WhiteInternet/Lifecycle.antt =====
-- `convert_trial_to_paid`, `renew_subscription`, `purchase_subscription` and
-- `create_trial_subscription`. Each commits before it calls a node; on the database that the
-- transaction sees, a commit changes nothing.
pub mod Renewal
use just1kbot.Prelude.{
  ℕ, ◌+◌, ◌*◌, ltb, ◌==◌, pos, Bool, true, false, not, ◌&&◌, ◌||◌, Option, none, some, List, [],
  ◌∷◌, String, if◌then◌else◌,
}
use just1kbot.Database.{
  ServiceType, Decimal, WhiteInternetStatus, ProvisioningStatus, Instant, User, Tariff, Operation,
  Server, Order, WhiteInternetSubscription, Db, Action, Error, pure, ◌>>=◌, ◌>>◌, gets, raise_if,
  is_pending_delete, is_live, is_paid, status_eq, service_eq,
}
use just1kbot.Dates.{day}
use just1kbot.Ledger.Balance.{lock_checkout_user}
use just1kbot.Fulfillment.Operations.{white_internet_of}
use just1kbot.WhiteInternet.Settings.{Settings, Message, get_white_internet_tier_price}
use just1kbot.WhiteInternet.Repository.{
  effective_device_limit, subscription_by_id, write, fresh_counters, no_reminders, base_time,
  exceeds_horizon, renew_subscription_atomic, create_white_internet_subscription,
}
use just1kbot.WhiteInternet.Nodes.{
  Destination, stays, moves, nowhere, origin_of, destination, allocate_origin_server_atomic,
  migrate, clean_up_old, SyncAnswer, try_inline_sync,
}
use just1kbot.WhiteInternet.Checkout.{
  Purchase, checkout_if, checkout_wallet_order, get_or_create_white_internet_tariff,
}
use just1kbot.WhiteInternet.Answers.{Answer, granted, refused, refuse_if, unless, or_refuse}
use just1kbot.WhiteInternet.Extras.{no_servers}

-- What a call draws or is answered: the order's `uuid4`, the client's `uuid4`, and what the node says
-- when the client is synced.
pub record Draws : Type 0 where
  pub order_id : ℕ
  pub uuid : String
  pub sync_answer : SyncAnswer

-- `pending_hard_delete or provisioning_status == PENDING_DELETE`
abbrev pub is_leaving : WhiteInternetSubscription → Bool
is_leaving sub =
    WhiteInternetSubscription.pending_hard_delete sub
    || is_pending_delete (WhiteInternetSubscription.provisioning_status sub)

-- The purchase of a month for all the devices.
abbrev pub month_purchase : Settings → ℕ → Operation → Tariff → WhiteInternetSubscription → Purchase
month_purchase st order_id operation tariff sub = record {
  id = order_id;
  tariff_id = some (Tariff.id tariff);
  amount_due =
      get_white_internet_tier_price st (effective_device_limit sub) (Tariff.price_rub tariff);
  duration_days = Tariff.duration_days tariff;
  traffic_bytes = 0;
  device_limit = effective_device_limit sub;
  operation = operation;
  is_trial = false;
}

unfoldable pub converted :
    Settings → ℕ → Instant → WhiteInternetSubscription → WhiteInternetSubscription
converted st duration_days now sub = record sub {
  is_trial = false;
  base_traffic_bytes = effective_device_limit sub * st.base_traffic_bytes;
  extra_traffic_bytes = 0;
  traffic = fresh_counters sub.traffic;
  expires_at = base_time sub.expires_at now + duration_days * day;
  status = WhiteInternetStatus.active;
  desired_version = sub.desired_version + 1;
  provisioning_status = ProvisioningStatus.pending_update;
  reminders = no_reminders false sub.reminders;
}

-- The node that is told: the new one, or else the old one.
sync_with : SyncAnswer → Destination → WhiteInternetSubscription → Action WhiteInternetSubscription
sync_with answer nowhere sub = pure sub
sync_with answer _ sub = try_inline_sync answer sub

convert_locked :
    Settings
    → Draws
    → Tariff
    → Destination
    → Option Server
    → WhiteInternetSubscription
    → Action (Answer WhiteInternetSubscription)
unfolding sync_with
convert_locked st draws tariff to old sub = do
  now ← gets Db.now
  after ← write (converted st (Tariff.duration_days tariff) now sub)
  clean_up_old to old (WhiteInternetSubscription.uuid after)
      (WhiteInternetSubscription.desired_version after)
  told ← sync_with draws.sync_answer to after
  granted Message.buy_success told

-- What follows a checkout that went through. The node that is left is never the new one, which is
-- a candidate, so that the test `old.id != origin_node_id` holds.
unfoldable pub give_conversion :
    Settings
    → Draws
    → Tariff
    → Destination
    → Option Server
    → WhiteInternetSubscription
    → Action (Answer WhiteInternetSubscription)
unfolding convert_locked
give_conversion st draws tariff to old sub = do
  moved ← migrate to sub
  row ← gets (subscription_by_id (WhiteInternetSubscription.id moved))
  or_refuse row Message.sub_not_found λ locked_sub. convert_locked st draws tariff to old locked_sub

unfoldable pub pay_for_month :
    Settings
    → ℕ
    → Operation
    → Bool
    → User
    → Tariff
    → WhiteInternetSubscription
    → Action (Answer WhiteInternetSubscription)
    → Action (Answer WhiteInternetSubscription)
pay_for_month st order_id operation debit_balance user tariff sub give = do
  failure ← checkout_if debit_balance user (month_purchase st order_id operation tariff sub)
  unless failure give

-- The order of the checks in `convert_trial_to_paid` before the node is chosen.
unfoldable pub conversion_refusal : WhiteInternetSubscription → Option Message
conversion_refusal sub =
    if not sub.is_trial
    then some Message.already_active
    else if status_eq sub.status WhiteInternetStatus.disabled
    then some Message.sub_disabled
    else if is_leaving sub
    then some Message.deactivation_pending
    else none

unfoldable pub convert_trial_to_paid :
    Settings → Draws → ℕ → Bool → Action (Answer WhiteInternetSubscription)
unfolding pay_for_month
convert_trial_to_paid st draws user_id debit_balance = do
  locked_user ← lock_checkout_user user_id
  or_refuse locked_user Message.user_not_found λ user. (do
    current ← gets (white_internet_of user_id)
    or_refuse current Message.sub_not_found λ sub. unless (conversion_refusal sub) (do
      to ← gets (destination sub)
      old ← gets (origin_of sub)
      unless (no_servers to) (do
        tariff ← get_or_create_white_internet_tariff st
        raise_if (st.base_traffic_bytes == 0) Error.value_error
        pay_for_month st draws.order_id Operation.purchase debit_balance user tariff sub
            (give_conversion st draws tariff to old sub))))

-- What follows a checkout that went through.
unfoldable pub give_renewal :
    Settings
    → Tariff
    → Destination
    → Option Server
    → WhiteInternetSubscription
    → Action (Answer WhiteInternetSubscription)
give_renewal st tariff to old sub = do
  moved ← migrate to sub
  updated ←
      renew_subscription_atomic st moved.id (Tariff.duration_days tariff)
        (effective_device_limit sub * st.base_traffic_bytes)
  clean_up_old to old (WhiteInternetSubscription.uuid updated)
      (WhiteInternetSubscription.desired_version updated + 1)
  granted Message.renew_success updated

-- The checks of `renew_subscription` on a subscription that is no trial.
unfoldable pub renewal_refusal : WhiteInternetSubscription → Option Message
renewal_refusal sub =
    if status_eq sub.status WhiteInternetStatus.disabled
    then some Message.sub_disabled
    else if status_eq sub.status WhiteInternetStatus.pending
    then some Message.sub_not_ready
    else if is_leaving sub
    then some Message.deactivation_pending
    else none

unfoldable pub renew_paid :
    Settings
    → ℕ
    → Bool
    → User
    → WhiteInternetSubscription
    → Action (Answer WhiteInternetSubscription)
unfolding pay_for_month
renew_paid st order_id debit_balance user sub = unless (renewal_refusal sub) (do
  to ← gets (destination sub)
  old ← gets (origin_of sub)
  tariff ← get_or_create_white_internet_tariff st
  raise_if (st.base_traffic_bytes == 0) Error.value_error
  unless (no_servers to) (do
    now ← gets Db.now
    refuse_if (exceeds_horizon st (Tariff.duration_days tariff) now sub)
        Message.renewal_horizon_exceeded
        (pay_for_month st order_id Operation.renew debit_balance user tariff sub
          (give_renewal st tariff to old sub))))

unfoldable pub renew_subscription :
    Settings → Draws → ℕ → Bool → Action (Answer WhiteInternetSubscription)
unfolding renew_paid
renew_subscription st draws user_id debit_balance = do
  locked_user ← lock_checkout_user user_id
  or_refuse locked_user Message.user_not_found λ user. (do
    current ← gets (white_internet_of user_id)
    or_refuse current Message.sub_not_found λ sub.
        if WhiteInternetSubscription.is_trial sub
        then convert_trial_to_paid st draws user_id debit_balance
        else renew_paid st draws.order_id debit_balance user sub)

abbrev first_month : ℕ → Tariff → Purchase
first_month order_id tariff = record {
  id = order_id;
  tariff_id = some (Tariff.id tariff);
  amount_due = pos (Tariff.price_rub tariff * 100);
  duration_days = Tariff.duration_days tariff;
  traffic_bytes = 0;
  device_limit = Tariff.device_limit tariff;
  operation = Operation.purchase;
  is_trial = false;
}

-- What follows a checkout that went through.
unfoldable pub give_subscription :
    Draws → ℕ → ℕ → ℕ → ℕ → Bool → Message → Action (Answer WhiteInternetSubscription)
give_subscription draws user_id server_id duration_days base_bytes is_trial success = do
  sub ←
      create_white_internet_subscription user_id server_id draws.uuid duration_days base_bytes
        is_trial
  told ← try_inline_sync draws.sync_answer sub
  granted success told

unfoldable pub buy_new : Settings → Draws → Bool → User → Action (Answer WhiteInternetSubscription)
buy_new st draws debit_balance user = do
  tariff ← get_or_create_white_internet_tariff st
  raise_if (st.base_traffic_bytes == 0) Error.value_error
  node ← gets allocate_origin_server_atomic
  or_refuse node Message.no_servers_available λ origin. (do
    failure ← checkout_if debit_balance user (first_month draws.order_id tariff)
    unless failure (
        give_subscription draws user.id (Server.id origin) (Tariff.duration_days tariff)
          st.base_traffic_bytes false Message.buy_success))

-- The refusals of `purchase_subscription` hand the subscription back.
abbrev kept : Message → WhiteInternetSubscription → Action (Answer WhiteInternetSubscription)
kept m sub = pure (false, (m, some sub))

unfoldable pub buy_again :
    Settings
    → Draws
    → ℕ
    → Bool
    → WhiteInternetSubscription
    → Action (Answer WhiteInternetSubscription)
buy_again st draws user_id debit_balance sub db =
    if sub.is_trial
    then convert_trial_to_paid st draws user_id debit_balance db
    else if status_eq sub.status WhiteInternetStatus.disabled
    then kept Message.sub_disabled sub db
    else if is_leaving sub
    then kept Message.deactivation_pending sub db
    else if is_live sub.status && ltb db.now sub.expires_at
    then kept Message.already_active sub db
    else renew_subscription st draws user_id debit_balance db

unfoldable pub purchase_subscription :
    Settings → Draws → ℕ → Bool → Action (Answer WhiteInternetSubscription)
unfolding buy_new buy_again
purchase_subscription st draws user_id debit_balance = do
  locked_user ← lock_checkout_user user_id
  or_refuse locked_user Message.user_not_found λ user. (do
    existing ← gets (white_internet_of user_id)
    (elim existing [
      | none ↦ buy_new st draws debit_balance user
      | some sub ↦ buy_again st draws user_id debit_balance sub
    ]))
