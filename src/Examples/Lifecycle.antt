-- ===== src/Examples/Lifecycle.antt =====
-- The life of White Internet subscriptions at concrete inputs.
use just1kbot.Prelude.{
  ◌-ℤ◌, ◌+◌, ◌*◌, ◌≤◌, true, false, none, some, [], ◌≡◌, ◌⊎◌, refl, arith, count_where,
}
use just1kbot.Database.{
  err, Error, ServiceType, Operation, Order, OrderStatus, OrderMetadata, WhiteInternetSubscription,
  Db, ok,
}
use just1kbot.Dates.{day}
use just1kbot.Fulfillment.Operations.{put_white_internet, newest, newer}
use just1kbot.Fulfillment.Standard.{fulfill_order}
use just1kbot.WhiteInternet.Settings.{Message}
use just1kbot.WhiteInternet.Repository.{
  subscription_by_id, create_white_internet_subscription, cancel_pending_orphan_cleanups_for_client,
  with_slot, renewed, new_subscription, renew_subscription_atomic,
}
use just1kbot.WhiteInternet.Nodes.{
  allocate_origin_server_atomic, lowest, try_inline_sync, synced, destination, origin_of,
}
use just1kbot.WhiteInternet.Checkout.{
  checkout_if, checkout_wallet_order, get_or_create_white_internet_tariff,
}
use just1kbot.WhiteInternet.Checkout.Refusal.{checkout_wallet_order-refused}
use just1kbot.WhiteInternet.Extras.{extras_refusal, slot_refusal, slot_purchase}
use just1kbot.WhiteInternet.Extras.Validation.{settled}
use just1kbot.WhiteInternet.Lifecycle.{give_subscription, renew_subscription, renewal_refusal}
use just1kbot.WhiteInternet.Lifecycle.Renewal.{
  renew_subscription-granted, renew_subscription_atomic-horizon,
}
use just1kbot.Ledger.Operations.{create_order_debit, debit_fresh}
use just1kbot.Ledger.Balance.{
  lock_account_user, get_account_balance, snapshot, snapshot_of, position, sum_entries,
  whole_rubles,
}
use just1kbot.Orders.Checkout.{add_order}
use just1kbot.WhiteInternet.Trial.{trial_for, has_ever_activated_trial, create_trial_subscription}
use just1kbot.WhiteInternet.Trial.Once.{create_trial_subscription-once}
use just1kbot.WhiteInternet.Admin.{service, to_deactivate, deactivate_user_subscriptions}
use just1kbot.WhiteInternet.Admin.Deactivation.{deactivate_user_subscriptions-none_left}
use just1kbot.WhiteInternet.Admin.Fulfilment.{fulfill_order-slot}
use just1kbot.WhiteInternet.Changes.{Change, Life, IsSound}
use just1kbot.WhiteInternet.Changes.Invariant.{Life-IsSound}
use just1kbot.Examples.Data.{customer, topup_order, empty_metadata}
use just1kbot.Examples.Extras.{settings, subscription, wi_tariff, wi_shop, draws}

-- A new subscription is pending until its node confirms it.
abbrev created : WhiteInternetSubscription
created = new_subscription 5 1 7 "u-5" 30 53687091200 false (100 * day)

abbrev confirmed : WhiteInternetSubscription
confirmed = synced (some "e1") created

Life-IsSound_example :
    IsSound settings (renewed settings 30 53687091200 (101 * day) (with_slot 53687091200 confirmed))
unfolding slot_refusal with_slot
Life-IsSound_example = Life-IsSound settings (omega arith) (
    Life.change
      (Life.change
        (Life.change (Life.creation 5 1 7 "u-5" 30 53687091200 false (100 * day))
          (Change.sync (some "e1") created))
        (Change.slot confirmed refl refl))
      (Change.renewal 30 53687091200 (101 * day) (with_slot 53687091200 confirmed) refl refl))

renew_subscription_atomic-horizon_example :
    let row = renewed settings 30 53687091200 (100 * day) subscription in
    ((e : Error) × (renew_subscription_atomic settings 5 30 53687091200 wi_shop ≡ (err e, wi_shop)))
    ⊎ ((renew_subscription_atomic settings 5 30 53687091200 wi_shop
          ≡ (ok row, put_white_internet row wi_shop))
        × ((120 * day + 30 * day ≤ WhiteInternetSubscription.expires_at row)
            × (WhiteInternetSubscription.expires_at row ≤ 100 * day + 60 * day)))
renew_subscription_atomic-horizon_example =
    renew_subscription_atomic-horizon settings 5 30 53687091200 subscription wi_shop refl

renew_subscription-granted_example :
    (renew_subscription settings draws 1 false wi_shop).0
    ≡ ok (
      true,
      (
        Message.renew_success,
        some (
            renewed settings 30 53687091200
              (100 * day)
              (settled (destination subscription wi_shop) subscription)),
      ),
    )
unfolding newest newer destination origin_of renewal_refusal get_or_create_white_internet_tariff
    checkout_if
renew_subscription-granted_example =
    renew_subscription-granted settings wi_tariff subscription customer draws false wi_shop
      (get_or_create_white_internet_tariff settings wi_shop).1 refl refl refl refl refl refl refl
      refl refl refl

-- Nothing is on the account.
abbrev empty_account : Db
empty_account = record wi_shop { entries = [] }

checkout_wallet_order-refused_example :
    (Db.entries
        (checkout_wallet_order customer
          (slot_purchase settings 81 wi_tariff subscription)
          empty_account).1
      ≡ [])
    × (Db.allocations
          (checkout_wallet_order customer
            (slot_purchase settings 81 wi_tariff subscription)
            empty_account).1
        ≡ [])
unfolding checkout_wallet_order whole_rubles add_order create_order_debit lock_account_user ◌-ℤ◌
    debit_fresh get_account_balance snapshot snapshot_of position sum_entries
checkout_wallet_order-refused_example =
    checkout_wallet_order-refused customer (slot_purchase settings 81 wi_tariff subscription)
      empty_account Message.insufficient_balance refl

deactivate_user_subscriptions-none_left_example :
    count_where
      (to_deactivate 1 none)
      (Db.subscriptions (deactivate_user_subscriptions 1 none wi_shop).1)
    ≡ 0
deactivate_user_subscriptions-none_left_example =
    deactivate_user_subscriptions-none_left 1 none wi_shop

abbrev slot_order : Order
slot_order = record (topup_order OrderStatus.paid) {
  service_type = ServiceType.white_internet;
  metadata = record empty_metadata {
    terms = record (OrderMetadata.terms empty_metadata) {
      operation = some Operation.add_device_slot;
    };
  };
}

fulfill_order-slot_example :
    let (answer, after) = fulfill_order (service settings draws) slot_order wi_shop in
    (answer ≡ ok tt)
    × (subscription_by_id 5 after
        ≡ some (with_slot 53687091200 (settled (destination subscription wi_shop) subscription)))
unfolding extras_refusal slot_refusal newest newer destination origin_of
fulfill_order-slot_example =
    fulfill_order-slot settings draws customer subscription slot_order wi_shop refl refl refl refl
      refl refl refl refl refl

abbrev newcomer_shop : Db
newcomer_shop = record wi_shop { subscriptions = [] }

create_trial_subscription-once_example :
    (create_trial_subscription settings draws 1
      (create_trial_subscription settings draws 1 newcomer_shop).1).1
    ≡ (create_trial_subscription settings draws 1 newcomer_shop).1
unfolding create_trial_subscription trial_for has_ever_activated_trial newest
    allocate_origin_server_atomic lowest get_or_create_white_internet_tariff checkout_wallet_order
    whole_rubles add_order give_subscription create_white_internet_subscription
    cancel_pending_orphan_cleanups_for_client try_inline_sync
create_trial_subscription-once_example =
    create_trial_subscription-once settings draws draws 1
      (some (new_subscription 1 1 7 "u-6" 3 5368709120 true (100 * day))) newcomer_shop refl
