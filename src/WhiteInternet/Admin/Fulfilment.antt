-- ===== src/WhiteInternet/Admin/Fulfilment.antt =====
-- The service in the place of the interface that fulfilment calls: an order that was paid elsewhere is
-- fulfilled without a charge.
use just1kbot.Prelude.{ap, true, false, ◌≡◌, refl, none, some, arith}
use just1kbot.Database.{
  ServiceType, User, Tariff, Order, WhiteInternetSubscription, Db, ok, user_by_id, ok_value,
}
use just1kbot.Fulfillment.Operations.{white_internet_of}
use just1kbot.Fulfillment.Standard.{
  is_device_slot, fulfill_order, fulfill_for_user, fulfill_for, fulfill_white_internet,
  fulfill_slot,
}
use just1kbot.WhiteInternet.Settings.{Settings, Message}
use just1kbot.WhiteInternet.Repository.{with_slot, subscription_by_id}
use just1kbot.WhiteInternet.Nodes.{destination}
use just1kbot.WhiteInternet.Checkout.{get_or_create_white_internet_tariff, checkout_if}
use just1kbot.WhiteInternet.Extras.{
  purchase_device_slot, may_act, extras_refusal, slot_refusal, no_servers,
}
use just1kbot.WhiteInternet.Extras.Validation.{settled, purchase_device_slot-granted}
use just1kbot.WhiteInternet.Lifecycle.{Draws}
use just1kbot.WhiteInternet.Admin.{service}

get_or_create-ok :
    (st : Settings) (db : Db)
    → (t : Tariff) × (get_or_create_white_internet_tariff st db
        ≡ (ok t, (get_or_create_white_internet_tariff st db).1))
unfolding get_or_create_white_internet_tariff
get_or_create-ok st db = ok_value (get_or_create_white_internet_tariff st db) (λ e. ground arith)

own : (st : Settings) (user : User) → may_act st user (some (User.telegram_id user)) ≡ true
unfolding may_act
own st user = ground arith

module _ (st : Settings) (draws : Draws) (user : User) (sub : WhiteInternetSubscription)
    (order : Order) (db : Db) where
  -- A paid order of a device slot, for a subscription that passes the checks of the purchase, is
  -- fulfilled by the service: fulfilment does not raise, and afterwards the subscription's row has the
  -- slot and its traffic, whatever node it has moved to.
  pub fulfill_order-slot :
      Order.service_type order ≡ ServiceType.white_internet
      → Order.user_id order ≡ User.id user
      → is_device_slot order ≡ true
      → user_by_id (User.id user) db ≡ some user
      → white_internet_of (User.id user) db ≡ some sub
      → subscription_by_id (WhiteInternetSubscription.id sub) db ≡ some sub
      → extras_refusal Message.trial_cannot_add_device user (Db.now db) sub ≡ none
      → slot_refusal st sub ≡ none
      → no_servers (destination sub db) ≡ none
      → let (answer, after) = fulfill_order (service st draws) order db in
        (answer ≡ ok tt)
        × (subscription_by_id (WhiteInternetSubscription.id sub) after
            ≡ some (
                with_slot
                  (Settings.extra_device_traffic_bytes st)
                  (settled (destination sub db) sub)))
  unfolding fulfill_order fulfill_for_user fulfill_for fulfill_white_internet fulfill_slot
      checkout_if
  fulfill_order-slot v i d u w h e g n =
      let (tariff, t) = get_or_create-ok st db in
      let granted =
        purchase_device_slot-granted st user sub (Draws.order_id draws)
          (some (User.telegram_id user)) false db (get_or_create_white_internet_tariff st db).1
          tariff u (own st user) w h e g n t refl in
      let purchased =
        purchase_device_slot st (Draws.order_id draws) (User.id user) (some (User.telegram_id user))
          false db in
      let answered : purchased ≡ (ok _, purchased.1) = ap (λ a. (a, purchased.1)) granted.0 in
      rw (i, u) (simp (v, d) (rw (u, answered) (refl, granted.1)))
