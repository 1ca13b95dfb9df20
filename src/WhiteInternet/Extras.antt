-- ===== src/WhiteInternet/Extras.antt =====
-- `purchase_device_slot` and `topup_quota`: what an owner adds to a subscription.
pub mod Validation
use just1kbot.Prelude.{
  ℕ, suc, ◌+◌, ◌*◌, leb, ◌==◌, Bool, true, false, not, ◌&&◌, ◌||◌, Option, none, some,
  if◌then◌else◌,
}
use just1kbot.Database.{
  Decimal, Instant, User, Tariff, Operation, Server, WhiteInternetSubscription, Db, Action, pure,
  ◌>>=◌, ◌>>◌, gets, is_dormant,
}
use just1kbot.Ledger.Balance.{lock_checkout_user}
use just1kbot.Fulfillment.Operations.{white_internet_of}
use just1kbot.WhiteInternet.Settings.{Settings, Message}
use just1kbot.WhiteInternet.Repository.{
  effective_device_limit, has_expired, exceeds_cap, gigabyte, add_device_slot_atomic,
  topup_quota_atomic, subscription_or,
}
use just1kbot.WhiteInternet.Nodes.{
  Destination, nowhere, origin_of, destination, migrate, clean_up_old,
}
use just1kbot.WhiteInternet.Checkout.{Purchase, checkout_if, get_or_create_white_internet_tariff}
use just1kbot.WhiteInternet.Answers.{Answer, granted, refused, refuse_if, unless, or_refuse}

-- `is_owner or is_admin_actor`
unfoldable pub may_act : Settings → User → Option ℕ → Bool
may_act st user none = false
may_act st user (some actor) = user.telegram_id == actor || st.is_admin actor

-- The checks that the two purchases share, in their order; the text for a trial differs.
unfoldable pub extras_refusal :
    Message → User → Instant → WhiteInternetSubscription → Option Message
extras_refusal for_trial user now sub =
    if not (sub.user_id == user.id)
    then some Message.access_denied
    else if sub.is_trial
    then some for_trial
    else if is_dormant sub.status
    then some Message.sub_not_ready
    else if has_expired now sub
    then some Message.sub_expired
    else none

-- The bounds of a slot.
unfoldable pub slot_refusal : Settings → WhiteInternetSubscription → Option Message
slot_refusal st sub =
    if leb st.max_device_limit (effective_device_limit sub)
    then some Message.device_limit_max_reached
    else if exceeds_cap st (effective_device_limit sub + 1) st.extra_device_traffic_bytes sub
    then some Message.cap_exceeded
    else none

abbrev pub slot_purchase : Settings → ℕ → Tariff → WhiteInternetSubscription → Purchase
slot_purchase st order_id tariff sub = record {
  id = order_id;
  tariff_id = some (Tariff.id tariff);
  amount_due = Settings.extra_device_price_rub st;
  duration_days = 0;
  traffic_bytes = Settings.extra_device_traffic_bytes st;
  device_limit = effective_device_limit sub + 1;
  operation = Operation.add_device_slot;
  is_trial = false;
}

-- What follows a checkout that went through. `sub` and `updated` are one object of the session, so
-- that the version of the cleanup is the one after the update.
unfoldable pub give_slot :
    Settings
    → Destination
    → Option Server
    → WhiteInternetSubscription
    → Action (Answer WhiteInternetSubscription)
give_slot st to old sub = do
  moved ← migrate to sub
  updated ← add_device_slot_atomic st moved.id st.extra_device_traffic_bytes
  clean_up_old to old (WhiteInternetSubscription.uuid updated)
      (WhiteInternetSubscription.desired_version updated + 1)
  granted Message.add_device_success updated

abbrev pub no_servers : Destination → Option Message
no_servers nowhere = some Message.no_servers_available
no_servers _ = none

unfoldable pub pay_for_slot :
    Settings
    → ℕ
    → Bool
    → User
    → WhiteInternetSubscription
    → Destination
    → Option Server
    → Action (Answer WhiteInternetSubscription)
pay_for_slot st order_id debit_balance user sub to old = do
  tariff ← get_or_create_white_internet_tariff st
  failure ← checkout_if debit_balance user (slot_purchase st order_id tariff sub)
  unless failure (give_slot st to old sub)

-- `user_id`'s slot, asked for by `actor`; `order_id` is the fresh id of the wallet order.
unfoldable pub purchase_device_slot :
    Settings → ℕ → ℕ → Option ℕ → Bool → Action (Answer WhiteInternetSubscription)
unfolding pay_for_slot
purchase_device_slot st order_id user_id actor debit_balance = do
  locked_user ← lock_checkout_user user_id
  or_refuse locked_user Message.user_not_found λ user.
      refuse_if (not (may_act st user actor)) Message.admin_only (do
        current ← gets (white_internet_of user_id)
        or_refuse current Message.sub_not_found λ sub. (do
          now ← gets Db.now
          unless (extras_refusal Message.trial_cannot_add_device user now sub) (
              unless (slot_refusal st sub) (do
                to ← gets (destination sub)
                old ← gets (origin_of sub)
                unless (no_servers to) (pay_for_slot st order_id debit_balance user sub to old)))))

abbrev pub topup_purchase : ℕ → Tariff → ℕ → Decimal → WhiteInternetSubscription → Purchase
topup_purchase order_id tariff pack_gb pack_price sub = record {
  id = order_id;
  tariff_id = some (Tariff.id tariff);
  amount_due = pack_price;
  duration_days = 0;
  traffic_bytes = pack_gb * gigabyte;
  device_limit = effective_device_limit sub;
  operation = Operation.topup;
  is_trial = false;
}

-- As for a slot; the object that is handed back is the number of bytes.
unfoldable pub give_pack :
    Settings → ℕ → Destination → Option Server → WhiteInternetSubscription → Action (Answer ℕ)
give_pack st pack_gb to old sub = do
  moved ← migrate to sub
  grant ← topup_quota_atomic st moved.id pack_gb
  updated ← gets (subscription_or moved)
  clean_up_old to old (WhiteInternetSubscription.uuid updated)
      (WhiteInternetSubscription.desired_version updated + 1)
  granted Message.topup_success grant

unfoldable pub pay_for_pack :
    Settings
    → ℕ
    → ℕ
    → Decimal
    → Bool
    → User
    → WhiteInternetSubscription
    → Destination
    → Option Server
    → Action (Answer ℕ)
pay_for_pack st order_id pack_gb pack_price debit_balance user sub to old = do
  tariff ← get_or_create_white_internet_tariff st
  failure ← checkout_if debit_balance user (topup_purchase order_id tariff pack_gb pack_price sub)
  unless failure (give_pack st pack_gb to old sub)

abbrev pub over_cap : Settings → ℕ → WhiteInternetSubscription → Bool
over_cap st pack_gb sub = exceeds_cap st (effective_device_limit sub) (pack_gb * gigabyte) sub

unfoldable pub topup_quota : Settings → ℕ → ℕ → ℕ → Option ℕ → Bool → Action (Answer ℕ)
unfolding pay_for_pack
topup_quota st order_id user_id pack_gb actor debit_balance =
    or_refuse (st.topup_packs pack_gb) Message.invalid_topup_pack λ pack_price. (do
      locked_user ← lock_checkout_user user_id
      or_refuse locked_user Message.user_not_found λ user.
          refuse_if (not (may_act st user actor)) Message.admin_only (do
            current ← gets (white_internet_of user_id)
            or_refuse current Message.sub_not_found λ sub. (do
              now ← gets Db.now
              unless (extras_refusal Message.trial_cannot_topup user now sub) (do
                to ← gets (destination sub)
                old ← gets (origin_of sub)
                unless (no_servers to) (
                    refuse_if (over_cap st pack_gb sub) Message.cap_exceeded (
                      pay_for_pack st order_id pack_gb pack_price debit_balance user sub to
                        old))))))
