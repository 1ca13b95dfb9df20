-- ===== src/Examples/Extras.antt =====
-- White Internet purchases at concrete inputs: a customer with 350 rubles, whose node is well.
use just1kbot.Prelude.{◌*◌, ◌==◌, pos, true, false, none, some, [], ◌∷◌, ◌≡◌, refl, if◌then◌else◌}
use just1kbot.Database.{
  ServiceType, WhiteInternetStatus, ProvisioningStatus, TrafficCounters, Tariff, Server,
  WhiteInternetSubscription, Db, ok,
}
use just1kbot.Dates.{day}
use just1kbot.WhiteInternet.Settings.{Settings, Message}
use just1kbot.WhiteInternet.Repository.{subscription_by_id, with_slot}
use just1kbot.Fulfillment.Operations.{newest, newer}
use just1kbot.WhiteInternet.Nodes.{unreachable, destination, origin_of}
use just1kbot.WhiteInternet.Checkout.{checkout_if, get_or_create_white_internet_tariff}
use just1kbot.WhiteInternet.Extras.{purchase_device_slot, may_act, extras_refusal, slot_refusal}
use just1kbot.WhiteInternet.Extras.Validation.{settled, purchase_device_slot-granted}
use just1kbot.WhiteInternet.Lifecycle.{Draws}
use just1kbot.Examples.Data.{customer, shop, yearly}

abbrev pub settings : Settings
settings = record {
  base_price_rub = 250;
  base_duration_days = 30;
  base_traffic_bytes = 53687091200;
  trial_duration_days = 3;
  trial_traffic_bytes = 5368709120;
  extra_device_price_rub = pos 20000;
  extra_device_traffic_bytes = 53687091200;
  max_device_limit = 3;
  max_expiry_days = 60;
  max_quota_bytes = 161061273600;
  topup_packs = λ gb. if gb == 10 then some (pos 4000) else none;
  is_admin = λ telegram_id. false;
}

abbrev pub node : Server
node = record {
  id = 7;
  is_xray = true;
  is_active = true;
  is_online = true;
  is_lifecycle_active = true;
  has_api = true;
  is_origin = true;
  has_relays = true;
  max_clients = 1000;
}

abbrev pub wi_tariff : Tariff
wi_tariff = record yearly {
  id = 9;
  service_type = ServiceType.white_internet;
  duration_days = 30;
  device_limit = 1;
  price_rub = 250;
}

abbrev pub counters : TrafficCounters
counters = record {
  used = 1000;
  uplink = 10;
  downlink = 1000;
  overage = 0;
  last_uplink_snapshot = 10;
  last_downlink_snapshot = 1000;
  stats_epoch = some "e1";
}

-- Twenty days are left of it.
abbrev pub subscription : WhiteInternetSubscription
subscription = record {
  id = 5;
  user_id = 1;
  origin_node_id = some 7;
  uuid = "u-5";
  status = WhiteInternetStatus.active;
  expires_at = 120 * day;
  base_traffic_bytes = 53687091200;
  extra_traffic_bytes = 0;
  traffic = counters;
  device_limit = 1;
  is_trial = false;
  provisioning_status = ProvisioningStatus.active;
  desired_version = 4;
  actual_version = 4;
  last_reconciled_node_epoch = some "e1";
  pending_hard_delete = false;
  reminders = record {
    notified_3d = false;
    notified_1d = false;
    notified_2h = false;
    notified_expired = false;
    notified_90p = false;
  };
}

abbrev pub wi_shop : Db
wi_shop = record shop {
  tariffs = wi_tariff ∷ [];
  servers = node ∷ [];
  subscriptions = subscription ∷ [];
}

abbrev pub draws : Draws
draws = record { order_id = 81; uuid = "u-6"; sync_answer = unreachable }

purchase_device_slot-granted_example :
    let slot = with_slot 53687091200 (settled (destination subscription wi_shop) subscription) in
    let (answer, after) = purchase_device_slot settings 81 1 (some 1001) false wi_shop in
    (answer ≡ ok (true, (Message.add_device_success, some slot)))
    × (subscription_by_id 5 after ≡ some slot)
unfolding may_act extras_refusal slot_refusal newest newer destination origin_of
    get_or_create_white_internet_tariff checkout_if
purchase_device_slot-granted_example =
    purchase_device_slot-granted settings customer subscription 81 (some 1001) false wi_shop
      (get_or_create_white_internet_tariff settings wi_shop).1 wi_tariff refl refl refl refl refl
      refl refl refl refl
