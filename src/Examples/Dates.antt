-- ===== src/Examples/Dates.antt =====
-- Dates, tariffs and revocations at concrete inputs.
use just1kbot.Prelude.{◌==◌, if◌then◌else◌, ◌+◌, ◌*◌, ◌≤◌, true, false, some, ◌⊎◌, ◌≡◌, refl, arith}
use just1kbot.Database.{User, Order, OrderMetadata, OrderStatus}
use just1kbot.Dates.{
  day, vpn_access_grace_hours, is_expired, is_vpn_access_expired, calculate_extension_end,
}
use just1kbot.Dates.Laws.{extension_restores_access}
use just1kbot.Fulfillment.Standard.{fulfilled_end, fulfilled_user}
use just1kbot.Fulfillment.Revocation.{revoked_end, revoked_user}
use just1kbot.Fulfillment.RoundTrip.{
  fulfilled_order, revoked_user-fulfilled_user, revoked_end-fulfilled_end,
}
use just1kbot.Subscription.Extension.{extended_end}
use just1kbot.Subscription.Extension.Laws.{extended_end_lem}
use just1kbot.Examples.Data.{customer, topup_order}

extension_restores_access_example :
    (is_expired (some (calculate_extension_end (some (90 * day)) 30 (100 * day))) (100 * day)
      ≡ false)
    × (is_vpn_access_expired
          (some (calculate_extension_end (some (90 * day)) 30 (100 * day)))
          24
          (100 * day)
        ≡ false)
extension_restores_access_example =
    extension_restores_access (some (90 * day)) (100 * day) 30 24 (omega arith) (omega arith)

-- An order for the yearly tariff in place of the monthly one.
abbrev change_order : Order
change_order =
    let o : Order = topup_order OrderStatus.paid in
    record o {
      tariff_id = some 5;
      duration_days = 365;
      device_limit = some 5;
      metadata = record (Order.metadata o) {
        terms = record (OrderMetadata.terms (Order.metadata o)) { is_tariff_change = true };
      };
    }

revoked_user-fulfilled_user_example :
    let restored =
      revoked_user
        (fulfilled_order change_order customer)
        (101 * day)
        (fulfilled_user change_order (100 * day) customer) in
    (User.subscription_end restored ≡ some (130 * day))
    × (User.current_tariff_id restored ≡ some 4)
    × (User.device_limit restored ≡ 3)
revoked_user-fulfilled_user_example =
    revoked_user-fulfilled_user change_order customer (100 * day) (101 * day) (130 * day) 4 refl
      refl refl (omega arith)

revoked_end-fulfilled_end_example :
    (fulfilled_end false 30 (some (130 * day)) (100 * day) ≡ some (130 * day + 30 * day))
    × ((revoked_end 30 (130 * day + 30 * day) (140 * day) ≡ 130 * day)
        ⊎ ((130 * day ≤ 140 * day)
            × (is_vpn_access_expired
                  (some (revoked_end 30 (130 * day + 30 * day) (140 * day)))
                  vpn_access_grace_hours
                  (140 * day)
                ≡ true)))
revoked_end-fulfilled_end_example =
    revoked_end-fulfilled_end 30 (130 * day) (100 * day) (140 * day) (omega arith) (omega arith)
      (omega arith)

extended_end_lem_example : extended_end (some (90 * day)) 30 (100 * day) ≡ (
    if 30 == 0
    then some (90 * day)
    else some (calculate_extension_end (some (90 * day)) 30 (100 * day)))
extended_end_lem_example = extended_end_lem (some (90 * day)) 30 (100 * day)
