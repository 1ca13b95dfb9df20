-- ===== src/Fulfillment/RoundTrip.antt =====
-- What a revocation restores of what a fulfilment changed.
use just1kbot.Prelude.{ℕ, ◌+◌, ◌*◌, ◌≤◌, ◌<◌, true, false, some, ◌⊎◌, ◌≡◌, arith}
use just1kbot.Database.{Instant, User, Order, OrderMetadata, Terms}
use just1kbot.Dates.{day, hour, vpn_access_grace_hours, is_vpn_access_expired}
use just1kbot.Fulfillment.Standard.{fulfilled_end, fulfilled_user, remember, with_previous}
use just1kbot.Fulfillment.Revocation.{revoked_end, revoked_user}

-- The order as fulfilment leaves it.
abbrev pub fulfilled_order : Order → User → Order
fulfilled_order order user =
    with_previous order (remember user (OrderMetadata.previous (Order.metadata order)))

-- Revoking a change of tariff, at any later time, gives the user back the end, the tariff and the
-- device limit from before, when the user had an end and a tariff.
pub revoked_user-fulfilled_user :
    (order : Order) (user : User) (now later : Instant) (end : Instant) (tariff_id : ℕ)
    → Terms.is_tariff_change (OrderMetadata.terms (Order.metadata order)) ≡ true
    → User.subscription_end user ≡ some end
    → User.current_tariff_id user ≡ some tariff_id
    → 0 < tariff_id
    → let restored =
        revoked_user (fulfilled_order order user) later (fulfilled_user order now user) in
      (User.subscription_end restored ≡ some end)
      × (User.current_tariff_id restored ≡ some tariff_id)
      × (User.device_limit restored ≡ User.device_limit user)
unfolding revoked_user fulfilled_user remember
revoked_user-fulfilled_user order user now later end tariff_id change e t pos_id = ground arith

-- Days that were bought on top of an end that lies ahead are taken off again exactly; if by then
-- the restored end has passed, network access has expired, the grace period included.
pub revoked_end-fulfilled_end :
    (days end now later : ℕ)
    → 0 < days
    → now ≤ end
    → (vpn_access_grace_hours + 1) * hour ≤ later
    → (fulfilled_end false days (some end) now ≡ some (end + days * day))
      × ((revoked_end days (end + days * day) later ≡ end)
          ⊎ ((end ≤ later)
              × (is_vpn_access_expired
                    (some (revoked_end days (end + days * day) later))
                    vpn_access_grace_hours
                    later
                  ≡ true)))
unfolding fulfilled_end revoked_end is_vpn_access_expired
revoked_end-fulfilled_end days end now later p h g = ground arith
