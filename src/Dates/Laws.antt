-- ===== src/Dates/Laws.antt =====
-- How expiry, the grace period and an extension bear on one another.
use just1kbot.Prelude.{
  ℕ, ◌+◌, ◌*◌, ◌≤◌, ◌<◌, true, false, Option, none, some, ◌≡◌, ◌⊎◌, refl, arith,
}
use just1kbot.Database.{Instant}
use just1kbot.Dates.{
  day, permanent_subscription_days, is_expired, is_vpn_access_expired, is_permanent_subscription,
  calculate_extension_end,
}

-- An extension by fewer days than a permanent subscription has never shortens a current end, and
-- the new end leaves at least the days that were added, counted from now.
calculate_extension_end_lem :
    (end now : Instant) (days : ℕ)
    → days < permanent_subscription_days
    → (end ≤ calculate_extension_end (some end) days now)
      × (now + days * day ≤ calculate_extension_end (some end) days now)
      × ((calculate_extension_end (some end) days now ≡ end + days * day)
          ⊎ (calculate_extension_end (some end) days now ≡ now + days * day))
unfolding calculate_extension_end
calculate_extension_end_lem end now days h = ground arith

-- A subscription extended by at least one day and fewer than a permanent one's is not expired, and
-- neither is its network access, whatever the grace period.
pub extension_restores_access :
    (end : Option Instant) (now : Instant) (days grace : ℕ)
    → 0 < days
    → days < permanent_subscription_days
    → (is_expired (some (calculate_extension_end end days now)) now ≡ false)
      × (is_vpn_access_expired (some (calculate_extension_end end days now)) grace now ≡ false)
unfolding calculate_extension_end is_expired is_vpn_access_expired
extension_restores_access none now days grace p h = ground arith
extension_restores_access (some end) now days grace p h = ground arith

-- Network access expires no earlier than the subscription, and a longer grace period never ends
-- it earlier.
vpn_access_expired_later :
    (end : Option Instant) (now : Instant) (g h : ℕ)
    → g ≤ h
    → is_vpn_access_expired end h now ≡ true
    → (is_vpn_access_expired end g now ≡ true) × (is_expired end now ≡ true)
unfolding is_vpn_access_expired is_expired
vpn_access_expired_later none now g h le e = (refl, refl)
vpn_access_expired_later (some end) now g h le e = ground arith

-- Adding the days of a permanent subscription, or more, gives an end that counts as permanent.
extension-permanent :
    (end : Option Instant) (now : Instant) (days : ℕ)
    → permanent_subscription_days ≤ days
    → is_permanent_subscription (some (calculate_extension_end end days now)) now ≡ true
unfolding calculate_extension_end is_permanent_subscription
extension-permanent end now days h = ground arith
