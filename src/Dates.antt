-- ===== src/Dates.antt =====
-- utils/datetime_helpers.py: instants are aware datetimes in UTC, in microseconds from 1970.
use just1kbot.Prelude.{ℕ, ◌+◌, ◌*◌, Bool, true, false, Option, none, some, ltb, leb, if◌then◌else◌}
use just1kbot.Database.{Instant}
pub mod Laws

abbrev pub microseconds : ℕ
microseconds = 1000000

abbrev pub hour : ℕ
hour = 3600000000

abbrev pub day : ℕ
day = 86400000000

-- config/constants.py
abbrev pub permanent_subscription_days : ℕ
permanent_subscription_days = 36500

-- 2100-01-01
abbrev pub permanent_end_date : Instant
permanent_end_date = 4102444800000000

abbrev pub vpn_access_grace_hours : ℕ
vpn_access_grace_hours = 4

unfoldable pub is_permanent_subscription : Option Instant → Instant → Bool
is_permanent_subscription none now = false
is_permanent_subscription (some dt) now =
    if leb permanent_end_date dt then true else leb (now + permanent_subscription_days * day) dt

unfoldable pub is_expired : Option Instant → Instant → Bool
is_expired none now = true
is_expired (some dt) now = ltb dt now

unfoldable pub is_vpn_access_expired : Option Instant → ℕ → Instant → Bool
is_vpn_access_expired none grace_hours now = true
is_vpn_access_expired (some dt) grace_hours now = ltb (dt + grace_hours * hour) now

-- The later of an end that lies ahead and the present.
abbrev base_time : Option Instant → Instant → Instant
base_time none now = now
base_time (some end) now = if ltb now end then end else now

unfoldable pub calculate_extension_end : Option Instant → ℕ → Instant → Instant
calculate_extension_end current_end days now =
    if leb permanent_subscription_days days
    then permanent_end_date
    else base_time current_end now + days * day
