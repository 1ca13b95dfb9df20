-- ===== src/Subscription/Extension/Laws.antt =====
-- What an extension does to the user.
use just1kbot.Prelude.{◌==◌, if◌then◌else◌, ℕ, Option, none, some, ◌≡◌, arith}
use just1kbot.Database.{Instant}
use just1kbot.Dates.{calculate_extension_end}
use just1kbot.Subscription.Extension.{extended_end}

-- For one day or more the service's own arithmetic is `calculate_extension_end`; for no day the
-- end stays.
pub extended_end_lem :
    (end : Option Instant) (days : ℕ) (now : Instant)
    → extended_end end days now
      ≡ (if days == 0 then end else some (calculate_extension_end end days now))
unfolding extended_end calculate_extension_end
extended_end_lem none days now = ground arith
extended_end_lem (some e) days now = ground arith
