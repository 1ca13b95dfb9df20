-- ===== src/WhiteInternet/Changes.antt =====
-- The changes that the service, the metering and an administrator make to a subscription's row, under
-- the guards they make them with, and what they all keep. A move and a sync are taken without any
-- guard. Not among them are the changes that may take the quota below what was used of it, which are
-- the revocations of slots and packs by a refund, services/fulfillment_service.py, and the setters
-- `set_base_traffic_quota_atomic` and `set_device_limit_atomic`; and what a node's report changes,
-- which is in Reconciliation.
pub mod Invariant
use just1kbot.Prelude.{
  ℕ, zero, suc, ◌+◌, ◌-◌, ◌*◌, ◌≤◌, ◌<◌, ltb, leb, ◌==◌, Bool, true, false, ◌≡◌, Option, none, some,
  String, arith,
}
use just1kbot.Database.{
  WhiteInternetStatus, Instant, Server, TrafficCounters, WhiteInternetSubscription, is_dormant,
  is_live, status_eq,
}
use just1kbot.WhiteInternet.Settings.{Settings}
use just1kbot.WhiteInternet.Repository.{
  quota, metered, available, effective_device_limit, renewed, with_slot, gigabyte, with_pack,
  expired, extended, exceeds_horizon, exceeds_cap, new_subscription,
}
use just1kbot.WhiteInternet.Nodes.{moved_to, synced}
use just1kbot.WhiteInternet.Extras.{slot_refusal, over_cap}
use just1kbot.WhiteInternet.Lifecycle.{converted}
use just1kbot.WhiteInternet.Trial.{disabled, discarded}
use just1kbot.WhiteInternet.Setters.{is_counting, with_extra, with_counters_reset}
use just1kbot.WhiteInternet.Metering.{Reading, deducted, recorded}
use just1kbot.WhiteInternet.Metering.Laws.{IsMetered}

-- What a conversion of a trial and an extension test.
abbrev pub IsEnabled : WhiteInternetSubscription → Type 0
IsEnabled sub =
    status_eq (WhiteInternetSubscription.status sub) WhiteInternetStatus.disabled ≡ false

abbrev pub IsAwake : WhiteInternetSubscription → Type 0
IsAwake sub = is_dormant (WhiteInternetSubscription.status sub) ≡ false

pub data Change (st : Settings)
    : WhiteInternetSubscription → WhiteInternetSubscription → Type 0 where
  slot :
      (sub : WhiteInternetSubscription)
      → IsAwake sub
      → slot_refusal st sub ≡ none
      → Change st sub (with_slot (Settings.extra_device_traffic_bytes st) sub)
  pack :
      (pack_gb : ℕ) (sub : WhiteInternetSubscription)
      → IsAwake sub
      → over_cap st pack_gb sub ≡ false
      → Change st sub (with_pack (pack_gb * gigabyte) sub)
  renewal :
      (duration_days base_bytes : ℕ) (now : Instant) (sub : WhiteInternetSubscription)
      → IsAwake sub
      → exceeds_horizon st duration_days now sub ≡ false
      → Change st sub (renewed st duration_days base_bytes now sub)
  conversion :
      (duration_days : ℕ) (now : Instant) (sub : WhiteInternetSubscription)
      → IsEnabled sub
      → Change st sub (converted st duration_days now sub)
  extension :
      (days : ℕ) (now : Instant) (sub : WhiteInternetSubscription)
      → IsEnabled sub
      → Change st sub (extended days now sub)
  move : (server : Server) (sub : WhiteInternetSubscription) → Change st sub (moved_to server sub)
  sync :
      (verified_epoch : Option String) (sub : WhiteInternetSubscription)
      → Change st sub (synced verified_epoch sub)
  expiry : (sub : WhiteInternetSubscription) → Change st sub (expired sub)
  deduction :
      (delta up down : ℕ) (sub : WhiteInternetSubscription)
      → Change st sub (deducted delta up down sub)
  reading :
      (up down : ℕ) (r : Reading) (sub : WhiteInternetSubscription)
      → Change st sub (recorded up down r sub)
  bonus :
      (extra_bytes : ℕ) (sub : WhiteInternetSubscription)
      → is_live (WhiteInternetSubscription.status sub) ≡ true
      → exceeds_cap st (effective_device_limit sub) extra_bytes sub ≡ false
      → Change st sub (with_extra extra_bytes sub)
  counters_reset :
      (sub : WhiteInternetSubscription)
      → is_counting (WhiteInternetSubscription.status sub) ≡ true
      → Change st sub (with_counters_reset sub)
  deactivation : (sub : WhiteInternetSubscription) → Change st sub (disabled sub)
  reset : (sub : WhiteInternetSubscription) → Change st sub (discarded sub)

-- The row that `create_white_internet_subscription` adds, and what becomes of it.
pub data Life (st : Settings) : WhiteInternetSubscription → Type 0 where
  creation :
      (id user_id origin_node_id : ℕ) (uuid : String) (duration_days base_bytes : ℕ)
      (is_trial : Bool) (now : Instant)
      → Life st
          (new_subscription id user_id origin_node_id uuid duration_days base_bytes is_trial now)
  change : {s t : WhiteInternetSubscription} → Life st s → Change st s t → Life st t

-- What the devices may hold bounds the packs that were bought, the devices are as many as are allowed,
-- the counters are sound, and the node is never ahead of what is wanted of it.
abbrev pub IsSound : Settings → WhiteInternetSubscription → Type 0
IsSound st sub =
    (WhiteInternetSubscription.extra_traffic_bytes sub
      ≤ effective_device_limit sub * Settings.max_quota_bytes st)
    × ((WhiteInternetSubscription.device_limit sub ≤ Settings.max_device_limit st)
        × (IsMetered sub
            × ((1 ≤ WhiteInternetSubscription.desired_version sub)
                × (WhiteInternetSubscription.actual_version sub
                    ≤ WhiteInternetSubscription.desired_version sub))))
