-- ===== src/WhiteInternet/Changes/Invariant.antt =====
-- What every change of a subscription keeps.
use just1kbot.Prelude.{ℕ, ◌*◌, ◌≤◌, false, ◌≡◌, none, arith}
use just1kbot.Database.{Instant, WhiteInternetSubscription}
use just1kbot.WhiteInternet.Settings.{Settings}
use just1kbot.WhiteInternet.Repository.{
  with_slot, gigabyte, with_pack, renewed, rolled_over, extended, exceeds_cap, expired,
  effective_device_limit,
}
use just1kbot.WhiteInternet.Extras.{slot_refusal, over_cap}
use just1kbot.WhiteInternet.Lifecycle.{converted}
use just1kbot.WhiteInternet.Setters.{with_extra, with_counters_reset}
use just1kbot.WhiteInternet.Metering.{deducted, recorded}
use just1kbot.WhiteInternet.Changes.{
  IsSound, Change, slot, pack, renewal, conversion, extension, move, sync, expiry, deduction,
  reading, bonus, counters_reset, deactivation, reset, Life, creation, change,
}

module _ (st : Settings) where
  slot-IsSound :
      (sub : WhiteInternetSubscription)
      → slot_refusal st sub ≡ none
      → IsSound st sub
      → IsSound st (with_slot (Settings.extra_device_traffic_bytes st) sub)
  unfolding slot_refusal with_slot
  slot-IsSound sub g i = ground arith

  pack-IsSound :
      (pack_gb : ℕ) (sub : WhiteInternetSubscription)
      → over_cap st pack_gb sub ≡ false
      → IsSound st sub
      → IsSound st (with_pack (pack_gb * gigabyte) sub)
  unfolding with_pack
  pack-IsSound pack_gb sub g i = ground arith

  rolled_over_le :
      (now : Instant) (sub : WhiteInternetSubscription)
      → rolled_over st now sub ≤ effective_device_limit sub * Settings.max_quota_bytes st
  unfolding rolled_over
  rolled_over_le now sub = ground arith

  renewal-IsSound :
      (duration_days base_bytes : ℕ) (now : Instant) (sub : WhiteInternetSubscription)
      → IsSound st sub
      → IsSound st (renewed st duration_days base_bytes now sub)
  unfolding renewed
  renewal-IsSound duration_days base_bytes now sub i = ground (arith, rolled_over_le now sub)

  extension-IsSound :
      (days : ℕ) (now : Instant) (sub : WhiteInternetSubscription)
      → IsSound st sub
      → IsSound st (extended days now sub)
  unfolding extended
  extension-IsSound days now sub i = ground arith

  bonus-IsSound :
      (extra_bytes : ℕ) (sub : WhiteInternetSubscription)
      → exceeds_cap st (effective_device_limit sub) extra_bytes sub ≡ false
      → IsSound st sub
      → IsSound st (with_extra extra_bytes sub)
  unfolding with_extra
  bonus-IsSound extra_bytes sub g i = ground arith

  counters_reset-IsSound :
      (sub : WhiteInternetSubscription) → IsSound st sub → IsSound st (with_counters_reset sub)
  unfolding with_counters_reset
  counters_reset-IsSound sub i = ground arith

  -- Under settings that allow a device, every change keeps a subscription sound.
  Change-IsSound : {s t : WhiteInternetSubscription} → Change st s t → IsSound st s → IsSound st t
  unfolding converted expired deducted recorded
  Change-IsSound (slot sub a g) i = slot-IsSound sub g i
  Change-IsSound (pack pack_gb sub a g) i = pack-IsSound pack_gb sub g i
  Change-IsSound (renewal d b now sub a g) i = renewal-IsSound d b now sub i
  Change-IsSound (conversion d now sub e) i = ground arith
  Change-IsSound (extension days now sub e) i = extension-IsSound days now sub i
  Change-IsSound (move server sub) i = ground arith
  Change-IsSound (sync verified_epoch sub) i = ground arith
  Change-IsSound (expiry sub) i = ground arith
  Change-IsSound (deduction delta up down sub) i = ground arith
  Change-IsSound (reading up down r sub) i = ground arith
  Change-IsSound (bonus bytes sub l g) i = bonus-IsSound bytes sub g i
  Change-IsSound (counters_reset sub l) i = counters_reset-IsSound sub i
  Change-IsSound (deactivation sub) i = ground arith
  Change-IsSound (reset sub) i = ground arith

  -- Under settings that allow a device, a subscription that was created and went through the changes
  -- of `Change`, in whatever order, holds no more packs than its devices may, has no more devices than are allowed,
  -- has used no more of its quota than the quota, and never has its node ahead of the version that
  -- is wanted of it.
  pub Life-IsSound :
      {s : WhiteInternetSubscription} → 1 ≤ Settings.max_device_limit st → Life st s → IsSound st s
  Life-IsSound h (creation id user_id origin uuid d b t now) = ground arith
  Life-IsSound h (change l c) = Change-IsSound c (Life-IsSound h l)
