-- ===== src/Examples/Access.antt =====
-- Devices, credentials, onboarding, rate limiting and bans at concrete inputs.
use just1kbot.Prelude.{
  ℕ, ◌+◌, ◌-◌, ◌*◌, ◌≤◌, true, none, some, [], ◌∷◌, ◌≡◌, refl, arith, length, count_where,
}
use just1kbot.Database.{VlessSubscription, Db, ok}
use just1kbot.Dates.{day}
use just1kbot.Vless.Credentials.{is_in, rotated, rotated-revokes}
use just1kbot.RateLimit.{HttpRateLimiter, check}
use just1kbot.RateLimit.Bounds.{check-IsBounded}
use just1kbot.RateLimit.Rate.{unit, exact, let_through, let_through-rate}
use just1kbot.WhiteInternet.Admin.{to_deactivate}
use just1kbot.Ban.{ban_locked, banned, is_open}
use just1kbot.Ban.Complete.{ban_locked-closes}
use just1kbot.Subscription.Onboarding.{get_user_by_telegram_id_any, process_onboarding}
use just1kbot.Subscription.Onboarding.Binding.{IsAcyclic, process_onboarding-IsAcyclic}
use just1kbot.Subscription.Referrer.{referred_by}
use just1kbot.Subscription.Referrer.Acyclic.{Above, direct, via}
use just1kbot.Database.{get_user_by_telegram_id}
use just1kbot.Examples.Data.{customer, referrer, shop}
use just1kbot.Examples.Extras.{wi_shop}

abbrev vless : VlessSubscription
vless = record {
  id = 3;
  user_id = 1;
  token = "t-1";
  uuid = "v-1";
  is_active = true;
  version = 1;
  active_hwids = (record { hwid = "phone"; last_seen = 99 * day }) ∷ [];
  pending_revoked_uuids = "v-0" ∷ [];
}

abbrev vless_shop : Db
vless_shop = record wi_shop { vless_subscriptions = vless ∷ [] }

rotated-revokes_example :
    (2 ≤ VlessSubscription.version (rotated "v-2" vless))
    × ((is_in "v-1" (VlessSubscription.pending_revoked_uuids (rotated "v-2" vless)) ≡ true)
        × (is_in "v-0" ("v-0" ∷ []) ≡ true
            → is_in "v-0" (VlessSubscription.pending_revoked_uuids (rotated "v-2" vless)) ≡ true))
rotated-revokes_example = rotated-revokes "v-2" "v-0" vless refl

abbrev limiter : HttpRateLimiter exact
limiter = record {
  rate = 10;
  burst = 10 * unit;
  max_entries = 2;
  buckets =
      (record { key = "a"; tokens = unit; last_refill = 0 })
      ∷ (record { key = "b"; tokens = unit; last_refill = 5 })
      ∷ [];
  last_cleanup = 0;
}

check-IsBounded_example :
    (length (HttpRateLimiter.buckets (check exact "c" 10 limiter).1) ≤ 2)
    × (HttpRateLimiter.max_entries (check exact "c" 10 limiter).1 ≡ 2)
check-IsBounded_example = check-IsBounded exact "c" 10 limiter (omega arith) (omega arith)

let_through-rate_example :
    (let_through "c" (10 ∷ 20 ∷ 6000020 ∷ []) limiter).0 * unit ≤ 10 * unit + (6000020 - 10) * 10
let_through-rate_example =
    let_through-rate "c" 10 10 (20 ∷ 6000020 ∷ []) limiter 6000020 refl
      (omega arith, (omega arith, omega arith))

ban_locked-closes_example :
    ((ban_locked "v-2" customer vless_shop).0 ≡ ok (true, banned))
    × (count_where (is_open 1) (Db.orders (ban_locked "v-2" customer vless_shop).1) ≡ 0)
    × (count_where
          (to_deactivate 1 none)
          (Db.subscriptions (ban_locked "v-2" customer vless_shop).1)
        ≡ 0)
ban_locked-closes_example = ban_locked-closes "v-2" customer vless_shop

abbrev old_users : Db
old_users = record shop { users = (record referrer { referred_by = none }) ∷ [] }

old_users-IsAcyclic : (a : ℕ) → ¬ (Above old_users a a)
unfolding referred_by get_user_by_telegram_id
old_users-IsAcyclic a (direct e) = ground (arith, e)
old_users-IsAcyclic a (via r e u) = ground (arith, e)

process_onboarding-IsAcyclic_example : IsAcyclic (process_onboarding 1005 (some 1002) old_users).1
unfolding get_user_by_telegram_id_any
process_onboarding-IsAcyclic_example =
    process_onboarding-IsAcyclic old_users old_users-IsAcyclic 1005 (some 1002)
      (λ user e. ground (arith, e))
