-- ===== src/WhiteInternet/Metering/Laws.antt =====
-- What the metering counts: nothing is lost or counted twice, and the quota is never overdrawn.
use just1kbot.Prelude.{ℕ, ◌+◌, ◌≤◌, true, ◌≡◌, arith, ◌↔◌}
use just1kbot.Database.{WhiteInternetStatus, TrafficCounters, WhiteInternetSubscription, status_eq}
use just1kbot.WhiteInternet.Repository.{quota, metered, available}
use just1kbot.WhiteInternet.Metering.{overage_of, deducted}

-- The overage is part of what was used, and what was used of the quota is no more than the quota.
abbrev pub IsMetered : WhiteInternetSubscription → Type 0
IsMetered sub =
    (TrafficCounters.overage (WhiteInternetSubscription.traffic sub)
      ≤ TrafficCounters.used (WhiteInternetSubscription.traffic sub))
    × (metered (WhiteInternetSubscription.traffic sub) ≤ quota sub)

-- For a subscription whose counters are sound, a deduction splits the traffic into what the quota
-- pays for and the overage, and the counters stay sound: the quota is never overdrawn.
pub deducted-IsMetered :
    (delta up down : ℕ) (sub : WhiteInternetSubscription)
    → IsMetered sub
    → IsMetered (deducted delta up down sub)
      × (metered (WhiteInternetSubscription.traffic (deducted delta up down sub))
            + overage_of delta sub
          ≡ metered (WhiteInternetSubscription.traffic sub) + delta)
unfolding deducted
deducted-IsMetered delta up down sub (o, m) = ground arith

-- An active subscription whose counters are sound runs out exactly when the traffic is at least what
-- was left of its quota.
deducted-exhausted :
    (delta up down : ℕ) (sub : WhiteInternetSubscription)
    → IsMetered sub
    → WhiteInternetSubscription.status sub ≡ WhiteInternetStatus.active
    → (status_eq
          (WhiteInternetSubscription.status (deducted delta up down sub))
          WhiteInternetStatus.exhausted
        ≡ true)
      ↔ (available sub ≤ delta)
unfolding deducted
deducted-exhausted delta up down sub (o, m) e = ground arith
