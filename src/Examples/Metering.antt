-- ===== src/Examples/Metering.antt =====
-- Traffic and reconciliation at concrete inputs.
use just1kbot.Prelude.{
  ◌-◌, ◌+◌, ◌*◌, ◌==◌, ◌≤◌, true, false, List, [], ◌∷◌, ◌≡◌, refl, arith, if◌then◌else◌,
}
use just1kbot.Database.{TrafficCounters, WhiteInternetSubscription}
use just1kbot.Dates.{day}
use just1kbot.Fulfillment.Operations.{put_white_internet}
use just1kbot.WhiteInternet.Repository.{metered}
use just1kbot.WhiteInternet.Metering.{
  used_by, before_down, Reading, deducted, overage_of, growth, meter_client,
}
use just1kbot.WhiteInternet.Metering.Laws.{IsMetered, deducted-IsMetered}
use just1kbot.WhiteInternet.Metering.Polling.{
  after_reading, after_readings, total_growth, AreOf, after_readings-total,
  meter_client-after_reading,
}
use just1kbot.WhiteInternet.Changes.{IsSound}
use just1kbot.WhiteInternet.Reconciliation.{Report, reconciled, task_of, is_selected}
use just1kbot.WhiteInternet.Reconciliation.Convergence.{reconciled-IsSound, reconciled-settles}
use just1kbot.Examples.Extras.{counters, settings, subscription, wi_shop}

deducted-IsMetered_example :
    IsMetered (deducted 53687091300 100 53687091200 subscription)
    × (metered
            (WhiteInternetSubscription.traffic (deducted 53687091300 100 53687091200 subscription))
          + overage_of 53687091300 subscription
        ≡ metered (WhiteInternetSubscription.traffic subscription) + 53687091300)
deducted-IsMetered_example =
    deducted-IsMetered 53687091300 100 53687091200 subscription (omega arith, omega arith)

-- The second reading comes after a restart of the counter.
abbrev readings : List Reading
readings =
    (record { node_epoch = "e1"; uplink = 20; downlink = 1500 })
    ∷ (record { node_epoch = "e1"; uplink = 5; downlink = 40 })
    ∷ []

after_readings-total_example :
    (TrafficCounters.downlink
        (WhiteInternetSubscription.traffic (after_readings readings subscription))
      ≡ 1000 + total_growth 1000 readings)
    × (TrafficCounters.used
          (WhiteInternetSubscription.traffic (after_readings readings subscription))
        ≡ 1000 + total_growth 1000 readings)
unfolding AreOf
after_readings-total_example =
    after_readings-total readings "e1" subscription refl
      (refl, (omega arith, (refl, (omega arith, tt))))

abbrev reading : Reading
reading = record { node_epoch = "e1"; uplink = 20; downlink = 1500 }

meter_client-after_reading_example : (meter_client 24319 7 "u-5" reading wi_shop).1 ≡ (
    if growth reading (WhiteInternetSubscription.traffic subscription) == 0
    then wi_shop
    else used_by 24319 1
        (1500 - before_down reading counters)
        (put_white_internet (after_reading reading subscription) wi_shop))
meter_client-after_reading_example =
    meter_client-after_reading 24319 7 "u-5" reading subscription wi_shop refl refl

abbrev waiting_sub : WhiteInternetSubscription
waiting_sub = record subscription { desired_version = 5 }

reconciled-IsSound_example :
    IsSound settings
      (reconciled (task_of "e1" (100 * day) waiting_sub) (Report.applied true "e1") waiting_sub)
    × (5
        ≤ WhiteInternetSubscription.desired_version (
            reconciled
              (task_of "e1" (100 * day) waiting_sub)
              (Report.applied true "e1")
              waiting_sub))
unfolding task_of
reconciled-IsSound_example =
    reconciled-IsSound settings (task_of "e1" (100 * day) waiting_sub) (Report.applied true "e1")
      waiting_sub (omega arith) (ground arith)

reconciled-settles_example :
    (is_selected "e1"
        (101 * day)
        (reconciled (task_of "e1" (100 * day) waiting_sub) (Report.applied true "e1") waiting_sub)
      ≡ false)
    × (is_selected "e1" (101 * day) (
          reconciled (task_of "e1" (100 * day) waiting_sub) (Report.already_newer true) waiting_sub)
        ≡ false)
reconciled-settles_example =
    reconciled-settles "e1" (100 * day) (101 * day) waiting_sub (omega arith) (omega arith)
      (omega arith)
