-- ===== src/WhiteInternet/Metering/Polling.antt =====
-- A node polled again and again: what the counters add up to.
use just1kbot.Prelude.{
  is_or_is_not, ◌∙◌, ◌&&◌, Bool, false, inl, inr, refl, ℕ, ◌+◌, ◌-◌, ◌<◌, ◌==◌, true, ◌≡◌, sym, ap,
  some, List, [], ◌∷◌, String, arith, first_where, if◌then◌else◌,
}
use just1kbot.Database.{TrafficCounters, WhiteInternetSubscription, Db, ok}
use just1kbot.Fulfillment.Operations.{put_white_internet}
use just1kbot.WhiteInternet.Repository.{subscription_by_id}
use text.Mathlib.TextPositions.{eq_refl}
use just1kbot.WhiteInternet.Metering.{
  Reading, delta_from, recorded, growth, is_same_epoch, before_up, before_down, meter, meter_client,
  baseline, is_client, used_by, answer_of, record_changes, record_and_deduct_traffic_atomic,
}

-- What a reading makes of the row.
unfoldable pub after_reading : Reading → WhiteInternetSubscription → WhiteInternetSubscription
after_reading r sub =
    if growth r sub.traffic == 0
    then sub
    else recorded (r.uplink - before_up r sub.traffic) (r.downlink - before_down r sub.traffic) r
        sub

-- The readings of one process of the node, in turn.
unfoldable pub after_readings : List Reading → WhiteInternetSubscription → WhiteInternetSubscription
after_readings [] sub = sub
after_readings (r ∷ rs) sub = after_readings rs (after_reading r sub)

-- What a counter grew by over its readings, where one that is smaller than the reading before
-- follows a restart at 0.
unfoldable pub total_growth : ℕ → List Reading → ℕ
total_growth before [] = 0
total_growth before (r ∷ rs) = delta_from before r.downlink + total_growth r.downlink rs

-- Every reading is of the epoch and shows some downlink.
unfoldable pub AreOf : String → List Reading → Type 0
AreOf epoch [] = Unit {0}
AreOf epoch (r ∷ rs) = (Reading.node_epoch r ≡ epoch) × ((0 < r.downlink) × AreOf epoch rs)

module _ (r : Reading) (sub : WhiteInternetSubscription) where
  abbrev before : TrafficCounters
  before = WhiteInternetSubscription.traffic sub

  abbrev after : TrafficCounters
  after = WhiteInternetSubscription.traffic (after_reading r sub)

  abbrev increment : ℕ
  increment = delta_from (TrafficCounters.last_downlink_snapshot before) (Reading.downlink r)

  -- A reading of the same epoch that shows some downlink adds its growth to the counter, and the
  -- next reading is compared with it.
  pub after_reading-same_epoch :
      is_same_epoch r before ≡ true
      → 0 < Reading.downlink r
      → (TrafficCounters.downlink after ≡ TrafficCounters.downlink before + increment)
        × ((TrafficCounters.used after ≡ TrafficCounters.used before + increment)
            × (TrafficCounters.last_downlink_snapshot after ≡ Reading.downlink r))
  unfolding after_reading recorded
  after_reading-same_epoch s d = rw (s) (ground arith)

  -- Either way the readings that are kept are of the reading's epoch.
  after_reading-epoch :
      (epoch : String)
      → TrafficCounters.stats_epoch before ≡ some epoch
      → Reading.node_epoch r ≡ epoch
      → TrafficCounters.stats_epoch after ≡ some epoch
  unfolding after_reading recorded
  after_reading-epoch epoch e n = rw (sym n) (ground (arith, e, n))

  same_epoch :
      (epoch : String)
      → TrafficCounters.stats_epoch before ≡ some epoch
      → Reading.node_epoch r ≡ epoch
      → is_same_epoch r before ≡ true
  same_epoch epoch e n = rw (e, n) (eq_refl epoch)

-- However often a process of a node is polled, a subscription's downlink counter and the traffic that
-- is metered grow by exactly what the readings grew by, a restart of the counter included, as long as
-- every reading shows some downlink; nothing is lost between two polls or counted twice.
pub after_readings-total :
    (rs : List Reading) (epoch : String) (sub : WhiteInternetSubscription)
    → TrafficCounters.stats_epoch (WhiteInternetSubscription.traffic sub) ≡ some epoch
    → AreOf epoch rs
    → let t = WhiteInternetSubscription.traffic sub in
      let t' = WhiteInternetSubscription.traffic (after_readings rs sub) in
      let grown = total_growth (TrafficCounters.last_downlink_snapshot t) rs in
      (TrafficCounters.downlink t' ≡ TrafficCounters.downlink t + grown)
      × (TrafficCounters.used t' ≡ TrafficCounters.used t + grown)
unfolding after_readings total_growth AreOf
after_readings-total [] epoch sub e are = (omega arith, omega arith)
after_readings-total (r ∷ rs) epoch sub e (n, (d, are)) =
    let step = after_reading-same_epoch r sub (same_epoch r sub epoch e n) d in
    let rest =
      after_readings-total rs epoch (after_reading r sub) (after_reading-epoch r sub epoch e n)
        are in
    let again = ap (λ x. total_growth x rs) step.1.1 in
    (omega (arith, rest.0, step.0, again), omega (arith, rest.1, step.1.0, again))

delta-baseline :
    (is_same : Bool) (snapshot reading : ℕ)
    → delta_from (baseline is_same snapshot reading) reading
      ≡ reading - baseline is_same snapshot reading
delta-baseline is_same snapshot reading = ground arith

record_changes-grown :
    (up down : ℕ) (r : Reading) (sub : WhiteInternetSubscription) (db : Db)
    → (up + down == 0) ≡ false
    → record_changes up down r sub db
      ≡ (ok (answer_of up down r sub), put_white_internet (recorded up down r sub) db)
unfolding record_changes
record_changes-grown up down r sub db g =
    let some_grew : (up == 0 && down == 0) ≡ false = ground arith in rw (some_grew) refl

-- A reading that grew is recorded with the differences to its baselines.
record_and_deduct-grown :
    (r : Reading) (sub : WhiteInternetSubscription) (db : Db)
    → let t = WhiteInternetSubscription.traffic sub in
      let up = Reading.uplink r - before_up r t in
      let down = Reading.downlink r - before_down r t in
      subscription_by_id (WhiteInternetSubscription.id sub) db ≡ some sub
      → (growth r t == 0) ≡ false
      → record_and_deduct_traffic_atomic
          (WhiteInternetSubscription.id sub)
          r
          (some (before_up r t))
          (some (before_down r t))
          db
        ≡ (ok (answer_of up down r sub), put_white_internet (recorded up down r sub) db)
unfolding record_and_deduct_traffic_atomic
record_and_deduct-grown r sub db l g =
    let t = WhiteInternetSubscription.traffic sub in
    let u : delta_from (before_up r t) (Reading.uplink r) ≡ Reading.uplink r - before_up r t =
      delta-baseline (is_same_epoch r t) (TrafficCounters.last_uplink_snapshot t)
        (Reading.uplink r) in
    let d : delta_from (before_down r t) (Reading.downlink r)
        ≡ Reading.downlink r - before_down r t =
      delta-baseline (is_same_epoch r t) (TrafficCounters.last_downlink_snapshot t)
        (Reading.downlink r) in
    rw (l) (
      ap (λ x. record_changes x (delta_from (before_down r t) (Reading.downlink r)) r sub db) u
      ∙ (ap (λ x. record_changes (Reading.uplink r - before_up r t) x r sub db) d
          ∙ record_changes-grown (Reading.uplink r - before_up r t)
              (Reading.downlink r - before_down r t) r sub db g))

-- The worker's transaction for a client of the node writes the row that `after_reading` gives, adds
-- what was consumed, the growth of the downlink, to the owner's totals, and changes nothing else; where
-- neither counter grew it changes nothing. This holds where the row that is locked by its id is the
-- client's.
pub meter_client-after_reading :
    (current_cycle server_id : ℕ) (client_uuid : String) (r : Reading)
    (sub : WhiteInternetSubscription) (db : Db)
    → first_where (is_client client_uuid server_id) (Db.subscriptions db) ≡ some sub
    → subscription_by_id (WhiteInternetSubscription.id sub) db ≡ some sub
    → (meter_client current_cycle server_id client_uuid r db).1 ≡ (
        if growth r (WhiteInternetSubscription.traffic sub) == 0
        then db
        else used_by current_cycle
            (WhiteInternetSubscription.user_id sub)
            (Reading.downlink r - before_down r (WhiteInternetSubscription.traffic sub))
            (put_white_internet (after_reading r sub) db))
unfolding meter_client meter after_reading answer_of
meter_client-after_reading current_cycle server_id client_uuid r sub db f l =
    let t = WhiteInternetSubscription.traffic sub in
    elim (is_or_is_not (growth r t == 0)) [
      | inl z ↦ rw (f, meter_client) (rw (z, meter) refl)
      | inr g ↦
          rw (f, meter_client) (rw (g, meter) (rw (record_and_deduct-grown r sub db l g) refl))
    ]
