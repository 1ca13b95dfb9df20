-- ===== src/WhiteInternet/Metering.antt =====
-- The metering of traffic: `deduct_traffic_atomic` and `record_and_deduct_traffic_atomic` of
-- database/repositories/white_internet_repo.py, and what services/workers/white_internet_traffic.py
-- does with one client's counters.
pub mod Laws
pub mod Polling
use just1kbot.Prelude.{
  update_where, ℕ, ◌+◌, ◌-◌, ◌*◌, ltb, leb, ◌==◌, Bool, true, false, not, ◌&&◌, ◌||◌, Option, none,
  some, List, [], ◌∷◌, String, str_eq, first_where, if◌then◌else◌,
}
use just1kbot.Database.{
  User, TrafficUsage, WhiteInternetStatus, ProvisioningStatus, TrafficCounters,
  WhiteInternetSubscription, Db, Action, Error, pure, ◌>>=◌, ◌>>◌, gets, modify, status_eq,
}
use just1kbot.Ledger.Entries.{sql_eq}
use just1kbot.Fulfillment.Operations.{put_white_internet}
use just1kbot.WhiteInternet.Repository.{quota, metered, available, locked}

-- `status in (DISABLED, EXPIRED)`: nothing is taken from the quota, all is overage.
abbrev pub is_closed : WhiteInternetStatus → Bool
is_closed WhiteInternetStatus.disabled = true
is_closed WhiteInternetStatus.expired = true
is_closed _ = false

-- `max(0, delta - available_before)`, or all.
abbrev pub overage_of : ℕ → WhiteInternetSubscription → ℕ
overage_of delta sub =
    if is_closed (WhiteInternetSubscription.status sub) then delta else delta - available sub

abbrev pub counted : ℕ → ℕ → ℕ → WhiteInternetSubscription → WhiteInternetSubscription
counted delta up down sub = record sub {
  traffic = record (WhiteInternetSubscription.traffic sub) {
    used = TrafficCounters.used (WhiteInternetSubscription.traffic sub) + delta;
    overage =
        TrafficCounters.overage (WhiteInternetSubscription.traffic sub) + overage_of delta sub;
    uplink = TrafficCounters.uplink (WhiteInternetSubscription.traffic sub) + up;
    downlink = TrafficCounters.downlink (WhiteInternetSubscription.traffic sub) + down;
  };
}

-- `available_after == 0 and status == ACTIVE`
abbrev pub runs_out : WhiteInternetSubscription → Bool
runs_out sub =
    available sub == 0
    && status_eq (WhiteInternetSubscription.status sub) WhiteInternetStatus.active

abbrev pub exhausted : WhiteInternetSubscription → WhiteInternetSubscription
exhausted sub = record sub {
  status = WhiteInternetStatus.exhausted;
  desired_version = WhiteInternetSubscription.desired_version sub + 1;
  provisioning_status = ProvisioningStatus.pending_update;
}

unfoldable pub deducted : ℕ → ℕ → ℕ → WhiteInternetSubscription → WhiteInternetSubscription
deducted delta up down sub =
    if runs_out (counted delta up down sub)
    then exhausted (counted delta up down sub)
    else counted delta up down sub

-- The arguments are numbers of bytes; the code takes a negative one for 0. What is returned is what
-- was consumed of the quota, whether it ran out, and the overage.
unfoldable pub deduct_traffic_atomic : ℕ → ℕ → ℕ → ℕ → Action (ℕ × (Bool × ℕ))
deduct_traffic_atomic subscription_id delta_bytes delta_uplink delta_downlink db =
    if delta_bytes == 0
    then pure (0, (false, 0)) db
    else (do
      sub ← locked subscription_id
      modify (put_white_internet (deducted delta_bytes delta_uplink delta_downlink sub))
      pure (
        delta_bytes - overage_of delta_bytes sub,
        (
          runs_out (counted delta_bytes delta_uplink delta_downlink sub),
          overage_of delta_bytes sub,
        ),
      ))
        db

-- A reading of a node: its process's epoch, and a client's two counters.
pub record Reading : Type 0 where
  pub node_epoch : String
  pub uplink : ℕ
  pub downlink : ℕ

-- `after - before`, or `after` where the counter went back.
abbrev pub delta_from : ℕ → ℕ → ℕ
delta_from before after = if ltb after before then after else after - before

abbrev pub or_snapshot : Option ℕ → ℕ → ℕ
or_snapshot none snapshot = snapshot
or_snapshot (some before) snapshot = before

abbrev pub snapped : Reading → WhiteInternetSubscription → WhiteInternetSubscription
snapped r sub = record sub {
  traffic = record (WhiteInternetSubscription.traffic sub) {
    last_uplink_snapshot = Reading.uplink r;
    last_downlink_snapshot = Reading.downlink r;
    stats_epoch = some (Reading.node_epoch r);
  };
}

pub data Event : Type 0 where
  traffic_90p : Event

-- `used_after >= 0.90 * total_quota`, exactly.
abbrev is_at_90p : WhiteInternetSubscription → Bool
is_at_90p sub =
    ltb 0 (quota sub)
    && (status_eq (WhiteInternetSubscription.status sub) WhiteInternetStatus.active
        && (not (WhiteInternetSubscription.reminders sub).notified_90p
            && leb (quota sub * 9) (metered (WhiteInternetSubscription.traffic sub) * 10)))

abbrev noted_90p : WhiteInternetSubscription → WhiteInternetSubscription
noted_90p sub = record sub {
  reminders = record (WhiteInternetSubscription.reminders sub) { notified_90p = true };
}

-- Only the downlink is metered.
unfoldable pub recorded : ℕ → ℕ → Reading → WhiteInternetSubscription → WhiteInternetSubscription
recorded up down r sub =
    if runs_out (counted down up down sub)
    then noted_90p (exhausted (snapped r (counted down up down sub)))
    else snapped r (counted down up down sub)

unfoldable pub answer_of :
    ℕ → ℕ → Reading → WhiteInternetSubscription → ℕ × (Bool × (ℕ × Option Event))
answer_of up down r sub = (
  down,
  (
    runs_out (counted down up down sub),
    (
      available (counted down up down sub),
      (if runs_out (counted down up down sub)
          then none
          else if is_at_90p (counted down up down sub)
          then some traffic_90p
          else none),
    ),
  ),
)

unfoldable pub record_changes :
    ℕ → ℕ → Reading → WhiteInternetSubscription → Action (ℕ × (Bool × (ℕ × Option Event)))
record_changes up down r sub db =
    if up == 0 && down == 0
    then pure (0, (false, (available sub, none))) db
    else (do modify (put_white_internet (recorded up down r sub)); pure (answer_of up down r sub))
        db

unfoldable pub record_and_deduct_traffic_atomic :
    ℕ → Reading → Option ℕ → Option ℕ → Action (ℕ × (Bool × (ℕ × Option Event)))
unfolding record_changes
record_and_deduct_traffic_atomic subscription_id r before_up before_down = do
  sub ← locked subscription_id
  let t = WhiteInternetSubscription.traffic sub
  record_changes
      (delta_from (or_snapshot before_up (TrafficCounters.last_uplink_snapshot t)) r.uplink)
      (delta_from (or_snapshot before_down (TrafficCounters.last_downlink_snapshot t)) r.downlink) r
      sub

-- The baseline of the worker: nothing after a change of epoch, and nothing for a counter that went
-- back within an epoch.
abbrev pub is_same_epoch : Reading → TrafficCounters → Bool
is_same_epoch r t = elim (TrafficCounters.stats_epoch t) [
  | none ↦ false
  | some e ↦ str_eq e (Reading.node_epoch r)
]

abbrev pub baseline : Bool → ℕ → ℕ → ℕ
baseline is_same snapshot reading =
    if is_same then (if ltb reading snapshot then 0 else snapshot) else 0

abbrev pub before_up : Reading → TrafficCounters → ℕ
before_up r t =
    baseline (is_same_epoch r t) (TrafficCounters.last_uplink_snapshot t) (Reading.uplink r)

abbrev pub before_down : Reading → TrafficCounters → ℕ
before_down r t =
    baseline (is_same_epoch r t) (TrafficCounters.last_downlink_snapshot t) (Reading.downlink r)

-- `delta_up + delta_down`
abbrev pub growth : Reading → TrafficCounters → ℕ
growth r t = (Reading.uplink r - before_up r t) + (Reading.downlink r - before_down r t)

abbrev is_client : String → ℕ → WhiteInternetSubscription → Bool
is_client client_uuid server_id s =
    str_eq (WhiteInternetSubscription.uuid s) client_uuid
    && sql_eq (WhiteInternetSubscription.origin_node_id s) (some server_id)

-- The month is `now.strftime("%Y-%m")`; a null `traffic_cycle` compares as neither later nor equal.
abbrev pub is_later_cycle : ℕ → TrafficUsage → Bool
is_later_cycle current_cycle u = elim (TrafficUsage.traffic_cycle u) [
  | none ↦ false
  | some c ↦ ltb current_cycle c
]

abbrev pub is_same_cycle : ℕ → TrafficUsage → Bool
is_same_cycle current_cycle u = elim (TrafficUsage.traffic_cycle u) [
  | none ↦ false
  | some c ↦ c == current_cycle
]

unfoldable pub counted_usage : ℕ → ℕ → TrafficUsage → TrafficUsage
counted_usage current_cycle consumed u = record {
  total_wi_traffic_bytes = u.total_wi_traffic_bytes + consumed;
  monthly_wi_bytes =
      if is_later_cycle current_cycle u
      then u.monthly_wi_bytes
      else if is_same_cycle current_cycle u
      then u.monthly_wi_bytes + consumed
      else consumed;
  monthly_vless_bytes =
      if is_later_cycle current_cycle u || is_same_cycle current_cycle u
      then u.monthly_vless_bytes
      else 0;
  traffic_cycle = if is_later_cycle current_cycle u then u.traffic_cycle else some current_cycle;
}

-- `if consumed > 0 and sub.user_id`: the owner's totals.
unfoldable pub used_by : ℕ → ℕ → ℕ → Db → Db
used_by current_cycle user_id consumed db =
    if ltb 0 consumed && not (user_id == 0)
    then record db {
      users =
          update_where (λ u. User.id u == user_id)
            (λ u. record u { usage = counted_usage current_cycle consumed (User.usage u) })
            db.users;
    }
    else db

-- The worker's 90% test, where nothing grew and nothing is recorded.
abbrev pub Outcome : Type 0
Outcome = Option (ℕ × (Bool × (ℕ × Option Event)))

unfoldable pub meter : ℕ → Reading → WhiteInternetSubscription → Action Outcome
meter current_cycle r sub db =
    if growth r sub.traffic == 0
    then pure (if is_at_90p sub then some (0, (false, (available sub, some traffic_90p))) else none)
        db
    else (do
      answer ←
          record_and_deduct_traffic_atomic sub.id r (some (before_up r sub.traffic))
            (some (before_down r sub.traffic))
      modify (used_by current_cycle sub.user_id answer.0)
      pure (some answer))
        db

-- One entry of a node's `users_stats`, in its own transaction.
unfoldable pub meter_client : ℕ → ℕ → String → Reading → Action Outcome
meter_client current_cycle server_id client_uuid r db =
    elim (first_where (is_client client_uuid server_id) (Db.subscriptions db)) [
      | none ↦ pure none db
      | some sub ↦ meter current_cycle r sub db
    ]
