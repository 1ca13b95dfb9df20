-- ===== src/WhiteInternet/Reconciliation.antt =====
-- services/workers/white_internet_reconciliation.py: the worker that brings the nodes to what the
-- database wants of them, and the row's end in `finalize_hard_delete_subscription`.
pub mod Convergence
use just1kbot.Prelude.{
  String, str_eq, ℕ, ◌+◌, ltb, leb, ◌==◌, Bool, true, false, not, ◌&&◌, ◌||◌, Option, none, some,
  List, [], ◌∷◌, select_where, if◌then◌else◌,
}
use just1kbot.Database.{
  WhiteInternetStatus, ProvisioningStatus, Instant, WhiteInternetSubscription,
  WhiteInternetOrphanCleanup, Db, Action, pure, ◌>>=◌, ◌>>◌, gets, modify, is_live, is_transitional,
  status_eq,
}
use just1kbot.WhiteInternet.Repository.{subscription_by_id, expired}

-- `status in (PENDING, ACTIVE, EXHAUSTED) and expires_at <= now`
abbrev pub is_overdue : Instant → WhiteInternetSubscription → Bool
is_overdue now sub =
    is_live (WhiteInternetSubscription.status sub)
    && leb (WhiteInternetSubscription.expires_at sub) now

-- The row was last reconciled with the process of the epoch.
abbrev pub is_reconciled_with : String → WhiteInternetSubscription → Bool
is_reconciled_with target_epoch sub =
    elim (WhiteInternetSubscription.last_reconciled_node_epoch sub) [
      | none ↦ false
      | some e ↦ str_eq e target_epoch
    ]

-- The query of a node's subscriptions, with the epoch of the node's present process.
unfoldable pub is_selected : String → Instant → WhiteInternetSubscription → Bool
is_selected target_epoch now sub =
    not (sub.actual_version == sub.desired_version)
    || (not (is_reconciled_with target_epoch sub)
        || (is_transitional sub.provisioning_status || is_overdue now sub))

-- An overdue subscription is expired before its task is made.
unfoldable pub prepared : Instant → WhiteInternetSubscription → WhiteInternetSubscription
prepared now sub = if is_overdue now sub then expired sub else sub

abbrev pub is_open : WhiteInternetStatus → Bool
is_open WhiteInternetStatus.pending = true
is_open WhiteInternetStatus.active = true
is_open _ = false

pub record Task : Type 0 where
  pub sub_id : ℕ
  pub desired_active : Bool
  pub target_version : ℕ
  pub target_epoch : String

unfoldable pub task_of : String → Instant → WhiteInternetSubscription → Task
task_of target_epoch now sub = record {
  sub_id = sub.id;
  desired_active = is_open sub.status && ltb now sub.expires_at;
  target_version = sub.desired_version;
  target_epoch = target_epoch;
}

-- What the node answers to a sync: whether the inbounds of an applied one are there and its verified
-- epoch, which is the target's where the answer has none, and whether the
-- inventory that is asked for after `already_newer` shows what is wanted.
pub data Report : Type 0 where
  applied : Bool → String → Report
  already_newer : Bool → Report
  fenced failed : Report

abbrev pub waiting : WhiteInternetSubscription → WhiteInternetSubscription
waiting sub = record sub { provisioning_status = ProvisioningStatus.pending_update }

abbrev max_ℕ : ℕ → ℕ → ℕ
max_ℕ a b = if ltb a b then b else a

-- `max(sub.desired_version, target_version) + 1`
abbrev pub bumped : ℕ → WhiteInternetSubscription → WhiteInternetSubscription
bumped target sub = record sub {
  desired_version = max_ℕ (WhiteInternetSubscription.desired_version sub) target + 1;
  provisioning_status = ProvisioningStatus.pending_update;
}

abbrev activated : Bool → WhiteInternetStatus → WhiteInternetStatus
activated true WhiteInternetStatus.pending = WhiteInternetStatus.active
activated _ s = s

abbrev pub confirmed : Bool → ℕ → String → WhiteInternetSubscription → WhiteInternetSubscription
confirmed desired_active version epoch sub = record sub {
  actual_version = version;
  last_reconciled_node_epoch = some epoch;
  status = activated desired_active (WhiteInternetSubscription.status sub);
  provisioning_status =
      if desired_active then ProvisioningStatus.active else ProvisioningStatus.synced_inactive;
}

-- The row after the node's answer. The row may have changed since the task was made: an applied sync
-- counts only for the version that is still wanted.
unfoldable pub reconciled : Task → Report → WhiteInternetSubscription → WhiteInternetSubscription
reconciled task (applied are_inbounds verified_epoch) sub =
    if sub.desired_version == task.target_version
      && (are_inbounds && str_eq verified_epoch task.target_epoch)
    then confirmed task.desired_active task.target_version verified_epoch sub
    else waiting sub
reconciled task (already_newer true) sub =
    confirmed task.desired_active (max_ℕ sub.actual_version task.target_version) task.target_epoch
      sub
reconciled task (already_newer false) sub = bumped task.target_version sub
reconciled task fenced sub = bumped task.target_version sub
reconciled task failed sub = waiting sub

-- `finalize_hard_delete_subscription`, on the row.
unfoldable pub may_delete : WhiteInternetSubscription → Bool
may_delete sub =
    sub.pending_hard_delete
    && (status_eq sub.status WhiteInternetStatus.disabled
        && ((elim sub.provisioning_status [ ProvisioningStatus.synced_inactive ↦ true | _ ↦ false ])
              && sub.actual_version == sub.desired_version
            || (elim sub.origin_node_id [ none ↦ true | some id ↦ false ])))

abbrev without : ℕ → Db → Db
without id db = record db {
  subscriptions =
      select_where (λ s. not (WhiteInternetSubscription.id s == id)) (Db.subscriptions db);
}

unfoldable pub finalize_hard_delete_subscription : ℕ → Action Bool
finalize_hard_delete_subscription subscription_id db =
    elim (subscription_by_id subscription_id db) [
      | none ↦ pure false db
      | some sub ↦
          if may_delete sub
          then (do modify (without subscription_id); pure true) db
          else pure false db
    ]
