-- ===== src/WhiteInternet/Reconciliation/Convergence.antt =====
-- What a round of reconciliation comes to.
use text.Mathlib.TextPositions.{eq_refl}
use just1kbot.Prelude.{String, suc, ◌≤◌, true, false, ◌≡◌, none, arith, ◌⊎◌}
use just1kbot.Database.{
  WhiteInternetStatus, ProvisioningStatus, Instant, WhiteInternetSubscription, is_live,
}
use just1kbot.WhiteInternet.Settings.{Settings}
use just1kbot.WhiteInternet.Repository.{expired}
use just1kbot.WhiteInternet.Changes.{IsSound}
use just1kbot.WhiteInternet.Reconciliation.{
  is_selected, prepared, Task, task_of, Report, applied, already_newer, reconciled, may_delete,
}

-- Whatever a node answers, and however the row has moved on since the task was made, the row stays
-- sound: its node is never taken to be ahead of what is wanted, and the version that is wanted never
-- goes back.
pub reconciled-IsSound :
    (st : Settings) (task : Task) (report : Report) (sub : WhiteInternetSubscription)
    → Task.target_version task ≤ WhiteInternetSubscription.desired_version sub
    → IsSound st sub
    → IsSound st (reconciled task report sub)
      × (WhiteInternetSubscription.desired_version sub
          ≤ WhiteInternetSubscription.desired_version (reconciled task report sub))
unfolding reconciled
reconciled-IsSound st task report sub t i = ground arith

-- The task that is made for a subscription at or past its end asks the node to disable the client.
task_of-overdue :
    (epoch : String) (now : Instant) (sub : WhiteInternetSubscription)
    → WhiteInternetSubscription.expires_at sub ≤ now
    → (Task.desired_active (task_of epoch now (prepared now sub)) ≡ false)
      × (is_live (WhiteInternetSubscription.status (prepared now sub)) ≡ false)
unfolding task_of prepared expired
task_of-overdue epoch now sub h = ground arith

-- When a node's process confirms what the worker asked for, be it by an applied sync or, after
-- `already_newer`, by its inventory, the subscription is settled: until its end no later round with the
-- same process selects it again. This holds for a row that has not moved on since the task was made,
-- whose node is not ahead of what is wanted.
pub reconciled-settles :
    (epoch : String) (now later : Instant) (sub : WhiteInternetSubscription)
    → suc now ≤ WhiteInternetSubscription.expires_at sub
    → suc later ≤ WhiteInternetSubscription.expires_at sub
    → WhiteInternetSubscription.actual_version sub ≤ WhiteInternetSubscription.desired_version sub
    → (is_selected epoch later (reconciled (task_of epoch now sub) (applied true epoch) sub)
        ≡ false)
      × (is_selected epoch later (reconciled (task_of epoch now sub) (already_newer true) sub)
          ≡ false)
unfolding is_selected reconciled task_of
reconciled-settles epoch now later sub h l v = ground (arith, eq_refl epoch)

-- A trial that was reset is deleted only when its subscription is disabled and no node may still serve
-- its client: the node confirmed the version that is wanted as inactive, or there is no node.
may_delete-confirmed :
    (sub : WhiteInternetSubscription)
    → may_delete sub ≡ true
    → (WhiteInternetSubscription.status sub ≡ WhiteInternetStatus.disabled)
      × (((WhiteInternetSubscription.provisioning_status sub ≡ ProvisioningStatus.synced_inactive)
            × (WhiteInternetSubscription.actual_version sub
                ≡ WhiteInternetSubscription.desired_version sub))
          ⊎ (WhiteInternetSubscription.origin_node_id sub ≡ none))
unfolding may_delete
may_delete-confirmed sub h = ground arith
