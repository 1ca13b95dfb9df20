-- ===== src/WhiteInternet/Admin.antt =====
-- `deactivate_user_subscriptions` and `extend_subscription`, and the service as fulfilment calls it.
pub mod Deactivation
pub mod Fulfilment
use just1kbot.Prelude.{
  ℕ, ◌==◌, Bool, true, false, not, ◌&&◌, Option, none, some, select_where, if◌then◌else◌,
}
use just1kbot.Database.{
  WhiteInternetStatus, User, Server, WhiteInternetSubscription, Db, Result, ok, err, Action, Error,
  pure, ◌>>=◌, ◌>>◌, gets, user_by_id, status_eq,
}
use just1kbot.Fulfillment.Operations.{WhiteInternetService, white_internet_of}
use just1kbot.WhiteInternet.Settings.{Settings, Message}
use just1kbot.WhiteInternet.Repository.{extend_subscription_atomic}
use just1kbot.WhiteInternet.Nodes.{SyncAnswer, server_by_id, try_inline_sync}
use just1kbot.WhiteInternet.Answers.{Answer}
use just1kbot.WhiteInternet.Extras.{purchase_device_slot, topup_quota}
use just1kbot.WhiteInternet.Lifecycle.{Draws, purchase_subscription, renew_subscription}
use just1kbot.WhiteInternet.Trial.{disabled, put_all, dispatch_all}

abbrev is_target : Option ℕ → WhiteInternetSubscription → Bool
is_target none s = true
is_target (some id) s = WhiteInternetSubscription.id s == id

-- The user's subscriptions that are not disabled, or the one of them that is named.
abbrev pub to_deactivate : ℕ → Option ℕ → WhiteInternetSubscription → Bool
to_deactivate user_id target s =
    WhiteInternetSubscription.user_id s == user_id
    && (not (status_eq (WhiteInternetSubscription.status s) WhiteInternetStatus.disabled)
        && is_target target s)

unfoldable pub deactivate_user_subscriptions : ℕ → Option ℕ → Action (Unit {0})
deactivate_user_subscriptions user_id target = do
  subs ← gets (λ db. select_where (to_deactivate user_id target) (Db.subscriptions db))
  put_all disabled subs
  dispatch_all disabled subs

-- `except white_internet_repo.WhiteInternetError`: these are the errors of the repository; a wrong
-- number of days is a ValueError and passes.
abbrev is_white_internet_error : Error → Bool
is_white_internet_error Error.subscription_not_found = true
is_white_internet_error Error.inactive_subscription = true
is_white_internet_error Error.trial_subscription = true
is_white_internet_error Error.device_limit_exceeded = true
is_white_internet_error Error.quota_cap_exceeded = true
is_white_internet_error Error.renewal_horizon_exceeded = true
is_white_internet_error Error.white_internet = true
is_white_internet_error _ = false

sync_active :
    SyncAnswer → Option Server → WhiteInternetSubscription → Action WhiteInternetSubscription
sync_active answer none sub = pure sub
sync_active answer (some s) sub = if s.is_active then try_inline_sync answer sub else pure sub

-- After the change of the row. `committed` is what the rollback goes back to.
after_extension :
    SyncAnswer
    → Db
    → Result WhiteInternetSubscription × Db
    → Result (Answer WhiteInternetSubscription) × Db
unfolding sync_active
after_extension answer committed (ok sub, db) =
    (do
      server ← gets (server_by_id (WhiteInternetSubscription.origin_node_id sub))
      told ← sync_active answer server sub
      pure (true, (Message.extended, some told)))
      db
after_extension answer committed (err e, db) =
    if is_white_internet_error e
    then (ok (false, (Message.failure, none)), committed)
    else (err e, db)

extend_paid :
    SyncAnswer → Db → ℕ → WhiteInternetSubscription → Action (Answer WhiteInternetSubscription)
unfolding after_extension
extend_paid answer committed days sub db =
    if sub.is_trial
    then (ok (false, (Message.trial_extend_forbidden, none)), db)
    else after_extension answer committed (extend_subscription_atomic sub.id days db)

unfoldable pub extend_subscription :
    SyncAnswer → Db → ℕ → ℕ → Action (Answer WhiteInternetSubscription)
unfolding extend_paid
extend_subscription answer committed user_id days db = elim (white_internet_of user_id db) [
  | none ↦ (ok (false, (Message.sub_not_found, none)), db)
  | some sub ↦ extend_paid answer committed days sub db
]

-- The first component of an answer, which fulfilment tests.
abbrev pub succeeded : {A : Type 0} → Action (Answer A) → Action Bool
succeeded m = do (done, _) ← m; pure done

-- The answer and the id of the subscription that comes with it.
abbrev succeeded_with : Action (Answer WhiteInternetSubscription) → Action (Bool × Option ℕ)
succeeded_with m = do
  (done, (_, sub)) ← m
  pure (done, (elim sub [ none ↦ none | some s ↦ some (WhiteInternetSubscription.id s) ]))

abbrev pub own_telegram_id : ℕ → Db → Option ℕ
own_telegram_id user_id db = elim (user_by_id user_id db) [
  | none ↦ none
  | some u ↦ some (User.telegram_id u)
]

-- The calls of services/fulfillment_service.py: the owner acts, and nothing is debited, because the
-- order that is fulfilled is paid.
abbrev pub service : Settings → Draws → WhiteInternetService
service st draws = record {
  purchase_device_slot = λ user_id. do
    actor ← gets (own_telegram_id user_id)
    succeeded (purchase_device_slot st (Draws.order_id draws) user_id actor false);
  topup_quota = λ user_id pack_gb. do
    actor ← gets (own_telegram_id user_id)
    succeeded (topup_quota st (Draws.order_id draws) user_id pack_gb actor false);
  renew_subscription = λ user_id. succeeded_with (renew_subscription st draws user_id false);
  purchase_subscription = λ user_id. succeeded_with (purchase_subscription st draws user_id false);
  deactivate_user_subscriptions = deactivate_user_subscriptions;
}
