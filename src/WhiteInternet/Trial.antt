-- ===== src/WhiteInternet/Trial.antt =====
-- `create_trial_subscription` and `reset_user_trial`: one trial for a user, until it is reset.
pub mod Once
use just1kbot.Prelude.{
  ℕ, ◌+◌, ◌*◌, ltb, ◌==◌, pos, Bool, true, false, ◌&&◌, ◌||◌, Option, none, some, List, [], ◌∷◌,
  String, select_where, if◌then◌else◌,
}
use just1kbot.Database.{
  ServiceType, WhiteInternetStatus, ProvisioningStatus, Instant, User, Tariff, Operation, Terms,
  OrderMetadata, Order, Server, WhiteInternetSubscription, Db, Action, pure, ◌>>=◌, ◌>>◌, gets,
  modify, is_paid, is_live, service_eq, put_user, user_by_id,
}
use just1kbot.Dates.{microseconds}
use just1kbot.Ledger.Balance.{lock_checkout_user}
use just1kbot.Fulfillment.Operations.{white_internet_of, put_white_internet}
use just1kbot.WhiteInternet.Settings.{Settings, Message}
use just1kbot.WhiteInternet.Nodes.{
  server_by_id, allocate_origin_server_atomic, dispatch_deprovision,
}
use just1kbot.WhiteInternet.Checkout.{
  Purchase, checkout_wallet_order, get_or_create_white_internet_tariff,
}
use just1kbot.WhiteInternet.Answers.{Answer, refuse_if, or_refuse}
use just1kbot.WhiteInternet.Lifecycle.{Draws, is_leaving, give_subscription}

-- `Order.created_at > user.last_trial_reset_at`
abbrev is_after : Option Instant → Instant → Bool
is_after none created_at = true
is_after (some reset) created_at = ltb reset created_at

-- A trial's order, paid since the last reset.
abbrev pub is_trial_order : ℕ → Option Instant → Order → Bool
is_trial_order user_id reset o =
    Order.user_id o == user_id
    && (service_eq (Order.service_type o) ServiceType.white_internet
        && (is_paid (Order.status o)
            && (is_after reset (Order.created_at o)
                && Terms.is_trial (OrderMetadata.terms (Order.metadata o)))))

abbrev last_reset : Option User → Option Instant
last_reset none = none
last_reset (some u) = User.last_trial_reset_at u

any_where : {A : Type 0} → (A → Bool) → List A → Bool
any_where p [] = false
any_where p (x ∷ xs) = p x || any_where p xs

unfoldable pub has_ever_activated_trial : ℕ → Db → Bool
unfolding any_where
has_ever_activated_trial user_id db =
    any_where (is_trial_order user_id (last_reset (user_by_id user_id db))) db.orders

abbrev pub trial_purchase : Settings → ℕ → Tariff → Purchase
trial_purchase st order_id tariff = record {
  id = order_id;
  tariff_id = some (Tariff.id tariff);
  amount_due = pos 0;
  duration_days = Settings.trial_duration_days st;
  traffic_bytes = 0;
  device_limit = 1;
  operation = Operation.trial;
  is_trial = true;
}

abbrev pub trial_on : Settings → Draws → User → Server → Action (Answer WhiteInternetSubscription)
trial_on st draws user origin = do
  tariff ← get_or_create_white_internet_tariff st
  checkout_wallet_order user (trial_purchase st (Draws.order_id draws) tariff)
  give_subscription draws (User.id user) (Server.id origin) (Settings.trial_duration_days st)
      (Settings.trial_traffic_bytes st) true Message.trial_activated

unfoldable pub new_trial : Settings → Draws → User → Action (Answer WhiteInternetSubscription)
new_trial st draws user = do
  node ← gets allocate_origin_server_atomic
  or_refuse node Message.no_servers_available (trial_on st draws user)

-- A subscription that is there already, from before trials left an order.
unfoldable pub answer_existing : WhiteInternetSubscription → Answer WhiteInternetSubscription
answer_existing sub =
    if is_live sub.status
    then (true, (Message.already_active, some sub))
    else if is_leaving sub
    then (false, (Message.deactivation_pending, some sub))
    else (false, (Message.trial_already_used, some sub))

unfoldable pub trial_for : Settings → Draws → ℕ → User → Action (Answer WhiteInternetSubscription)
unfolding new_trial answer_existing
trial_for st draws user_id user db =
    if has_ever_activated_trial user_id db
    then pure (false, (Message.trial_already_used, white_internet_of user_id db)) db
    else elim (white_internet_of user_id db) [
      | some sub ↦ pure (answer_existing sub) db
      | none ↦ new_trial st draws user db
    ]

abbrev pub trial_unless_barred :
    Settings → Draws → ℕ → User → Action (Answer WhiteInternetSubscription)
trial_unless_barred st draws user_id user =
    refuse_if (User.is_banned user || User.is_deleted user) Message.access_denied
      (trial_for st draws user_id user)

unfoldable pub create_trial_subscription :
    Settings → Draws → ℕ → Action (Answer WhiteInternetSubscription)
create_trial_subscription st draws user_id = do
  locked_user ← lock_checkout_user user_id
  or_refuse locked_user Message.user_not_found (trial_unless_barred st draws user_id)

-- Disabled, with its client to be removed from the node.
abbrev pub disabled : WhiteInternetSubscription → WhiteInternetSubscription
disabled sub = record sub {
  status = WhiteInternetStatus.disabled;
  desired_version = WhiteInternetSubscription.desired_version sub + 1;
  provisioning_status = ProvisioningStatus.pending_delete;
}

abbrev pub discarded : WhiteInternetSubscription → WhiteInternetSubscription
discarded sub = record (disabled sub) { pending_hard_delete = true }

-- The loops over the rows: first all are changed, then a task is queued for each.
unfoldable pub put_all :
    (WhiteInternetSubscription → WhiteInternetSubscription)
    → List WhiteInternetSubscription
    → Action (Unit {0})
put_all f [] = pure tt
put_all f (s ∷ ss) = modify (put_white_internet (f s)) >> put_all f ss

unfoldable pub dispatch_all :
    (WhiteInternetSubscription → WhiteInternetSubscription)
    → List WhiteInternetSubscription
    → Action (Unit {0})
dispatch_all f [] = pure tt
dispatch_all f (s ∷ ss) = do
  server ← gets (server_by_id (WhiteInternetSubscription.origin_node_id s))
  dispatch_deprovision server s.uuid (WhiteInternetSubscription.desired_version (f s))
  dispatch_all f ss

-- Sixty seconds.
abbrev pub reset_cooldown : ℕ
reset_cooldown = 60 * microseconds

-- `elapsed < 60`
unfoldable pub is_too_soon : Instant → Option Instant → Bool
is_too_soon now none = false
is_too_soon now (some reset) = ltb now (reset + reset_cooldown)

abbrev pub of_owner : ℕ → WhiteInternetSubscription → Bool
of_owner user_id s = WhiteInternetSubscription.user_id s == user_id

unfoldable pub reset_all : User → List WhiteInternetSubscription → Action (Bool × Message)
reset_all user [] = pure (false, Message.sub_not_found)
reset_all user (s ∷ ss) = do
  now ← gets Db.now
  modify (put_user (record user { last_trial_reset_at = some now }))
  put_all discarded (select_where (λ t. t.is_trial) (s ∷ ss))
  dispatch_all discarded (select_where (λ t. t.is_trial) (s ∷ ss))
  pure (true, Message.reset_success)

unfoldable pub reset_for : ℕ → User → Action (Bool × Message)
unfolding reset_all
reset_for user_id user db =
    if is_too_soon db.now user.last_trial_reset_at
    then pure (false, Message.reset_cooldown) db
    else reset_all user (select_where (of_owner user_id) db.subscriptions) db

unfoldable pub reset_user_trial : ℕ → Action (Bool × Message)
unfolding reset_for
reset_user_trial user_id db = elim (user_by_id user_id db) [
  | none ↦ pure (false, Message.user_not_found) db
  | some user ↦ reset_for user_id user db
]
