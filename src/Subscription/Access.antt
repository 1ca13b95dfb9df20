-- ===== src/Subscription/Access.antt =====
-- Access checks, the effective device limit, and `_sync_access_state`.
use just1kbot.Prelude.{
  ℕ, ◌+◌, ◌==◌, Bool, true, false, not, ◌||◌, Option, none, some, [], ◌∷◌, ◌++◌, first_where,
  update_where, if◌then◌else◌,
}
use just1kbot.Database.{
  Instant, User, Tariff, VlessSubscription, ServiceType, Db, Action, modify, tariff_by_id,
  get_user_by_telegram_id, truthy,
}
use just1kbot.Dates.{is_expired, is_vpn_access_expired, vpn_access_grace_hours}

-- `getattr(tariff, "service_type", "standard") in ("standard", "awg")`
abbrev pub is_standard : ServiceType → Bool
is_standard ServiceType.standard = true
is_standard ServiceType.awg = true
is_standard _ = false

limit_of_tariff : Option Tariff → ℕ → ℕ
limit_of_tariff none fallback = fallback
limit_of_tariff (some t) fallback = if is_standard t.service_type then t.device_limit else fallback

tariff_of : Option ℕ → Db → Option Tariff
tariff_of none db = none
tariff_of (some tariff_id) db = if truthy (some tariff_id) then tariff_by_id tariff_id db else none

-- The current tariff first, then the user's own limit, else 0.
unfoldable pub get_effective_device_limit : Option User → Db → ℕ
unfolding limit_of_tariff tariff_of
get_effective_device_limit none db = 0
get_effective_device_limit (some user) db =
    limit_of_tariff (tariff_of user.current_tariff_id db) user.device_limit

-- `user.is_deleted or user.is_banned or user.financial_hold`
abbrev pub is_blocked : User → Bool
is_blocked user = User.is_deleted user || (User.is_banned user || User.financial_hold user)

unfoldable pub check_vpn_access : Option User → Instant → Bool
check_vpn_access none now = false
check_vpn_access (some user) now =
    if is_blocked user
    then false
    else not (is_vpn_access_expired user.subscription_end vpn_access_grace_hours now)

access_of : Option User → Instant → Bool
access_of none now = false
access_of (some user) now =
    if is_blocked user then false else not (is_expired user.subscription_end now)

unfoldable pub check_access : ℕ → Db → Bool
unfolding access_of
check_access telegram_id db = access_of (get_user_by_telegram_id telegram_id db) db.now

-- The subscription that the nodes serve takes the state that the user's access asks for: its version
-- moves on, and a sync with the nodes is queued for after the commit.
bool_eq : Bool → Bool → Bool
bool_eq true b = b
bool_eq false b = not b

unfoldable pub synced : Bool → Option VlessSubscription → Db → Db
unfolding bool_eq
synced target none db = db
synced target (some sub) db = if bool_eq sub.is_active target then db else record db {
  vless_subscriptions =
      update_where (λ s. VlessSubscription.user_id s == sub.user_id)
        (λ s. record s { is_active = target; version = VlessSubscription.version s + 1 })
        db.vless_subscriptions;
  post_commit_tasks = db.post_commit_tasks ++ (sub.user_id, target) ∷ [];
}

unfoldable pub sync_access_state : User → Action (Unit {0})
unfolding synced
sync_access_state user = modify (λ db.
    synced (check_vpn_access (some user) (Db.now db))
      (first_where (λ s. VlessSubscription.user_id s == User.id user) (Db.vless_subscriptions db))
      db)
