-- ===== src/Ban.antt =====
-- services/ban_service.py: a ban takes everything back that a user holds, and an unban gives the
-- standard access back.
pub mod Complete
use just1kbot.Prelude.{
  ℕ, ◌+◌, ◌*◌, ◌==◌, Bool, true, false, not, ◌&&◌, Option, none, some, List, [], ◌∷◌, ◌++◌, String,
  str_eq, first_where, select_where, update_where, if◌then◌else◌,
}
use just1kbot.Database.{
  User, Order, CancellationReason, VlessSubscription, Db, Action, pure, ◌>>=◌, ◌>>◌, gets, modify,
  user_by_id, put_user, get_user_by_telegram_id, is_pending,
}
use just1kbot.Subscription.Access.{check_vpn_access}
use just1kbot.Orders.Settlement.{mark_order_canceled}
use just1kbot.WhiteInternet.Admin.{deactivate_user_subscriptions}
use just1kbot.Vless.Devices.{put_vless}
use just1kbot.Vless.Credentials.{rotated, without_hwids}

pub data BanStatus : Type 0 where
  user_not_found already_banned banned already_unbanned unbanned : BanStatus

-- The orders that a ban cancels.
abbrev pub is_open : ℕ → Order → Bool
is_open user_id o = Order.user_id o == user_id && is_pending (Order.status o)

unfoldable pub cancel_open_orders : ℕ → Db → Db
cancel_open_orders user_id db = record db {
  orders =
      update_where (is_open user_id) (mark_order_canceled (CancellationReason.other "user_banned"))
        db.orders;
}

-- The client of the standard subscription is cut off: another uuid, and the old one to be revoked.
abbrev pub cut_off : String → VlessSubscription → VlessSubscription
cut_off new_uuid sub = record (without_hwids (rotated new_uuid sub)) { is_active = false }

unfoldable pub deprovision_background : VlessSubscription → VlessSubscription → Db → Db
deprovision_background old new db = if str_eq old.uuid "" then db else record db {
  vless_deprovisions = db.vless_deprovisions ++ (old.uuid, new.version, new.id) ∷ [];
}

abbrev pub vless_of : ℕ → Db → Option VlessSubscription
vless_of user_id db =
    first_where (λ s. VlessSubscription.user_id s == user_id) (Db.vless_subscriptions db)

unfoldable pub cut_off_vless : String → Option VlessSubscription → Db → Db
unfolding deprovision_background
cut_off_vless new_uuid none db = db
cut_off_vless new_uuid (some sub) db =
    deprovision_background sub (cut_off new_uuid sub) (put_vless (cut_off new_uuid sub) db)

abbrev pub Outcome : Type 0
Outcome = Bool × BanStatus

-- The columns of the legacy `payments` that a ban writes, and the audit log, are left out.
unfoldable pub ban_locked : String → User → Action Outcome
ban_locked new_uuid user = do
  modify (cancel_open_orders user.id)
  modify (put_user (record user { is_banned = true }))
  deactivate_user_subscriptions user.id none
  sub ← gets (vless_of user.id)
  modify (cut_off_vless new_uuid sub)
  pure (true, banned)

-- `locked_user is None or locked_user.is_deleted`
abbrev pub for_locked : Option User → (User → Action Outcome) → Action Outcome
for_locked none k = pure (false, user_not_found)
for_locked (some u) k = if User.is_deleted u then pure (false, user_not_found) else k u

unfoldable pub ban_found : String → User → Action Outcome
ban_found new_uuid user db = for_locked (user_by_id user.id db) (ban_locked new_uuid) db

unfoldable pub ban_user : String → ℕ → Action Outcome
unfolding ban_found
ban_user new_uuid telegram_id db = elim (get_user_by_telegram_id telegram_id db) [
  | none ↦ pure (false, user_not_found) db
  | some user ↦
      if user.is_banned then pure (true, already_banned) db else ban_found new_uuid user db
]

-- The current uuid is in use again, and is not to be revoked.
abbrev pub switched_on : VlessSubscription → VlessSubscription
switched_on sub = record sub {
  is_active = true;
  version = (if VlessSubscription.version sub == 0 then 1 else VlessSubscription.version sub) + 1;
  pending_revoked_uuids =
      if str_eq (VlessSubscription.uuid sub) ""
      then VlessSubscription.pending_revoked_uuids sub
      else select_where (λ u. not (str_eq u (VlessSubscription.uuid sub)))
          (VlessSubscription.pending_revoked_uuids sub);
}

unfoldable pub switch_on_vless : User → Option VlessSubscription → Db → Db
switch_on_vless user none db = db
switch_on_vless user (some sub) db =
    if check_vpn_access (some user) db.now
    then record (put_vless (switched_on sub) db) {
      post_commit_tasks = Db.post_commit_tasks db ++ (user.id, true) ∷ [];
    }
    else db

unfoldable pub unban_locked : User → Action Outcome
unban_locked user = do
  modify (put_user (record user { is_banned = false }))
  sub ← gets (vless_of user.id)
  modify (switch_on_vless (record user { is_banned = false }) sub)
  pure (true, unbanned)

unban_found : User → Action Outcome
unban_found user db = for_locked (user_by_id user.id db) unban_locked db

unfoldable pub unban_user : ℕ → Action Outcome
unfolding unban_found
unban_user telegram_id db = elim (get_user_by_telegram_id telegram_id db) [
  | none ↦ pure (false, user_not_found) db
  | some user ↦ if user.is_banned then unban_found user db else pure (true, already_unbanned) db
]

unfoldable pub toggle_ban : String → ℕ → Action Outcome
unfolding ban_found unban_found
toggle_ban new_uuid telegram_id db = elim (get_user_by_telegram_id telegram_id db) [
  | none ↦ pure (false, user_not_found) db
  | some user ↦ if user.is_banned then unban_found user db else ban_found new_uuid user db
]
