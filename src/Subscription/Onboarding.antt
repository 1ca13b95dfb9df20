-- ===== src/Subscription/Onboarding.antt =====
-- `process_onboarding`: a start of the bot registers, restores and binds a user to a referrer.
pub mod Binding
use just1kbot.Prelude.{
  ℕ, suc, ltb, ◌==◌, Bool, true, false, not, ◌&&◌, ◌||◌, Option, none, some, List, [], ◌∷◌, ◌++◌,
  first_where, count_where, if◌then◌else◌,
}
use just1kbot.Database.{
  User, Payment, Order, Instant, Db, Action, pure, ◌>>=◌, ◌>>◌, gets, modify, put_user, max_int64,
  is_paid, is_refunded, is_topup, is_wallet,
}
use just1kbot.Subscription.Extension.{fresh_notices}
use just1kbot.Subscription.Referrer.{validate_referral}

-- Deleted users included.
unfoldable pub get_user_by_telegram_id_any : ℕ → Db → Option User
get_user_by_telegram_id_any telegram_id db =
    if ltb telegram_id 1 || ltb max_int64 telegram_id
    then none
    else first_where (λ u. User.telegram_id u == telegram_id) db.users

abbrev is_credited_payment : ℕ → Payment → Bool
is_credited_payment user_id p = Payment.user_id p == user_id && Payment.is_credited p

abbrev was_paid : Order → Bool
was_paid o =
    is_paid (Order.status o)
    || (is_refunded (Order.status o) || (elim (Order.paid_at o) [ none ↦ false | some t ↦ true ]))

abbrev is_paid_topup : ℕ → Order → Bool
is_paid_topup user_id o =
    Order.user_id o == user_id
    && (was_paid o && (is_topup (Order.service_type o) || not (is_wallet (Order.payment_method o))))

unfoldable pub has_successful_topup : ℕ → Db → Bool
has_successful_topup user_id db =
    ltb 0 (count_where (is_credited_payment user_id) db.payments)
    || ltb 0 (count_where (is_paid_topup user_id) db.orders)

abbrev pub restored : User → User
restored u = record u { is_deleted = false }

abbrev pub bound_to : ℕ → User → User
bound_to ref_id u = record u { referred_by = some ref_id }

-- The late binding of a user without a referrer who never paid.
unfoldable pub may_bind : Db → User → ℕ → Bool
may_bind db user ref_id =
    not (has_successful_topup user.id db) && validate_referral db user.telegram_id ref_id

abbrev pub bind_if : Bool → ℕ → User → Action User
bind_if true ref_id user = do modify (put_user (bound_to ref_id user)); pure (bound_to ref_id user)
bind_if false ref_id user = pure user

-- A referrer that is there stays.
abbrev pub bind_unbound : Option ℕ → ℕ → User → Action User
bind_unbound (some r) ref_id user = pure user
bind_unbound none ref_id user = λ db. bind_if (may_bind db user ref_id) ref_id user db

unfoldable pub bind_late : Option ℕ → User → Action User
bind_late none user = pure user
bind_late (some ref_id) user = bind_unbound (User.referred_by user) ref_id user

unfoldable pub restore : User → Action User
restore user =
    if user.is_deleted
    then (do modify (put_user (restored user)); pure (restored user))
    else pure user

-- The row of a new user, by the defaults of its columns.
abbrev pub new_user : ℕ → ℕ → Option ℕ → User
new_user id telegram_id referred_by = record {
  id = id;
  telegram_id = telegram_id;
  referred_by = referred_by;
  subscription_end = none;
  device_limit = 0;
  current_tariff_id = none;
  is_banned = false;
  is_deleted = false;
  financial_hold = false;
  topup_blocked = false;
  last_trial_reset_at = none;
  notices = fresh_notices;
  usage = record {
    total_wi_traffic_bytes = 0;
    monthly_wi_bytes = 0;
    monthly_vless_bytes = 0;
    traffic_cycle = none;
  };
}

unfoldable pub create_user : ℕ → Option ℕ → Action User
create_user telegram_id referred_by db =
    (do
      modify (λ d. record d {
        users = Db.users d ++ new_user (Db.next_user_id d) telegram_id referred_by ∷ [];
        next_user_id = suc (Db.next_user_id d);
      })
      pure (new_user (Db.next_user_id db) telegram_id referred_by))
      db

-- The referrer of a new user, if it is valid.
unfoldable pub valid_referrer : ℕ → Option ℕ → Db → Option ℕ
valid_referrer telegram_id none db = none
valid_referrer telegram_id (some ref_id) db =
    if validate_referral db telegram_id ref_id then some ref_id else none

unfoldable pub onboard : ℕ → Option ℕ → Option User → Action User
unfolding restore
onboard telegram_id ref_id (some user) db = (do present ← restore user; bind_late ref_id present) db
onboard telegram_id ref_id none db =
    create_user telegram_id (valid_referrer telegram_id ref_id db) db

-- Calls are steps one after another, so that the insert meets no row of another transaction. The
-- names, the block flag and the audit log are columns and tables that are left out.
unfoldable pub process_onboarding : ℕ → Option ℕ → Action User
process_onboarding telegram_id ref_id db =
    onboard telegram_id ref_id (get_user_by_telegram_id_any telegram_id db) db
