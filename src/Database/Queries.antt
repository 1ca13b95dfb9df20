-- ===== src/Database/Queries.antt =====
-- Reads and writes of one row that several services share.
use just1kbot.Prelude.{
  ℕ, ◌==◌, ltb, Bool, false, not, ◌&&◌, ◌||◌, Option, none, some, first_where, update_where,
  if◌then◌else◌,
}
use just1kbot.Database.Rows.{User, Tariff, Order}
use just1kbot.Database.Store.{Db}

-- `session.get(User, user_id)`
abbrev pub user_by_id : ℕ → Db → Option User
user_by_id user_id db = first_where (λ u. User.id u == user_id) (Db.users db)

abbrev pub tariff_by_id : ℕ → Db → Option Tariff
tariff_by_id tariff_id db = first_where (λ t. Tariff.id t == tariff_id) (Db.tariffs db)

abbrev pub order_by_id : ℕ → Db → Option Order
order_by_id order_id db = first_where (λ o. Order.id o == order_id) (Db.orders db)

-- 2 ** 63 - 1
abbrev pub max_int64 : ℕ
max_int64 = 9223372036854775807

-- `get_user_by_telegram_id` of database/repositories/users_repo.py: not for a deleted user.
unfoldable pub get_user_by_telegram_id : ℕ → Db → Option User
get_user_by_telegram_id telegram_id db =
    if ltb telegram_id 1 || ltb max_int64 telegram_id
    then none
    else first_where (λ u. User.telegram_id u == telegram_id && not (User.is_deleted u))
        (Db.users db)

-- The ORM writes a changed object back to its row.
abbrev pub put_user : User → Db → Db
put_user user db = record db {
  users = update_where (λ u. User.id u == User.id user) (λ _. user) (Db.users db);
}

abbrev pub put_order : Order → Db → Db
put_order order db = record db {
  orders = update_where (λ o. Order.id o == Order.id order) (λ _. order) (Db.orders db);
}

-- `if x` of an optional number: neither `None` nor 0.
abbrev pub truthy : Option ℕ → Bool
truthy none = false
truthy (some n) = ltb 0 n
