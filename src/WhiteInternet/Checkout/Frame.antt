-- ===== src/WhiteInternet/Checkout/Frame.antt =====
-- The checkout touches the ledger, the orders and the tariffs, and nothing else.
use just1kbot.Prelude.{
  ℕ, String, Bool, true, false, ◌≡◌, refl, sym, ap, ◌∙◌, Option, none, some, List, arith, neg_ℤ,
  abs_ℤ,
}
use just1kbot.Database.{
  Decimal, Instant, User, Server, Order, WhiteInternetSubscription, WhiteInternetOrphanCleanup, Db,
  ok, err, Result, Keeps, Keeps-bind, Keeps-raise_if, pure, AccountLedgerEntry,
}
use just1kbot.Ledger.Balance.{whole_rubles, lock_account_user, get_account_balance}
use just1kbot.Ledger.Entries.{EntryValues, insert_or_get_entry}
use just1kbot.Ledger.Lots.{allocate_fifo}
use just1kbot.Ledger.Operations.{debit_fresh, create_order_debit, allocate_if}
use just1kbot.Orders.Checkout.{add_order}
use just1kbot.WhiteInternet.Settings.{Settings}
use just1kbot.WhiteInternet.Checkout.{
  Purchase, checkout_wallet_order, checkout_if, get_or_create_white_internet_tariff, after_debit,
  pay, place, mark_paid, wallet_order,
}

abbrev pub View : Type 0
View =
    (List User × List Server)
    × ((List WhiteInternetSubscription × List WhiteInternetOrphanCleanup)
        × (List (ℕ × String × ℕ) × Instant))

-- The tables of users, servers and subscriptions with what waits to be cleaned up, and the clock.
abbrev pub view : Db → View
view db = (
  (Db.users db, Db.servers db),
  ((Db.subscriptions db, Db.orphan_cleanups db), (Db.deprovisions db, Db.now db)),
)

whole_rubles-Keeps : (a : Decimal) (z : Bool) → Keeps view (whole_rubles a z)
unfolding whole_rubles
whole_rubles-Keeps a z db = ground arith

insert_or_get_entry-Keeps :
    (v : EntryValues) (lookup : _) → Keeps view (insert_or_get_entry v lookup)
unfolding insert_or_get_entry
insert_or_get_entry-Keeps v lookup db = ground arith

allocate_fifo-Keeps : (u d : ℕ) (a : Decimal) → Keeps view (allocate_fifo u d a)
unfolding allocate_fifo
allocate_fifo-Keeps u d a db = ground arith

get_account_balance-Keeps :
    (u : ℕ) (l : Bool) (user : Option User) → Keeps view (get_account_balance u l user)
unfolding get_account_balance lock_account_user
get_account_balance-Keeps u l user db = ground arith

allocate_if-Keeps : (c : Bool) (u d : ℕ) (a : Decimal) → Keeps view (allocate_if c u d a)
allocate_if-Keeps true u d a =
    Keeps-bind view (allocate_fifo u d a) (λ _. pure tt) (allocate_fifo-Keeps u d a) (λ _ db. refl)
allocate_if-Keeps false u d a = λ db. refl

debit_fresh-Keeps : (user : User) (a : Decimal) (o : ℕ) → Keeps view (debit_fresh user a o)
unfolding debit_fresh
debit_fresh-Keeps user a o =
    Keeps-bind view (get_account_balance user.id false (some user)) _
      (get_account_balance-Keeps _ _ _)
      (λ s. Keeps-raise_if view _ _ _ (
        Keeps-bind view (insert_or_get_entry _ _) _ (insert_or_get_entry-Keeps _ _) (λ p.
          Keeps-bind view (allocate_if p.1 user.id (AccountLedgerEntry.id p.0) (neg_ℤ a))
            (λ _. pure (some p.0, p.1)) (allocate_if-Keeps _ _ _ _) (λ _ db. refl))))

create_order_debit-Keeps :
    (u : ℕ) (a : Decimal) (o : ℕ) (user : Option User) → Keeps view (create_order_debit u a o user)
unfolding create_order_debit lock_account_user
create_order_debit-Keeps u a o user =
    Keeps-bind view (whole_rubles a true) _ (whole_rubles-Keeps a true) (λ r.
      Keeps-bind view (lock_account_user u user) _ (λ db. ground arith)
        (λ v db. ground (arith, debit_fresh-Keeps v (neg_ℤ (abs_ℤ r)) o db)))

pub get_or_create_white_internet_tariff-Keeps :
    (st : Settings) → Keeps view (get_or_create_white_internet_tariff st)
unfolding get_or_create_white_internet_tariff
get_or_create_white_internet_tariff-Keeps st db = ground arith

add_order-Keeps : (o : Order) → Keeps view (add_order o)
unfolding add_order
add_order-Keeps o db = ground arith

after_debit-Keeps :
    {A : Type 0} (o : Order) (r : Result A × Db) → view (after_debit o r).1 ≡ view r.1
unfolding after_debit mark_paid
after_debit-Keeps o (ok a, db) = refl
after_debit-Keeps o (err e, db) = ground arith

pay-Keeps : (user : User) (o : Order) → Keeps view (pay user o)
unfolding pay mark_paid
pay-Keeps user o db = ground (
  arith,
  after_debit-Keeps o (create_order_debit (User.id user) (Order.amount_rub o) (Order.id o) none db),
  create_order_debit-Keeps (User.id user) (Order.amount_rub o) (Order.id o) none db,
)

place-Keeps : (user : User) (p : Purchase) → Keeps view (place user p)
unfolding place whole_rubles add_order
place-Keeps user p db = ground (
  arith,
  pay-Keeps user (wallet_order user p (Db.now db))
      (add_order (wallet_order user p (Db.now db)) db).1,
)

pub checkout_wallet_order-Keeps :
    (user : User) (p : Purchase) → Keeps view (checkout_wallet_order user p)
unfolding checkout_wallet_order
checkout_wallet_order-Keeps user p db = ground (arith, place-Keeps user p db)

pub checkout_if-Keeps : (c : Bool) (user : User) (p : Purchase) → Keeps view (checkout_if c user p)
unfolding checkout_if
checkout_if-Keeps true user p = checkout_wallet_order-Keeps user p
checkout_if-Keeps false user p = λ db. refl

-- A checkout that went through, after the tariff was looked up, leaves the view as it was.
pub checkout-unchanged :
    (st : Settings) (c : Bool) (user : User) (p : Purchase) (db paid : Db)
    → checkout_if c user p (get_or_create_white_internet_tariff st db).1 ≡ (ok none, paid)
    → view paid ≡ view db
checkout-unchanged st c user p db paid h =
    sym (ap (λ r. view r.1) h)
    ∙ checkout_if-Keeps c user p (get_or_create_white_internet_tariff st db).1
    ∙ get_or_create_white_internet_tariff-Keeps st db
