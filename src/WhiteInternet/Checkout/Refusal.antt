-- ===== src/WhiteInternet/Checkout/Refusal.antt =====
-- A checkout that is refused moves no money.
use just1kbot.Prelude.{ℕ, Bool, ◌≡◌, ◌≢◌, neg_ℤ, Option, none, some, ◌⊎◌, List, arith}
use just1kbot.Database.{
  Decimal, AccountLedgerEntry, AccountLedgerAllocation, User, Order, Db, Result, ok, err, Error,
  Avoids, Avoids-bind, guard-cases, pure,
}
use just1kbot.Ledger.Balance.{whole_rubles, lock_account_user, get_account_balance}
use just1kbot.Ledger.Entries.{EntryValues, insert_or_get_entry}
use just1kbot.Ledger.Lots.{allocate_fifo}
use just1kbot.Ledger.Operations.{allocate_if, debit_fresh, create_order_debit}
use just1kbot.Orders.Checkout.{add_order}
use just1kbot.WhiteInternet.Settings.{Message}
use just1kbot.WhiteInternet.Checkout.{
  Purchase, wallet_order, after_debit, pay, place, mark_paid, checkout_wallet_order,
}

abbrev Books : Type 0
Books = List AccountLedgerEntry × List AccountLedgerAllocation

abbrev books : Db → Books
books db = (Db.entries db, Db.allocations db)

-- An insert or an allocation that fails does not say that money is missing.
insert_or_get_entry-sufficient :
    (v : EntryValues) (lookup : AccountLedgerEntry → Bool)
    → Avoids Error.insufficient_account_balance (insert_or_get_entry v lookup)
unfolding insert_or_get_entry
insert_or_get_entry-sufficient v lookup d = ground arith

allocate_if-sufficient :
    (c : Bool) (u d : ℕ) (a : Decimal)
    → Avoids Error.insufficient_account_balance (allocate_if c u d a)
unfolding allocate_fifo
allocate_if-sufficient c u d a db = ground arith

debit_fresh-insufficient :
    (user : User) (a : Decimal) (o : ℕ) (db : Db)
    → ((debit_fresh user a o db).1 ≡ db)
      ⊎ ((debit_fresh user a o db).0 ≢ err Error.insufficient_account_balance)
unfolding debit_fresh get_account_balance lock_account_user
debit_fresh-insufficient user a o db =
    guard-cases Error.insufficient_account_balance _ _
      (Avoids-bind Error.insufficient_account_balance (insert_or_get_entry _ _) _
        (insert_or_get_entry-sufficient _ _)
        (λ p.
          Avoids-bind Error.insufficient_account_balance
            (allocate_if p.1 user.id (AccountLedgerEntry.id p.0) (neg_ℤ a))
            (λ _. pure (some p.0, p.1)) (allocate_if-sufficient _ _ _ _) (λ _ d. ground arith)))
      db

-- Where the debit raises that money is missing, it has written nothing.
create_order_debit-insufficient :
    (u : ℕ) (a : Decimal) (o : ℕ) (user : Option User) (db : Db)
    → (books (create_order_debit u a o user db).1 ≡ books db)
      ⊎ ((create_order_debit u a o user db).0 ≢ err Error.insufficient_account_balance)
unfolding create_order_debit lock_account_user whole_rubles
create_order_debit-insufficient u a o user db = grind (arith, debit_fresh-insufficient)

after_debit-refused :
    {A : Type 0} (o : Order) (r : Result A × Db) (b : Books)
    → (books r.1 ≡ b) ⊎ (r.0 ≢ err Error.insufficient_account_balance)
    → (m : Message) → (after_debit o r).0 ≡ ok (some m)
    → books (after_debit o r).1 ≡ b
unfolding after_debit mark_paid
after_debit-refused o (ok a, db) b h m e = ground arith
after_debit-refused o (err x, db) b h m e = ground arith

pay-refused :
    (user : User) (o : Order) (db : Db) (m : Message)
    → (pay user o db).0 ≡ ok (some m)
    → books (pay user o db).1 ≡ books db
unfolding pay mark_paid
pay-refused user o db m e = ground (
  arith,
  after_debit-refused o
      (create_order_debit (User.id user) (Order.amount_rub o) (Order.id o) none db) (books db)
      (create_order_debit-insufficient (User.id user) (Order.amount_rub o) (Order.id o) none db) m,
)

-- A checkout that refuses moves no money: the ledger's entries and allocations are as they were.
pub checkout_wallet_order-refused :
    (user : User) (p : Purchase) (db : Db) (m : Message)
    → (checkout_wallet_order user p db).0 ≡ ok (some m)
    → (Db.entries (checkout_wallet_order user p db).1 ≡ Db.entries db)
      × (Db.allocations (checkout_wallet_order user p db).1 ≡ Db.allocations db)
unfolding checkout_wallet_order place whole_rubles add_order
checkout_wallet_order-refused user p db m e = ground (
  arith,
  pay-refused user (wallet_order user p (Db.now db))
      (add_order (wallet_order user p (Db.now db)) db).1 m,
)
