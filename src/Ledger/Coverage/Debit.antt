-- ===== src/Ledger/Coverage/Debit.antt =====
-- `create_order_debit` on a covered account.
use just1kbot.Prelude.{
  ℕ, pos, ◌+ℤ◌, ◌-ℤ◌, ◌≤ℤ◌, ◌<ℤ◌, neg_ℤ, abs_ℤ, eqb_ℤ, ltb_ℤ, int_laws, true, false, none, some,
  List, [], ◌∷◌, first_where, ◌≡◌, refl, arith,
}
use just1kbot.Database.{Decimal, AccountLedgerEntry, AccountLedgerAllocation, User, Db, ok}
use just1kbot.Ledger.Balance.{
  is_whole, whole_rubles, lock_account_user, get_account_balance, position,
}
use just1kbot.Ledger.Entries.{
  EntryValues, satisfies_checks, conflicts_with, new_entry, insert_or_get_entry,
}
use just1kbot.Ledger.Lots.{credit_capacity, candidate_lots, allocate_fifo, is_lot}
use just1kbot.Ledger.Lots.Fifo.{allocated, AllFit}
use just1kbot.Ledger.Lots.Sums.{total_capacity}
use just1kbot.Ledger.Lots.Allocation.{created, allocate_fifo-covers}
use just1kbot.Ledger.Operations.{
  order_debit_values, is_debit_of_order, debit_fresh, create_order_debit,
}
use just1kbot.Ledger.Coverage.Append.{
  lots, IsCovered, position-le-funds, debited, position-debited, credit_capacity-debited,
  lots-debited, funds-debited, available-position,
}
use just1kbot.Ledger.Coverage.Spending.{
  Distinct, Distinct-select_where, allocating, total_capacity-allocating,
}

-- The signed amount of a debit of `r`.
abbrev pub debit_amount : Decimal → Decimal
debit_amount r = neg_ℤ (abs_ℤ r)

neg-debit_amount : (r : Decimal) → pos 0 <ℤ r → neg_ℤ (debit_amount r) ≡ r
unfolding ◌-ℤ◌
neg-debit_amount r h = ground arith

ltb_ℤ_of_le : (a b : Decimal) → b ≤ℤ a → ltb_ℤ a b ≡ false
ltb_ℤ_of_le a b h = ground arith

whole_rubles_ok :
    (r : Decimal) (db : Db) → pos 0 <ℤ r → is_whole r ≡ true → whole_rubles r true db ≡ (ok r, db)
unfolding whole_rubles
whole_rubles_ok r db h w = ground arith

debit_amount-ne-zero : (r : Decimal) → pos 0 <ℤ r → eqb_ℤ (debit_amount r) (pos 0) ≡ false
unfolding ◌-ℤ◌
debit_amount-ne-zero r h = ground arith

-- No row stands in the way of the debit of the order: neither its key nor its order is taken.
abbrev pub IsFresh : Db → ℕ → Decimal → ℕ → Type 0
IsFresh db u r order_id =
    first_where (conflicts_with (order_debit_values u (debit_amount r) order_id)) (Db.entries db)
    ≡ none

debit_checks :
    (u order_id : ℕ) (r : Decimal)
    → pos 0 <ℤ r
    → is_whole r ≡ true
    → satisfies_checks (order_debit_values u (debit_amount r) order_id) ≡ true
unfolding satisfies_checks ◌-ℤ◌
debit_checks u order_id r h w = ground arith

-- An earlier debit of the order would conflict.
no_earlier_debit :
    (es : List AccountLedgerEntry) (u order_id : ℕ) (amount : Decimal)
    → first_where (conflicts_with (order_debit_values u amount order_id)) es ≡ none
    → first_where (is_debit_of_order order_id) es ≡ none
unfolding conflicts_with
no_earlier_debit [] u order_id amount h = refl
no_earlier_debit (e ∷ es) u order_id amount h =
    ground (arith, no_earlier_debit es u order_id amount)

module _ (db : Db) (user : User) (r : Decimal) (order_id : ℕ) where
  abbrev values : EntryValues
  values = order_debit_values (User.id user) (debit_amount r) order_id

  abbrev with_debit : Db
  with_debit = debited db (User.id user) (debit_amount r) order_id

  abbrev pub payments : List AccountLedgerAllocation
  payments = created with_debit (User.id user) (Db.next_entry_id db) r

  -- The database after the debit and the allocations that pay it.
  abbrev pub after_debit : Db
  after_debit = allocating payments with_debit

  -- The new row is inserted.
  insert_debit :
      pos 0 <ℤ r
      → is_whole r ≡ true
      → IsFresh db (User.id user) r order_id
      → insert_or_get_entry values (is_debit_of_order order_id) db
        ≡ (ok (new_entry values db, true), with_debit)
  unfolding insert_or_get_entry
  insert_debit h w f = rw (debit_checks (User.id user) order_id r h w, f)

  abbrev IsPaid : Type 0
  IsPaid =
      (allocate_fifo (User.id user) (Db.next_entry_id db) r with_debit ≡ (ok payments, after_debit))
      × (allocated payments ≡ r)
      × AllFit (credit_capacity with_debit) (candidate_lots with_debit (User.id user)) payments

  is_paid : pos 0 <ℤ r → IsCovered db (User.id user) → r ≤ℤ position db (User.id user) → IsPaid
  is_paid h c k =
      allocate_fifo-covers with_debit (User.id user) (Db.next_entry_id db) r (omega arith) (
        rw (funds-debited db (User.id user) (debit_amount r) order_id)
          (omega (int_laws, position-le-funds db (User.id user) c)))

  debit_fresh-pays :
      pos 0 <ℤ r
      → is_whole r ≡ true
      → IsCovered db (User.id user)
      → r ≤ℤ position db (User.id user)
      → IsFresh db (User.id user) r order_id
      → debit_fresh user (debit_amount r) order_id db
        ≡ (ok (some (new_entry values db), true), after_debit)
  unfolding debit_fresh get_account_balance
  debit_fresh-pays h w c k f =
      rw
        (
          available-position db (User.id user) (omega arith),
          neg-debit_amount r h,
          ltb_ℤ_of_le (position db (User.id user)) r k,
        )
        (rw (insert_debit h w f) (rw ((is_paid h c k).0) refl))

  create_pays :
      pos 0 <ℤ r
      → is_whole r ≡ true
      → IsCovered db (User.id user)
      → r ≤ℤ position db (User.id user)
      → IsFresh db (User.id user) r order_id
      → create_order_debit (User.id user) r order_id (some user) db
        ≡ (ok (some (new_entry values db), true), after_debit)
  unfolding create_order_debit lock_account_user
  create_pays h w c k f =
      rw
        (
          whole_rubles_ok r db h w,
          debit_amount-ne-zero r h,
          no_earlier_debit (Db.entries db) (User.id user) order_id (debit_amount r) f,
        )
        (debit_fresh-pays h w c k f)

  position-after :
      position after_debit (User.id user) ≡ position db (User.id user) +ℤ debit_amount r
  unfolding position
  position-after = position-debited db (User.id user) (debit_amount r) order_id

  capacity-with_debit :
      total_capacity (credit_capacity with_debit) (lots with_debit (User.id user))
      ≡ total_capacity (credit_capacity db) (lots db (User.id user))
  capacity-with_debit = rw (
    credit_capacity-debited db (User.id user) (debit_amount r) order_id,
    lots-debited db (User.id user) (debit_amount r) order_id,
  )

  Distinct-lots : Distinct (Db.entries db) → Distinct (lots with_debit (User.id user))
  Distinct-lots d =
      rw (lots-debited db (User.id user) (debit_amount r) order_id)
        (Distinct-select_where (is_lot (User.id user)) (Db.entries db) d)

  -- The account is covered after the debit as well.
  after-IsCovered :
      pos 0 <ℤ r
      → IsCovered db (User.id user)
      → Distinct (Db.entries db)
      → r ≤ℤ position db (User.id user)
      → IsCovered after_debit (User.id user)
  after-IsCovered h c d k =
      let paid : IsPaid = is_paid h c k in
      rw position-after (
        grind (
          int_laws,
          capacity-with_debit,
          neg-debit_amount r h,
          paid.1,
          total_capacity-allocating payments with_debit (lots with_debit (User.id user))
              (candidate_lots with_debit (User.id user)) (credit_capacity with_debit) paid.2
              (Distinct-lots d),
        ))

-- On a covered account, in a ledger whose entry ids are distinct, a debit of a whole positive
-- number of rubles that the balance allows, for an order that no row of the ledger stands for yet,
-- goes through: it appends one purchase debit, the allocations that it adds attribute it in full to
-- the user's lots, the position falls by exactly the debit, and the account is covered again.
pub create_order_debit-IsCovered :
    (db : Db) (user : User) (r : Decimal) (order_id : ℕ)
    → pos 0 <ℤ r
    → is_whole r ≡ true
    → IsCovered db (User.id user)
    → Distinct (Db.entries db)
    → r ≤ℤ position db (User.id user)
    → IsFresh db (User.id user) r order_id
    → let after = after_debit db user r order_id in
      (create_order_debit (User.id user) r order_id (some user) db ≡ (
        ok (
          some (new_entry (order_debit_values (User.id user) (debit_amount r) order_id) db),
          true,
        ),
        after,
      ))
      × (allocated (payments db user r order_id) ≡ r)
      × (position after (User.id user) +ℤ r ≡ position db (User.id user))
      × IsCovered after (User.id user)
create_order_debit-IsCovered db user r order_id h w c d k f = (
  create_pays db user r order_id h w c k f,
  (is_paid db user r order_id h c k).1,
  grind (int_laws, position-after db user r order_id, neg-debit_amount r h),
  after-IsCovered db user r order_id h c d k,
)
