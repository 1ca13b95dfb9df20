-- ===== src/Ledger/Lots.antt =====
-- `_batch_credit_capacities` and `_allocate_fifo`.
pub mod Fifo
pub mod Sums
pub mod Allocation
use just1kbot.Prelude.{
  ℕ, ◌==◌, ltb, ℤ, pos, ◌-ℤ◌, ltb_ℤ, leb_ℤ, eqb_ℤ, max_ℤ, min_ℤ, abs_ℤ, Bool, true, false, not,
  ◌&&◌, ◌||◌, Option, List, [], ◌∷◌, ◌++◌, select_where, if◌then◌else◌,
}
use just1kbot.Database.{
  Decimal, AccountLedgerEntry, AccountLedgerAllocation, Db, Action, Error, pure, ◌>>=◌, ◌>>◌, gets,
  modify, raise_if, is_admin_adjustment, is_external_debit, is_lot_type,
}
use just1kbot.Ledger.Balance.{of_user, sum_entries, sum_allocations}
use just1kbot.Ledger.Entries.{sql_eq}

-- What earlier debits took of a credit.
unfoldable pub used_of_credit : Db → ℕ → Decimal
used_of_credit db credit_id =
    sum_allocations (λ a. AccountLedgerAllocation.credit_entry_id a == credit_id) db.allocations

abbrev pub pays_back_order : Option ℕ → AccountLedgerEntry → Bool
pays_back_order order_id e =
    is_external_debit (AccountLedgerEntry.entry_type e)
    && sql_eq (AccountLedgerEntry.order_id e) order_id

abbrev pub pays_back_payment : Option ℕ → AccountLedgerEntry → Bool
pays_back_payment payment_id e =
    is_external_debit (AccountLedgerEntry.entry_type e)
    && sql_eq (AccountLedgerEntry.payment_id e) payment_id

-- What was paid back of an order. Such entries are all negative, so that the absolute values of the
-- query's groups add up to that of the whole sum.
refund_by_order : Db → Option ℕ → Decimal
refund_by_order db order_id = abs_ℤ (sum_entries (pays_back_order order_id) db.entries)

refund_by_payment : Db → Option ℕ → Decimal
refund_by_payment db payment_id = abs_ℤ (sum_entries (pays_back_payment payment_id) db.entries)

-- The value that `_batch_credit_capacities` gives for one of its credits.
unfoldable pub credit_capacity : Db → AccountLedgerEntry → Decimal
unfolding refund_by_order refund_by_payment
credit_capacity db credit =
    credit.amount
    -ℤ used_of_credit db credit.id
    -ℤ refund_by_order db credit.order_id
    -ℤ refund_by_payment db credit.payment_id

abbrev pub is_lot : ℕ → AccountLedgerEntry → Bool
is_lot user_id e =
    of_user user_id e
    && (ltb_ℤ (pos 0) (AccountLedgerEntry.amount e)
        && is_lot_type (AccountLedgerEntry.entry_type e))

abbrev rank : AccountLedgerEntry → ℕ
rank e = if is_admin_adjustment (AccountLedgerEntry.entry_type e) then 0 else 1

-- `ORDER BY case(admin_adjustment: 0, else 1), created_at, id`
abbrev pub sorts_before : AccountLedgerEntry → AccountLedgerEntry → Bool
sorts_before e f =
    ltb (rank e) (rank f)
    || (rank e == rank f
        && (ltb (AccountLedgerEntry.created_at e) (AccountLedgerEntry.created_at f)
            || (AccountLedgerEntry.created_at e == AccountLedgerEntry.created_at f
                && ltb (AccountLedgerEntry.id e) (AccountLedgerEntry.id f))))

unfoldable pub insert_lot : AccountLedgerEntry → List AccountLedgerEntry → List AccountLedgerEntry
insert_lot e [] = e ∷ []
insert_lot e (f ∷ fs) = elim (sorts_before e f) [ true ↦ e ∷ f ∷ fs | false ↦ f ∷ insert_lot e fs ]

unfoldable pub sort_lots : List AccountLedgerEntry → List AccountLedgerEntry
sort_lots [] = []
sort_lots (e ∷ es) = insert_lot e (sort_lots es)

-- The credits of the user, bonus lots first and then by age.
unfoldable pub candidate_lots : Db → ℕ → List AccountLedgerEntry
candidate_lots db user_id = sort_lots (select_where (is_lot user_id) db.entries)

-- The loop over the credits: the allocations that it adds, and what remains of the debit.
unfoldable pub take_lots :
    (AccountLedgerEntry → Decimal)
    → ℕ
    → ℕ
    → List AccountLedgerEntry
    → Decimal
    → List AccountLedgerAllocation × Decimal
take_lots capacity user_id debit_id [] remaining = ([], remaining)
take_lots capacity user_id debit_id (credit ∷ credits) remaining =
    let chunk : ℤ = min_ℤ (max_ℤ (pos 0) (capacity credit)) remaining in
    let left : ℤ = remaining -ℤ chunk in
    let skipped : List AccountLedgerAllocation × Decimal =
      take_lots capacity user_id debit_id credits remaining in
    let rest : List AccountLedgerAllocation × Decimal =
      take_lots capacity user_id debit_id credits left in
    let allocation : AccountLedgerAllocation = record {
      user_id = user_id;
      credit_entry_id = credit.id;
      debit_entry_id = debit_id;
      amount = chunk;
    } in
    if leb_ℤ chunk (pos 0)
    then skipped
    else if eqb_ℤ left (pos 0)
    then (allocation ∷ [], left)
    else (allocation ∷ rest.0, rest.1)

abbrev add_allocations : List AccountLedgerAllocation → Db → Db
add_allocations created db = record db { allocations = Db.allocations db ++ created }

unfoldable pub allocate_fifo : ℕ → ℕ → Decimal → Action (List AccountLedgerAllocation)
allocate_fifo user_id debit_id amount = do
  credits ← gets (λ db. candidate_lots db user_id)
  (created, remaining) ← gets (λ db. take_lots (credit_capacity db) user_id debit_id credits amount)
  modify (add_allocations created)
  raise_if (not (eqb_ℤ remaining (pos 0))) Error.ledger_invariant
  pure created
