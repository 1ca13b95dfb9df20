-- ===== src/Ledger/Coverage/Append.antt =====
-- What the ledger's sums become when a purchase debit is appended, and the allocations that pay it.
use just1kbot.Prelude.{
  ℕ, pos, ◌+ℤ◌, ◌≤ℤ◌, ◌<ℤ◌, int_laws, List, [], ◌∷◌, ◌≡◌, refl, select_where, arith,
}
use mathlib.Core.Path.{fun_ext}
use just1kbot.Database.{Decimal, AccountLedgerEntry, Db}
use just1kbot.Ledger.Balance.{
  sum_entries, of_user, position, snapshot, snapshot_of, AccountBalanceSnapshot,
}
use just1kbot.Ledger.Entries.{append_entry, new_entry}
use just1kbot.Ledger.Lots.{
  pays_back_order, pays_back_payment, credit_capacity, is_lot, candidate_lots, used_of_credit,
}
use just1kbot.Ledger.Lots.Sums.{
  total_capacity, total_capacity-le-spendable, spendable-sort_lots, sum_entries-append,
  sum_entries-append_other, select_where-append_other,
}
use just1kbot.Ledger.Lots.Allocation.{funds}
use just1kbot.Ledger.Operations.{order_debit_values}

abbrev pub lots : Db → ℕ → List AccountLedgerEntry
lots db user_id = select_where (is_lot user_id) (Db.entries db)

-- The position is at most what the lots hold, an overdrawn lot counted below zero.
abbrev pub IsCovered : Db → ℕ → Type 0
IsCovered db user_id = position db user_id ≤ℤ total_capacity (credit_capacity db) (lots db user_id)

pub position-le-funds : (db : Db) (u : ℕ) → IsCovered db u → position db u ≤ℤ funds db u
unfolding candidate_lots
position-le-funds db u h =
    rw (spendable-sort_lots (credit_capacity db) (lots db u))
      (omega (arith, total_capacity-le-spendable (credit_capacity db) (lots db u)))

module _ (db : Db) (u : ℕ) (amount : Decimal) (order_id : ℕ) where
  abbrev debit : AccountLedgerEntry
  debit = new_entry (order_debit_values u amount order_id) db

  abbrev pub debited : Db
  debited = append_entry (order_debit_values u amount order_id) db

  pub position-debited : position debited u ≡ position db u +ℤ amount
  unfolding position sum_entries
  position-debited =
      rw (sum_entries-append (of_user u) (Db.entries db) (debit ∷ [])) (grind int_laws)

  -- A purchase debit is no refund, so that it takes nothing off a lot by itself.
  pub credit_capacity-debited : credit_capacity debited ≡ credit_capacity db
  unfolding credit_capacity used_of_credit
  credit_capacity-debited = fun_ext (λ c. rw (
    sum_entries-append_other (pays_back_order (AccountLedgerEntry.order_id c)) (Db.entries db) debit
        refl,
    sum_entries-append_other (pays_back_payment (AccountLedgerEntry.payment_id c)) (Db.entries db)
        debit refl,
  ))

  -- Nor is it a lot.
  pub lots-debited : lots debited u ≡ lots db u
  lots-debited = select_where-append_other (is_lot u) (Db.entries db) debit (ground arith)

  pub funds-debited : funds debited u ≡ funds db u
  unfolding candidate_lots
  funds-debited = rw (credit_capacity-debited, lots-debited)

-- Someone with a position above zero has all of it available.
pub available-position :
    (db : Db) (u : ℕ)
    → pos 0 <ℤ position db u
    → AccountBalanceSnapshot.available (snapshot db u) ≡ position db u
unfolding snapshot snapshot_of
available-position db u h = ground arith
