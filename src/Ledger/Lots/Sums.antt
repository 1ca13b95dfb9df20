-- ===== src/Ledger/Lots/Sums.antt =====
-- Sums over the ledger when an entry or an allocation is added, and over the lots when they are
-- sorted.
use just1kbot.Prelude.{
  pos, ◌+ℤ◌, ◌≤ℤ◌, int_laws, zero-+ℤ, max_zero-cases, Bool, true, false, List, [], ◌∷◌, ◌++◌,
  select_where, inl, inr, ◌≡◌, refl, arith, Bool-cases,
}
use just1kbot.Database.{Decimal, AccountLedgerEntry, AccountLedgerAllocation}
use just1kbot.Ledger.Balance.{sum_entries, sum_allocations}
use just1kbot.Ledger.Lots.{insert_lot, sort_lots, sorts_before}
use just1kbot.Ledger.Lots.Fifo.{spendable}

pub sum_entries-append :
    (p : AccountLedgerEntry → Bool) (es fs : List AccountLedgerEntry)
    → sum_entries p (es ++ fs) ≡ sum_entries p es +ℤ sum_entries p fs
unfolding sum_entries
sum_entries-append p [] fs = rw (zero-+ℤ (sum_entries p fs))
sum_entries-append p (e ∷ es) fs = grind (int_laws, sum_entries-append p es fs)

pub sum_allocations-append :
    (p : AccountLedgerAllocation → Bool) (as_ bs : List AccountLedgerAllocation)
    → sum_allocations p (as_ ++ bs) ≡ sum_allocations p as_ +ℤ sum_allocations p bs
unfolding sum_allocations
sum_allocations-append p [] bs = rw (zero-+ℤ (sum_allocations p bs))
sum_allocations-append p (a ∷ as_) bs = grind (int_laws, sum_allocations-append p as_ bs)

-- An entry that a sum leaves out changes nothing.
pub sum_entries-append_other :
    (p : AccountLedgerEntry → Bool) (es : List AccountLedgerEntry) (e : AccountLedgerEntry)
    → p e ≡ false
    → sum_entries p (es ++ e ∷ []) ≡ sum_entries p es
unfolding sum_entries
sum_entries-append_other p [] e h = rw h (zero-+ℤ (pos 0))
sum_entries-append_other p (f ∷ es) e h = rw (sum_entries-append_other p es e h)

pub select_where-append_other :
    (p : AccountLedgerEntry → Bool) (es : List AccountLedgerEntry) (e : AccountLedgerEntry)
    → p e ≡ false
    → select_where p (es ++ e ∷ []) ≡ select_where p es
select_where-append_other p [] e h = rw h
select_where-append_other p (f ∷ es) e h = ground (arith, select_where-append_other p es e h)

insert_lot_first :
    (e f : AccountLedgerEntry) (fs : List AccountLedgerEntry)
    → sorts_before e f ≡ true
    → insert_lot e (f ∷ fs) ≡ e ∷ f ∷ fs
unfolding insert_lot
insert_lot_first e f fs h = ground arith

insert_lot_later :
    (e f : AccountLedgerEntry) (fs : List AccountLedgerEntry)
    → sorts_before e f ≡ false
    → insert_lot e (f ∷ fs) ≡ f ∷ insert_lot e fs
unfolding insert_lot
insert_lot_later e f fs h = ground arith

module _ (capacity : AccountLedgerEntry → Decimal) where
  spendable-insert_lot :
      (e : AccountLedgerEntry) (es : List AccountLedgerEntry)
      → spendable capacity (insert_lot e es) ≡ spendable capacity (e ∷ es)
  unfolding insert_lot
  spendable-insert_lot e [] = refl
  spendable-insert_lot e (f ∷ fs) = elim (Bool-cases (sorts_before e f)) [
    | inl y ↦ rw (insert_lot_first e f fs y)
    | inr n ↦ rw (insert_lot_later e f fs n) (grind (int_laws, spendable-insert_lot e fs))
  ]

  -- The order of the lots is nothing to what they can pay.
  pub spendable-sort_lots :
      (es : List AccountLedgerEntry) → spendable capacity (sort_lots es) ≡ spendable capacity es
  unfolding sort_lots
  spendable-sort_lots [] = refl
  spendable-sort_lots (e ∷ es) = rw (spendable-insert_lot e (sort_lots es), spendable-sort_lots es)

  -- The capacities of the lots, those below zero counted as they are.
  abbrev pub total_capacity : List AccountLedgerEntry → Decimal
  total_capacity [] = pos 0
  total_capacity (c ∷ cs) = capacity c +ℤ total_capacity cs

  pub total_capacity-le-spendable :
      (cs : List AccountLedgerEntry) → total_capacity cs ≤ℤ spendable capacity cs
  total_capacity-le-spendable [] = omega arith
  total_capacity-le-spendable (c ∷ cs) = elim (max_zero-cases (capacity c)) [
    | inl (low, e) ↦ rw e (omega (int_laws, total_capacity-le-spendable cs))
    | inr (high, e) ↦ rw e (omega (int_laws, total_capacity-le-spendable cs))
  ]
