-- ===== src/Referral/Reversal/Cap.antt =====
-- The cap on what is reversed of a referral bonus.
use just1kbot.Prelude.{
  ℕ, pos, ◌+ℤ◌, ◌-ℤ◌, ◌≤ℤ◌, ◌<ℤ◌, max_ℤ, abs_ℤ, neg_ℤ, int_laws, max_zero-cases, Bool, true, false,
  String, [], ◌∷◌, ◌⊎◌, inl, inr, ◌≡◌, arith, if◌then◌else◌,
}
use just1kbot.Database.{Decimal, AccountLedgerEntry, Db}
use just1kbot.Ledger.Balance.{sum_entries}
use just1kbot.Ledger.Entries.{EntryValues, new_entry, append_entry}
use just1kbot.Ledger.Lots.Sums.{sum_entries-append}
use just1kbot.Referral.Grant.{add_entry}
use just1kbot.Referral.Reversal.{
  reversal_values, is_reversal_of, already_reversed, reverse_rest, reverse_credit,
}

add_entry-after :
    (v : EntryValues) (db : Db)
    → ((add_entry v db).1 ≡ db) ⊎ ((add_entry v db).1 ≡ append_entry v db)
unfolding add_entry
add_entry-after v db = ground arith

abs-added :
    (a v : Decimal) (c : Bool)
    → pos 0 ≤ℤ v
    → abs_ℤ (a +ℤ ((if c then neg_ℤ (abs_ℤ v) else pos 0) +ℤ pos 0)) ≤ℤ abs_ℤ a +ℤ v
abs-added a v true h = grind (int_laws, h)
abs-added a v false h = grind (int_laws, h)

module _ (order_id : ℕ) (refund_id : String) (credit : AccountLedgerEntry) (db : Db) where
  -- What is left of the credit.
  abbrev rest : Decimal
  rest = max_ℤ (pos 0) (AccountLedgerEntry.amount credit -ℤ already_reversed db credit)

  abbrev values : EntryValues
  values = reversal_values order_id refund_id credit (neg_ℤ (abs_ℤ rest))

  abbrev after : Db
  after = (reverse_credit order_id refund_id credit db).1

  reverse_credit-after : (after ≡ db) ⊎ ((pos 0 <ℤ rest) × (after ≡ append_entry values db))
  unfolding reverse_credit reverse_rest
  reverse_credit-after = ground (arith, add_entry-after values db)

  already_reversed-append :
      already_reversed (append_entry values db) credit ≤ℤ already_reversed db credit +ℤ rest
  unfolding already_reversed sum_entries reversal_values
  already_reversed-append =
      rw (sum_entries-append (is_reversal_of credit) (Db.entries db) (new_entry values db ∷ [])) (
        abs-added (sum_entries (is_reversal_of credit) (Db.entries db)) rest
          (is_reversal_of credit (new_entry values db)) (ground arith))

  -- A bonus is never reversed beyond what was granted: if what was taken back of a credit is within
  -- the credit, it still is after one more reversal of it, whatever order and refund it is for and
  -- whether it succeeds or raises.
  pub reverse_credit-capped :
      already_reversed db credit ≤ℤ AccountLedgerEntry.amount credit
      → already_reversed after credit ≤ℤ AccountLedgerEntry.amount credit
  reverse_credit-capped h = elim reverse_credit-after [
    | inl e ↦ rw e h
    | inr (p, e) ↦ rw e (
        grind (
          int_laws,
          h,
          p,
          already_reversed-append,
          max_zero-cases (AccountLedgerEntry.amount credit -ℤ already_reversed db credit),
        ))
  ]
