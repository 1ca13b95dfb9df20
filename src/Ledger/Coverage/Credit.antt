-- ===== src/Ledger/Coverage/Credit.antt =====
-- `create_order_credit` on a covered account.
use just1kbot.Prelude.{
  ℕ, pos, ◌+ℤ◌, ◌<ℤ◌, abs_ℤ, int_laws, eq_of_parts, zero-+ℤ, Bool, true, false, none, List, [], ◌∷◌,
  ◌++◌, first_where, select_where, ◌≡◌, refl, ap, ◌∙◌, arith,
}
use mathlib.Core.Path.{fun_ext}
use just1kbot.Database.{Decimal, AccountLedgerEntry, Db, ok}
use just1kbot.Ledger.Balance.{is_whole, position, of_user, sum_entries}
use just1kbot.Ledger.Entries.{conflicts_with, append_entry, new_entry}
use just1kbot.Ledger.Lots.{
  credit_capacity, used_of_credit, pays_back_order, pays_back_payment, is_lot,
}
use just1kbot.Ledger.Lots.Sums.{total_capacity, sum_entries-append, sum_entries-append_other}
use just1kbot.Ledger.Operations.{order_credit_values, debited_total, create_order_credit}
use just1kbot.Ledger.Operations.Idempotence.{create_order_credit_new}
use just1kbot.Ledger.Coverage.Append.{lots, IsCovered}

select_where-append_one :
    (p : AccountLedgerEntry → Bool) (es : List AccountLedgerEntry) (e : AccountLedgerEntry)
    → p e ≡ true
    → select_where p (es ++ e ∷ []) ≡ select_where p es ++ e ∷ []
select_where-append_one p [] e h = rw h
select_where-append_one p (f ∷ es) e h = ground (arith, select_where-append_one p es e h)

total_capacity-append :
    (capacity : AccountLedgerEntry → Decimal) (es : List AccountLedgerEntry)
    (e : AccountLedgerEntry)
    → total_capacity capacity (es ++ e ∷ []) ≡ total_capacity capacity es +ℤ capacity e
total_capacity-append capacity [] e = grind int_laws
total_capacity-append capacity (f ∷ es) e = grind (int_laws, total_capacity-append capacity es e)

-- No entry pays back a payment that is null.
pays_back_nothing : (e : AccountLedgerEntry) → pays_back_payment none e ≡ false
pays_back_nothing e = ground arith

sum_entries-no_payment :
    (es : List AccountLedgerEntry) → sum_entries (pays_back_payment none) es ≡ pos 0
unfolding sum_entries
sum_entries-no_payment [] = refl
sum_entries-no_payment (e ∷ es) =
    rw (pays_back_nothing e, sum_entries-no_payment es) (zero-+ℤ (pos 0))

module _ (db : Db) (u order_id : ℕ) (a : Decimal) where
  abbrev credit : AccountLedgerEntry
  credit = new_entry (order_credit_values u a order_id) db

  abbrev credited : Db
  credited = append_entry (order_credit_values u a order_id) db

  position-credited : position credited u ≡ position db u +ℤ a
  unfolding position sum_entries
  position-credited =
      rw (sum_entries-append (of_user u) (Db.entries db) (credit ∷ [])) (grind int_laws)

  -- A credit is no refund, so that it takes nothing off a lot.
  credit_capacity-credited : credit_capacity credited ≡ credit_capacity db
  unfolding credit_capacity used_of_credit
  credit_capacity-credited = fun_ext (λ c. rw (
    sum_entries-append_other (pays_back_order (AccountLedgerEntry.order_id c)) (Db.entries db)
        credit refl,
    sum_entries-append_other (pays_back_payment (AccountLedgerEntry.payment_id c)) (Db.entries db)
        credit refl,
  ))

  capacity-new :
      used_of_credit db (Db.next_entry_id db) ≡ pos 0
      → debited_total db order_id ≡ pos 0
      → credit_capacity db credit ≡ a
  unfolding credit_capacity debited_total
  capacity-new h k =
      rw (h, k, sum_entries-no_payment (Db.entries db)) (eq_of_parts _ a (grind int_laws))

  lots-credited : pos 0 <ℤ a → lots credited u ≡ lots db u ++ credit ∷ []
  lots-credited h = select_where-append_one (is_lot u) (Db.entries db) credit (ground arith)

  credited-IsCovered :
      pos 0 <ℤ a
      → used_of_credit db (Db.next_entry_id db) ≡ pos 0
      → debited_total db order_id ≡ pos 0
      → IsCovered db u
      → IsCovered credited u
  credited-IsCovered p h k c =
      rw
        (
          position-credited,
          credit_capacity-credited,
          lots-credited p,
          total_capacity-append (credit_capacity db) (lots db u) credit,
          capacity-new h k,
        )
        (grind (int_laws, c))

abs_ℤ-pos : (r : Decimal) → pos 0 <ℤ r → abs_ℤ r ≡ r
abs_ℤ-pos r h = ground arith

-- On a covered account, crediting a whole positive number of rubles for an order that the ledger has
-- no row for yet, no refund included, and under an entry id that no allocation names, goes through:
-- the position rises by exactly the credit, and the account is covered again.
pub create_order_credit-IsCovered :
    (db : Db) (u order_id : ℕ) (r : Decimal)
    → pos 0 <ℤ r
    → is_whole r ≡ true
    → first_where (conflicts_with (order_credit_values u (abs_ℤ r) order_id)) (Db.entries db) ≡ none
    → used_of_credit db (Db.next_entry_id db) ≡ pos 0
    → debited_total db order_id ≡ pos 0
    → IsCovered db u
    → let (answer, after) = create_order_credit u r order_id db in
      (answer ≡ ok (new_entry (order_credit_values u (abs_ℤ r) order_id) db, true))
      × (position after u ≡ position db u +ℤ r)
      × IsCovered after u
create_order_credit-IsCovered db u order_id r h w f i d c =
    rw (create_order_credit_new db u order_id r h w f) (
      refl,
      position-credited db u order_id (abs_ℤ r) ∙ ap (λ x. position db u +ℤ x) (abs_ℤ-pos r h),
      credited-IsCovered db u order_id (abs_ℤ r) (omega arith) i d c,
    )
