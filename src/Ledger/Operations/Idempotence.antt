-- ===== src/Ledger/Operations/Idempotence.antt =====
-- A credit is booked once, however often it is asked for.
use just1kbot.Prelude.{
  ℕ, pos, ◌<ℤ◌, eqb_ℤ, abs_ℤ, Bool, true, false, ◌||◌, none, some, List, [], ◌∷◌, ◌++◌, first_where,
  ◌≡◌, refl, arith,
}
use just1kbot.Database.{Decimal, AccountLedgerEntry, Db, Error, ok, err, key_eq, order_credit}
use just1kbot.Ledger.Balance.{is_whole, whole_rubles}
use just1kbot.Ledger.Entries.{
  EntryValues, satisfies_checks, conflicts_with, same_entry, new_entry, append_entry,
  insert_or_get_entry,
}
use just1kbot.Ledger.Operations.{order_credit_values, is_credit_of_order, create_order_credit}

-- A search that finds nothing finds a row that is appended, if the row is what it looks for.
pub first_where-appended :
    (p : AccountLedgerEntry → Bool) (es : List AccountLedgerEntry) (e : AccountLedgerEntry)
    → first_where p es ≡ none
    → p e ≡ true
    → first_where p (es ++ e ∷ []) ≡ some e
first_where-appended p [] e h k = rw k
first_where-appended p (f ∷ es) e h k = ground (arith, first_where-appended p es e)

-- Where a credit conflicts with no row, no row is the order's credit.
no_earlier_credit :
    (es : List AccountLedgerEntry) (u order_id : ℕ) (amount : Decimal)
    → first_where (conflicts_with (order_credit_values u amount order_id)) es ≡ none
    → first_where
        (λ e.
          key_eq (AccountLedgerEntry.idempotency_key e) (order_credit order_id)
          || is_credit_of_order order_id e)
        es
      ≡ none
unfolding conflicts_with
no_earlier_credit [] u order_id amount h = refl
no_earlier_credit (e ∷ es) u order_id amount h =
    ground (arith, no_earlier_credit es u order_id amount)

credit_checks :
    (u order_id : ℕ) (r : Decimal)
    → pos 0 <ℤ r
    → is_whole r ≡ true
    → satisfies_checks (order_credit_values u (abs_ℤ r) order_id) ≡ true
unfolding satisfies_checks
credit_checks u order_id r h w = ground arith

whole_rubles_positive :
    (r : Decimal) (db : Db) → pos 0 <ℤ r → is_whole r ≡ true → whole_rubles r false db ≡ (ok r, db)
unfolding whole_rubles
whole_rubles_positive r db h w = ground arith

-- The order's credit conflicts with another of the same order, whatever its amount.
conflicts_with-credit :
    (u order_id : ℕ) (a b : Decimal) (db : Db)
    → conflicts_with
        (order_credit_values u a order_id)
        (new_entry (order_credit_values u b order_id) db)
      ≡ true
unfolding conflicts_with
conflicts_with-credit u order_id a b db = ground arith

same_entry-new :
    (u order_id : ℕ) (a : Decimal) (db : Db)
    → same_entry
        (new_entry (order_credit_values u a order_id) db)
        (order_credit_values u a order_id)
      ≡ true
unfolding same_entry
same_entry-new u order_id a db = ground arith

same_entry-other :
    (u order_id : ℕ) (a b : Decimal) (db : Db)
    → eqb_ℤ a b ≡ false
    → same_entry
        (new_entry (order_credit_values u a order_id) db)
        (order_credit_values u b order_id)
      ≡ false
unfolding same_entry
same_entry-other u order_id a b db h = ground arith

conflicts_with-amount :
    (u order_id : ℕ) (a b : Decimal) (es : List AccountLedgerEntry)
    → first_where (conflicts_with (order_credit_values u a order_id)) es ≡ none
    → first_where (conflicts_with (order_credit_values u b order_id)) es ≡ none
unfolding conflicts_with
conflicts_with-amount u order_id a b [] h = refl
conflicts_with-amount u order_id a b (e ∷ es) h =
    ground (arith, conflicts_with-amount u order_id a b es)

module _ (db : Db) (u order_id : ℕ) (r : Decimal) where
  abbrev values : EntryValues
  values = order_credit_values u (abs_ℤ r) order_id

  -- The first credit of the order is added.
  pub create_order_credit_new :
      pos 0 <ℤ r
      → is_whole r ≡ true
      → first_where (conflicts_with (order_credit_values u (abs_ℤ r) order_id)) (Db.entries db)
        ≡ none
      → create_order_credit u r order_id db
        ≡ (ok (new_entry values db, true), append_entry values db)
  unfolding create_order_credit insert_or_get_entry
  create_order_credit_new h w f =
      rw (whole_rubles_positive r db h w, credit_checks u order_id r h w, f)

  -- Crediting a whole positive number of rubles for an order that conflicts with no row adds one
  -- entry; asking again hands back that entry, says that it is not new and changes nothing; asking
  -- for another whole positive amount is refused as a conflict and changes nothing.
  pub create_order_credit-again :
      (s : Decimal)
      → pos 0 <ℤ r
      → is_whole r ≡ true
      → pos 0 <ℤ s
      → is_whole s ≡ true
      → eqb_ℤ (abs_ℤ r) (abs_ℤ s) ≡ false
      → first_where (conflicts_with (order_credit_values u (abs_ℤ r) order_id)) (Db.entries db)
        ≡ none
      → let v = order_credit_values u (abs_ℤ r) order_id in
        let after = append_entry v db in
        (create_order_credit u r order_id db ≡ (ok (new_entry v db, true), after))
        × (create_order_credit u r order_id after ≡ (ok (new_entry v db, false), after))
        × (create_order_credit u s order_id after ≡ (err Error.conflict, after))
  unfolding create_order_credit insert_or_get_entry
  create_order_credit-again s h w hs ws ne f = (
    create_order_credit_new h w f,
    rw (
      whole_rubles_positive r (append_entry values db) h w,
      credit_checks u order_id r h w,
      first_where-appended (conflicts_with values) (Db.entries db) (new_entry values db) f
          (conflicts_with-credit u order_id (abs_ℤ r) (abs_ℤ r) db),
      first_where-appended
          (λ e.
            key_eq (AccountLedgerEntry.idempotency_key e) (order_credit order_id)
            || is_credit_of_order order_id e)
          (Db.entries db) (new_entry values db)
          (no_earlier_credit (Db.entries db) u order_id (abs_ℤ r) f) (ground arith),
      same_entry-new u order_id (abs_ℤ r) db,
    ),
    rw (
      whole_rubles_positive s (append_entry values db) hs ws,
      credit_checks u order_id s hs ws,
      first_where-appended (conflicts_with (order_credit_values u (abs_ℤ s) order_id))
          (Db.entries db) (new_entry values db)
          (conflicts_with-amount u order_id (abs_ℤ r) (abs_ℤ s) (Db.entries db) f)
          (conflicts_with-credit u order_id (abs_ℤ s) (abs_ℤ r) db),
      first_where-appended
          (λ e.
            key_eq (AccountLedgerEntry.idempotency_key e) (order_credit order_id)
            || is_credit_of_order order_id e)
          (Db.entries db) (new_entry values db)
          (no_earlier_credit (Db.entries db) u order_id (abs_ℤ r) f) (ground arith),
      same_entry-other u order_id (abs_ℤ r) (abs_ℤ s) db ne,
    ),
  )
