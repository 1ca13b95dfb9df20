-- ===== src/Ledger/Operations/RefundCap.antt =====
-- The cumulative cap on what is paid back of an order.
use just1kbot.Prelude.{
  ℕ, pos, ◌+ℤ◌, ◌≤ℤ◌, ◌<ℤ◌, leb_ℤ, abs_ℤ, neg_ℤ, int_laws, Bool, true, false, String, str_eq, [],
  ◌∷◌, ◌⊎◌, inl, inr, ◌≡◌, refl, arith,
}
use just1kbot.Database.{Decimal, AccountLedgerEntry, Db, Action, Error, ok, err, and_then, raise_if}
use just1kbot.Ledger.Balance.{whole_rubles, sum_entries}
use just1kbot.Ledger.Entries.{EntryValues, new_entry, append_entry, insert_or_get_entry}
use just1kbot.Ledger.Lots.Sums.{sum_entries-append, sum_entries-append_other}
use just1kbot.Ledger.Operations.{
  order_refund_values, is_refund_of_order, is_credit_of_order, credit_total, debited_total,
  exceeds_credit, round_half_up, create_order_refund_debit,
}

-- An insert leaves the ledger as it is or appends the one row.
pub insert_or_get_entry-after :
    (v : EntryValues) (lookup : AccountLedgerEntry → Bool) (db : Db)
    → ((insert_or_get_entry v lookup db).1 ≡ db)
      ⊎ ((insert_or_get_entry v lookup db).1 ≡ append_entry v db)
unfolding insert_or_get_entry
insert_or_get_entry-after v lookup db = ground arith

-- What holds of the state before a guard and of the state after the rest holds of the whole.
raise_if-elim :
    {A : Type 0} (P : Db → Type 0) (c : Bool) (e : Error) (k : Unit {0} → Action A) (db : Db)
    → P db
    → (c ≡ false → P (k tt db).1)
    → P (and_then (raise_if c e db) k).1
raise_if-elim P true e k db h f = h
raise_if-elim P false e k db h f = f refl

whole_rubles-value :
    (a : Decimal) (z : Bool) (db : Db)
    → (whole_rubles a z db ≡ (ok a, db)) ⊎ (whole_rubles a z db ≡ (err Error.value_error, db))
unfolding whole_rubles
whole_rubles-value a z db = ground arith

whole_rubles-elim :
    {A : Type 0} (P : Db → Type 0) (a : Decimal) (z : Bool) (k : Decimal → Action A) (db : Db)
    → P db
    → P (k a db).1
    → P (and_then (whole_rubles a z db) k).1
whole_rubles-elim P a z k db h f =
    elim (whole_rubles-value a z db) as (λ _. P (and_then (whole_rubles a z db) k).1) [
      | inl v ↦ rw v f
      | inr v ↦ rw v h
    ]

module _ (strip : String → String) (u order_id : ℕ) (a : Decimal) (refund_id : String)
    (db : Db) where
  abbrev signed : Decimal
  signed = neg_ℤ (abs_ℤ (round_half_up a))

  abbrev values : EntryValues
  values = order_refund_values u signed order_id (strip refund_id)

  abbrev after : Db
  after = (create_order_refund_debit strip u a order_id refund_id db).1

  abbrev Outcome : Db → Type 0
  Outcome d =
      (d ≡ db) ⊎ ((exceeds_credit db order_id signed ≡ false) × (d ≡ append_entry values db))

  -- The call leaves the ledger as it is, or it appends a debit that the cap admits.
  refund-after : Outcome after
  unfolding create_order_refund_debit
  refund-after =
      raise_if-elim Outcome (str_eq (strip refund_id) "") Error.value_error _ db (inl refl) (λ _.
        raise_if-elim Outcome (leb_ℤ (round_half_up a) (pos 0)) Error.value_error _ db (inl refl)
          (λ _. whole_rubles-elim Outcome (round_half_up a) false _ db (inl refl) (
            raise_if-elim Outcome (exceeds_credit db order_id signed) Error.ledger_invariant _ db
              (inl refl)
              (λ x.
                elim (insert_or_get_entry-after values (λ _. false) db)
                  as (λ _. Outcome (insert_or_get_entry values (λ _. false) db).1) [
                    | inl e ↦ inl e
                    | inr e ↦ inr (x, e)
                  ]))))

  debited_total-append :
      debited_total (append_entry values db) order_id ≡ debited_total db order_id +ℤ signed
  unfolding debited_total sum_entries
  debited_total-append =
      rw
        (sum_entries-append (is_refund_of_order order_id) (Db.entries db)
          (new_entry values db ∷ []))
        (grind int_laws)

  credit_total-append : credit_total (append_entry values db) order_id ≡ credit_total db order_id
  unfolding credit_total
  credit_total-append =
      sum_entries-append_other (is_credit_of_order order_id) (Db.entries db) (new_entry values db)
        refl

  -- Refunds of an order never exceed its credit: if what was paid back of a credited order is within
  -- the credit, then after any further call, whether it succeeds or raises, it still is, and the
  -- credit is what it was.
  pub create_order_refund_debit-capped :
      pos 0 <ℤ credit_total db order_id
      → abs_ℤ (debited_total db order_id) ≤ℤ credit_total db order_id
      → (credit_total after order_id ≡ credit_total db order_id)
        × (abs_ℤ (debited_total after order_id) ≤ℤ credit_total after order_id)
  unfolding exceeds_credit
  create_order_refund_debit-capped h k = elim refund-after [
    | inl e ↦ rw e (refl, k)
    | inr (x, e) ↦
        rw (e, credit_total-append, debited_total-append) (refl, grind (int_laws, h, k, x))
  ]
