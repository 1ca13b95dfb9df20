-- ===== src/Ledger/Entries.antt =====
-- `_insert_or_get_entry`: an insert that loses to a unique index falls back on the row it met.
use just1kbot.Prelude.{
  ℕ, suc, ◌==◌, pos, ltb_ℤ, eqb_ℤ, Bool, true, false, not, ◌&&◌, ◌||◌, Option, none, some, [], ◌∷◌,
  ◌++◌, first_where,
}
use just1kbot.Database.{
  EntryType, payment_credit, purchase_debit, purchase_reversal, refund_debit, chargeback_debit,
  admin_adjustment, IdempotencyKey, Decimal, EntryMetadata, AccountLedgerEntry, Db, Action, Error,
  pure, raise, ◌>>=◌, ◌>>◌, gets, modify, raise_if, is_payment_credit, is_purchase_debit, type_eq,
  key_eq,
}
use just1kbot.Ledger.Balance.{is_whole}

-- The columns that a caller gives; the others are the database's.
pub record EntryValues : Type 0 where
  pub user_id : ℕ
  pub entry_type : EntryType
  pub amount : Decimal
  pub payment_id : Option ℕ
  pub quote_id : Option ℕ
  pub order_id : Option ℕ
  pub reversal_of_id : Option ℕ
  pub idempotency_key : IdempotencyKey
  pub metadata : EntryMetadata

abbrev pub is_null : Option ℕ → Bool
is_null none = true
is_null (some _) = false

-- Python's `==` on two columns: two nulls are equal.
abbrev pub opt_eq : Option ℕ → Option ℕ → Bool
opt_eq none none = true
opt_eq (some a) (some b) = a == b
opt_eq _ _ = false

-- SQL's `=`: a null equals nothing.
abbrev pub sql_eq : Option ℕ → Option ℕ → Bool
sql_eq (some a) (some b) = a == b
sql_eq _ _ = false

-- `ck_account_ledger_entry_shape`, by the type of the entry.
check_shape : EntryType → EntryValues → Bool
check_shape payment_credit v =
    ltb_ℤ (pos 0) v.amount
    && ((not (is_null v.payment_id) || not (is_null v.order_id))
        && (is_null v.quote_id && is_null v.reversal_of_id))
check_shape purchase_debit v =
    ltb_ℤ v.amount (pos 0)
    && (is_null v.payment_id
        && ((not (is_null v.quote_id) || not (is_null v.order_id)) && is_null v.reversal_of_id))
check_shape purchase_reversal v =
    ltb_ℤ (pos 0) v.amount
    && (is_null v.payment_id
        && ((not (is_null v.quote_id) || not (is_null v.order_id))
            && not (is_null v.reversal_of_id)))
check_shape refund_debit v =
    ltb_ℤ v.amount (pos 0)
    && ((not (is_null v.payment_id) || not (is_null v.order_id))
        && (is_null v.quote_id && is_null v.reversal_of_id))
check_shape chargeback_debit v =
    ltb_ℤ v.amount (pos 0)
    && ((not (is_null v.payment_id) || not (is_null v.order_id))
        && (is_null v.quote_id && is_null v.reversal_of_id))
check_shape admin_adjustment v =
    is_null v.payment_id && (is_null v.quote_id && is_null v.reversal_of_id)

-- `ck_account_ledger_whole_nonzero_amount` and the shape.
unfoldable pub satisfies_checks : EntryValues → Bool
unfolding check_shape
satisfies_checks v =
    not (eqb_ℤ v.amount (pos 0)) && (is_whole v.amount && check_shape v.entry_type v)

-- The partial unique indexes, by the type that each of them covers.
violates_index : EntryType → AccountLedgerEntry → EntryValues → Bool
violates_index payment_credit e v =
    is_payment_credit e.entry_type
    && (sql_eq e.payment_id v.payment_id || sql_eq e.order_id v.order_id)
violates_index purchase_debit e v =
    is_purchase_debit e.entry_type && (sql_eq e.quote_id v.quote_id || sql_eq e.order_id v.order_id)
violates_index purchase_reversal e v =
    type_eq e.entry_type purchase_reversal && sql_eq e.reversal_of_id v.reversal_of_id
violates_index _ e v = false

-- `ON CONFLICT DO NOTHING` looks at the unique key and at the partial indexes.
unfoldable pub conflicts_with : EntryValues → AccountLedgerEntry → Bool
unfolding violates_index
conflicts_with v e = key_eq e.idempotency_key v.idempotency_key || violates_index v.entry_type e v

abbrev pub new_entry : EntryValues → Db → AccountLedgerEntry
new_entry v db = record {
  id = Db.next_entry_id db;
  user_id = EntryValues.user_id v;
  entry_type = EntryValues.entry_type v;
  amount = EntryValues.amount v;
  payment_id = EntryValues.payment_id v;
  quote_id = EntryValues.quote_id v;
  order_id = EntryValues.order_id v;
  reversal_of_id = EntryValues.reversal_of_id v;
  idempotency_key = EntryValues.idempotency_key v;
  metadata = EntryValues.metadata v;
  created_at = Db.now db;
}

-- The sequence yields a value above all before it.
abbrev pub append_entry : EntryValues → Db → Db
append_entry v db = record db {
  entries = Db.entries db ++ new_entry v db ∷ [];
  next_entry_id = suc (Db.next_entry_id db);
}

-- `_same_entry` against `expected`.
unfoldable pub same_entry : AccountLedgerEntry → EntryValues → Bool
same_entry e v =
    e.user_id == v.user_id
    && (type_eq e.entry_type v.entry_type
        && (eqb_ℤ e.amount v.amount
            && (opt_eq e.payment_id v.payment_id
                && (opt_eq e.quote_id v.quote_id
                    && (opt_eq e.order_id v.order_id
                        && (opt_eq e.reversal_of_id v.reversal_of_id
                            && key_eq e.idempotency_key v.idempotency_key))))))

abbrev pub accept_same :
    Option AccountLedgerEntry → EntryValues → Action (AccountLedgerEntry × Bool)
accept_same none v = raise Error.conflict
accept_same (some e) v = do raise_if (not (same_entry e v)) Error.conflict; pure (e, false)

abbrev pub insert_new : EntryValues → Action (AccountLedgerEntry × Bool)
insert_new v = do entry ← gets (new_entry v); modify (append_entry v); pure (entry, true)

-- The flag says whether the entry is new.
unfoldable pub insert_or_get_entry :
    EntryValues → (AccountLedgerEntry → Bool) → Action (AccountLedgerEntry × Bool)
insert_or_get_entry v economic_lookup db =
    (do
      raise_if (not (satisfies_checks v)) Error.integrity_error
      elim (first_where (conflicts_with v) (Db.entries db)) [
        | none ↦ insert_new v
        | some _ ↦
            accept_same
              (first_where (λ e. key_eq e.idempotency_key v.idempotency_key || economic_lookup e)
                (Db.entries db))
              v
      ])
      db
