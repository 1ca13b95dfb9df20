-- ===== src/Ledger/Operations.antt =====
-- The mutators of the ledger, and the pages of its history.
pub mod Idempotence
pub mod RefundCap
use just1kbot.Prelude.{
  ℕ, ◌+◌, ◌*◌, ◌/◌, ◌==◌, pos, negsuc, ◌+ℤ◌, ltb_ℤ, leb_ℤ, eqb_ℤ, neg_ℤ, abs_ℤ, Bool, true, false,
  not, ◌&&◌, ◌||◌, Option, none, some, first_where, String, str_eq, if◌then◌else◌,
}
use just1kbot.Database.{
  payment_credit, purchase_debit, refund_debit, admin_adjustment, IdempotencyKey, order_debit,
  order_credit, order_refund, Decimal, EntryMetadata, AccountLedgerEntry, User, Db, Action, Error,
  pure, ◌>>=◌, ◌>>◌, gets, raise_if, is_payment_credit, is_purchase_debit, is_external_debit,
  key_eq,
}
use just1kbot.Ledger.Balance.{
  AccountBalanceSnapshot, whole_rubles, is_whole, lock_account_user, get_account_balance,
  sum_entries,
}
use just1kbot.Ledger.Entries.{EntryValues, sql_eq, insert_or_get_entry}
use just1kbot.Ledger.Lots.{allocate_fifo}

-- `metadata or {}`: no key that a query reads back.
abbrev pub no_metadata : EntryMetadata
no_metadata = record { is_referral_bonus = false; topup_order_id = none; original_credit_id = none }

abbrev pub is_debit_of_order : ℕ → AccountLedgerEntry → Bool
is_debit_of_order order_id e =
    is_purchase_debit (AccountLedgerEntry.entry_type e)
    && sql_eq (AccountLedgerEntry.order_id e) (some order_id)

abbrev pub is_credit_of_order : ℕ → AccountLedgerEntry → Bool
is_credit_of_order order_id e =
    is_payment_credit (AccountLedgerEntry.entry_type e)
    && sql_eq (AccountLedgerEntry.order_id e) (some order_id)

abbrev pub is_refund_of_order : ℕ → AccountLedgerEntry → Bool
is_refund_of_order order_id e =
    is_external_debit (AccountLedgerEntry.entry_type e)
    && sql_eq (AccountLedgerEntry.order_id e) (some order_id)

abbrev pub order_debit_values : ℕ → Decimal → ℕ → EntryValues
order_debit_values user_id amount order_id = record {
  user_id = user_id;
  entry_type = purchase_debit;
  amount = amount;
  payment_id = none;
  quote_id = none;
  order_id = some order_id;
  reversal_of_id = none;
  idempotency_key = order_debit order_id;
  metadata = no_metadata;
}

abbrev pub allocate_if : Bool → ℕ → ℕ → Decimal → Action (Unit {0})
allocate_if true user_id debit_id amount = do allocate_fifo user_id debit_id amount; pure tt
allocate_if false user_id debit_id amount = pure tt

-- `create_order_debit` below the check for an earlier debit of the order.
unfoldable pub debit_fresh : User → Decimal → ℕ → Action (Option AccountLedgerEntry × Bool)
debit_fresh user amount order_id = do
  snapshot ← get_account_balance user.id false (some user)
  raise_if (ltb_ℤ (AccountBalanceSnapshot.available snapshot) (neg_ℤ amount))
      Error.insufficient_account_balance
  (debit, created) ←
      insert_or_get_entry (order_debit_values user.id amount order_id) (is_debit_of_order order_id)
  allocate_if created user.id (AccountLedgerEntry.id debit) (neg_ℤ amount)
  pure (some debit, created)

abbrev debit_again : User → Decimal → AccountLedgerEntry → Action (Option AccountLedgerEntry × Bool)
debit_again user amount existing = do
  raise_if
      (not (AccountLedgerEntry.user_id existing == User.id user)
        || not (eqb_ℤ (AccountLedgerEntry.amount existing) amount))
      Error.conflict
  pure (some existing, false)

-- `debit_fresh` unless the amount is zero or the order has a debit.
debit_or_existing : User → Decimal → ℕ → Action (Option AccountLedgerEntry × Bool)
debit_or_existing user amount order_id db =
    if eqb_ℤ amount (pos 0)
    then pure (none, false) db
    else elim (first_where (is_debit_of_order order_id) (Db.entries db)) [
      | none ↦ debit_fresh user amount order_id db
      | some existing ↦ debit_again user amount existing db
    ]

unfoldable pub create_order_debit :
    ℕ → Decimal → ℕ → Option User → Action (Option AccountLedgerEntry × Bool)
unfolding debit_or_existing
create_order_debit user_id amount_rub order_id locked_user = do
  rubles ← whole_rubles amount_rub true
  user ← lock_account_user user_id locked_user
  debit_or_existing user (neg_ℤ (abs_ℤ rubles)) order_id

abbrev pub order_credit_values : ℕ → Decimal → ℕ → EntryValues
order_credit_values user_id amount order_id = record {
  user_id = user_id;
  entry_type = payment_credit;
  amount = amount;
  payment_id = none;
  quote_id = none;
  order_id = some order_id;
  reversal_of_id = none;
  idempotency_key = order_credit order_id;
  metadata = no_metadata;
}

unfoldable pub create_order_credit : ℕ → Decimal → ℕ → Action (AccountLedgerEntry × Bool)
create_order_credit user_id amount_rub order_id = do
  rubles ← whole_rubles amount_rub false
  insert_or_get_entry (order_credit_values user_id (abs_ℤ rubles) order_id)
      (is_credit_of_order order_id)

-- `quantize(Decimal("1"), rounding=ROUND_HALF_UP)`: to the nearest ruble, a half away from zero.
unfoldable pub round_half_up : Decimal → Decimal
round_half_up (pos n) = pos ((n + 50) / 100 * 100)
round_half_up (negsuc n) = neg_ℤ (pos ((n + 51) / 100 * 100))

abbrev pub order_refund_values : ℕ → Decimal → ℕ → String → EntryValues
order_refund_values user_id amount order_id refund_id = record {
  user_id = user_id;
  entry_type = refund_debit;
  amount = amount;
  payment_id = none;
  quote_id = none;
  order_id = some order_id;
  reversal_of_id = none;
  idempotency_key = order_refund order_id refund_id;
  metadata = no_metadata;
}

unfoldable pub credit_total : Db → ℕ → Decimal
credit_total db order_id = sum_entries (is_credit_of_order order_id) db.entries

unfoldable pub debited_total : Db → ℕ → Decimal
debited_total db order_id = sum_entries (is_refund_of_order order_id) db.entries

-- The cumulative cap: a credit that is there bounds all that is paid back of it.
unfoldable pub exceeds_credit : Db → ℕ → Decimal → Bool
exceeds_credit db order_id amount =
    ltb_ℤ (pos 0) (credit_total db order_id)
    && ltb_ℤ (credit_total db order_id) (abs_ℤ (debited_total db order_id) +ℤ abs_ℤ amount)

-- `refund_id` is stripped of white space: `strip` is Python's.
unfoldable pub create_order_refund_debit :
    (String → String) → ℕ → Decimal → ℕ → String → Action (AccountLedgerEntry × Bool)
create_order_refund_debit strip user_id amount_rub order_id refund_id = do
  raise_if (str_eq (strip refund_id) "") Error.value_error
  let quantized = round_half_up amount_rub
  raise_if (leb_ℤ quantized (pos 0)) Error.value_error
  rubles ← whole_rubles quantized false
  let amount = neg_ℤ (abs_ℤ rubles)
  exceeds ← gets (λ db. exceeds_credit db order_id amount)
  raise_if exceeds Error.ledger_invariant
  insert_or_get_entry (order_refund_values user_id amount order_id (strip refund_id)) (λ _. false)

abbrev pub admin_adjustment_values : ℕ → Decimal → IdempotencyKey → EntryMetadata → EntryValues
admin_adjustment_values user_id amount key metadata = record {
  user_id = user_id;
  entry_type = admin_adjustment;
  amount = amount;
  payment_id = none;
  quote_id = none;
  order_id = none;
  reversal_of_id = none;
  idempotency_key = key;
  metadata = metadata;
}

unfoldable pub create_admin_adjustment :
    ℕ → Decimal → IdempotencyKey → EntryMetadata → Action (AccountLedgerEntry × Bool)
create_admin_adjustment user_id signed_amount key metadata = do
  lock_account_user user_id none
  raise_if (eqb_ℤ signed_amount (pos 0) || not (is_whole signed_amount)) Error.value_error
  (entry, created) ←
      insert_or_get_entry (admin_adjustment_values user_id signed_amount key metadata)
        (λ e. key_eq (AccountLedgerEntry.idempotency_key e) key)
  allocate_if (created && ltb_ℤ signed_amount (pos 0)) user_id (AccountLedgerEntry.id entry)
      (abs_ℤ signed_amount)
  pure (entry, created)
