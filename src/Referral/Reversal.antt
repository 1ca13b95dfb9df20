-- ===== src/Referral/Reversal.antt =====
-- `reverse_referral_bonus_for_topup` and `get_referral_bonus_balance`.
pub mod Cap
use just1kbot.Prelude.{
  ℕ, ◌==◌, pos, ◌+ℤ◌, ◌-ℤ◌, ltb_ℤ, leb_ℤ, max_ℤ, min_ℤ, abs_ℤ, neg_ℤ, Bool, true, false, ◌&&◌, none,
  some, List, [], ◌∷◌, String, first_where, select_where, if◌then◌else◌,
}
use just1kbot.Database.{
  referral_bonus_reversal, EntryMetadata, AccountLedgerEntry, Decimal, Db, Action, pure, ◌>>=◌,
  ◌>>◌, gets, is_admin_adjustment, key_eq,
}
use just1kbot.Ledger.Balance.{AccountBalanceSnapshot, sum_entries, get_account_balance}
use just1kbot.Ledger.Entries.{EntryValues, sql_eq}
use just1kbot.Ledger.Operations.{admin_adjustment_values}
use just1kbot.Referral.Grant.{add_entry}

-- The credits that an order earned, by their metadata.
abbrev pub is_bonus_of_order : ℕ → AccountLedgerEntry → Bool
is_bonus_of_order order_id e =
    is_admin_adjustment (AccountLedgerEntry.entry_type e)
    && (ltb_ℤ (pos 0) (AccountLedgerEntry.amount e)
        && (EntryMetadata.is_referral_bonus (AccountLedgerEntry.metadata e)
            && sql_eq (EntryMetadata.topup_order_id (AccountLedgerEntry.metadata e))
                (some order_id)))

abbrev is_own_debit : AccountLedgerEntry → AccountLedgerEntry → Bool
is_own_debit credit e =
    AccountLedgerEntry.user_id e == AccountLedgerEntry.user_id credit
    && (is_admin_adjustment (AccountLedgerEntry.entry_type e)
        && ltb_ℤ (AccountLedgerEntry.amount e) (pos 0))

abbrev pub is_reversal_of : AccountLedgerEntry → AccountLedgerEntry → Bool
is_reversal_of credit e =
    is_own_debit credit e
    && sql_eq (EntryMetadata.original_credit_id (AccountLedgerEntry.metadata e))
        (some (AccountLedgerEntry.id credit))

-- All of these are negative, so that the sum of the absolute values is that of the sum.
unfoldable pub already_reversed : Db → AccountLedgerEntry → Decimal
already_reversed db credit = abs_ℤ (sum_entries (is_reversal_of credit) db.entries)

unfoldable pub reversal_values : ℕ → String → AccountLedgerEntry → Decimal → EntryValues
reversal_values order_id refund_id credit amount =
    admin_adjustment_values credit.user_id amount
      (referral_bonus_reversal order_id credit.user_id refund_id)
      (record {
        is_referral_bonus = true;
        topup_order_id = some order_id;
        original_credit_id = some credit.id;
      })

-- What is left of a credit is debited again.
unfoldable pub reverse_rest : ℕ → String → AccountLedgerEntry → Decimal → Action Decimal
unfolding reversal_values
reverse_rest order_id refund_id credit reversal_val =
    if leb_ℤ reversal_val (pos 0) then pure (pos 0) else do
      add_entry (reversal_values order_id refund_id credit (neg_ℤ (abs_ℤ reversal_val)))
      pure (abs_ℤ reversal_val)

-- One credit: a reversal under the same key counts as done.
unfoldable pub reverse_credit : ℕ → String → AccountLedgerEntry → Action Decimal
reverse_credit order_id refund_id credit db =
    elim (first_where
      (λ e.
        is_own_debit credit e
        && key_eq (AccountLedgerEntry.idempotency_key e)
            (referral_bonus_reversal order_id credit.user_id refund_id))
      (Db.entries db)) [
        | some existing ↦ pure (abs_ℤ (AccountLedgerEntry.amount existing)) db
        | none ↦
            reverse_rest order_id refund_id credit
              (max_ℤ (pos 0) (credit.amount -ℤ already_reversed db credit)) db
      ]

unfoldable pub reverse_credits : ℕ → String → List AccountLedgerEntry → Action Decimal
reverse_credits order_id refund_id [] = pure (pos 0)
reverse_credits order_id refund_id (credit ∷ credits) = do
  reversed ← reverse_credit order_id refund_id credit
  rest ← reverse_credits order_id refund_id credits
  pure (reversed +ℤ rest)

-- `refund_id` is "" when the caller gives none.
unfoldable pub reverse_referral_bonus_for_topup : ℕ → String → Action Decimal
reverse_referral_bonus_for_topup order_id refund_id = do
  credits ← gets (λ db. select_where (is_bonus_of_order order_id) (Db.entries db))
  reverse_credits order_id refund_id credits

-- `net_referral` is what the ledger holds of referral bonuses, reversals included.
capped_balance : Decimal → AccountBalanceSnapshot → Decimal
capped_balance net_referral balance =
    let remaining = max_ℤ (pos 0) net_referral in
    min_ℤ
      (if ltb_ℤ (pos 0) balance.debt then max_ℤ (pos 0) (remaining -ℤ balance.debt) else remaining)
      balance.bonus_available

unfoldable pub get_referral_bonus_balance : ℕ → Action Decimal
unfolding capped_balance
get_referral_bonus_balance user_id = do
  net_referral ← gets (λ db.
      sum_entries
        (λ e.
          AccountLedgerEntry.user_id e == user_id
          && (is_admin_adjustment (AccountLedgerEntry.entry_type e)
              && EntryMetadata.is_referral_bonus (AccountLedgerEntry.metadata e)))
        (Db.entries db))
  balance ← get_account_balance user_id false none
  pure (capped_balance net_referral balance)
