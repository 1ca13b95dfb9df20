-- ===== src/Ledger/Balance.antt =====
-- `whole_rubles`, the user's lock and `get_account_balance`.
pub mod Buckets
use just1kbot.Prelude.{
  ℕ, ◌+◌, ◌%◌, pos, pos_part, neg_part, ◌+ℤ◌, ◌-ℤ◌, ltb_ℤ, leb_ℤ, eqb_ℤ, max_ℤ, min_ℤ, neg_ℤ, Bool,
  true, false, not, ◌&&◌, ◌||◌, ◌==◌, Option, none, some, List, [], ◌∷◌, first_where, if◌then◌else◌,
}
use just1kbot.Database.{
  Decimal, AccountLedgerEntry, AccountLedgerAllocation, User, Db, Action, Error, pure, ◌>>=◌, ◌>>◌,
  gets, raise_if, or_raise, is_admin_adjustment,
}

-- `amount == amount.to_integral_value()`
abbrev pub is_whole : Decimal → Bool
is_whole amount = (pos_part amount + neg_part amount) % 100 == 0

-- The value is a `Decimal` already: floats, texts that are no number and infinities do not arise.
unfoldable pub whole_rubles : Decimal → Bool → Action Decimal
whole_rubles amount allow_zero = do
  raise_if (not (is_whole amount)) Error.value_error
  raise_if (ltb_ℤ amount (pos 0) || (eqb_ℤ amount (pos 0) && not allow_zero)) Error.value_error
  pure amount

-- The locks serialise transactions, so that each is one step on the database; here they read.
abbrev pub lock_checkout_user : ℕ → Action (Option User)
lock_checkout_user user_id = gets (λ db. first_where (λ u. User.id u == user_id) (Db.users db))

-- `locked_user or await lock_checkout_user(session, user_id)`
abbrev pub locked_or_read : Option User → ℕ → Action (Option User)
locked_or_read (some u) user_id = pure (some u)
locked_or_read none user_id = lock_checkout_user user_id

unfoldable pub lock_account_user : ℕ → Option User → Action User
lock_account_user user_id locked_user = do
  user ← locked_or_read locked_user user_id
  or_raise user Error.lookup_error

-- `coalesce(sum(amount), 0)` over the entries that a query selects.
unfoldable pub sum_entries : (AccountLedgerEntry → Bool) → List AccountLedgerEntry → Decimal
sum_entries p [] = pos 0
sum_entries p (e ∷ es) = (if p e then e.amount else pos 0) +ℤ sum_entries p es

-- The same over the allocations.
unfoldable pub sum_allocations :
    (AccountLedgerAllocation → Bool) → List AccountLedgerAllocation → Decimal
sum_allocations p [] = pos 0
sum_allocations p (a ∷ as_) = (if p a then a.amount else pos 0) +ℤ sum_allocations p as_

abbrev pub of_user : ℕ → AccountLedgerEntry → Bool
of_user user_id e = AccountLedgerEntry.user_id e == user_id

-- An entry that a user's bonus balance counts.
abbrev pub is_bonus_credit : ℕ → AccountLedgerEntry → Bool
is_bonus_credit user_id e =
    of_user user_id e
    && (is_admin_adjustment (AccountLedgerEntry.entry_type e)
        && ltb_ℤ (pos 0) (AccountLedgerEntry.amount e))

-- The join of an allocation with its credit, which must be an adjustment.
abbrev is_bonus_spending : List AccountLedgerEntry → ℕ → AccountLedgerAllocation → Bool
is_bonus_spending es user_id a =
    AccountLedgerAllocation.user_id a == user_id
    && (elim (first_where
        (λ e. AccountLedgerEntry.id e == AccountLedgerAllocation.credit_entry_id a) es) [
          | none ↦ false
          | some e ↦ is_admin_adjustment (AccountLedgerEntry.entry_type e)
        ])

pub record AccountBalanceSnapshot : Type 0 where
  pub accounting_position : Decimal
  pub available : Decimal
  pub debt : Decimal
  pub real_position : Decimal
  pub bonus_position : Decimal
  pub real_available : Decimal
  pub bonus_available : Decimal

unfoldable pub position : Db → ℕ → Decimal
position db user_id = sum_entries (of_user user_id) db.entries

unfoldable pub bonus_credited : Db → ℕ → Decimal
bonus_credited db user_id = sum_entries (is_bonus_credit user_id) db.entries

unfoldable pub bonus_spent : Db → ℕ → Decimal
bonus_spent db user_id = sum_allocations (is_bonus_spending db.entries user_id) db.allocations

-- `get_account_balance`, from its three sums.
unfoldable pub snapshot_of : Decimal → Decimal → Decimal → AccountBalanceSnapshot
snapshot_of position credited spent =
    let debt = max_ℤ (pos 0) (neg_ℤ position) in
    let bonus_available = min_ℤ position (max_ℤ (pos 0) (credited -ℤ spent)) in
    if leb_ℤ position (pos 0)
    then record {
      accounting_position = position;
      available = pos 0;
      debt = debt;
      real_position = pos 0;
      bonus_position = pos 0;
      real_available = pos 0;
      bonus_available = pos 0;
    }
    else if leb_ℤ credited (pos 0)
    then record {
      accounting_position = position;
      available = position;
      debt = debt;
      real_position = position;
      bonus_position = pos 0;
      real_available = position;
      bonus_available = pos 0;
    }
    else record {
      accounting_position = position;
      available = position;
      debt = debt;
      real_position = position -ℤ bonus_available;
      bonus_position = bonus_available;
      real_available = position -ℤ bonus_available;
      bonus_available = bonus_available;
    }

unfoldable pub snapshot : Db → ℕ → AccountBalanceSnapshot
snapshot db user_id =
    snapshot_of (position db user_id) (bonus_credited db user_id) (bonus_spent db user_id)

abbrev pub lock_if : Bool → ℕ → Option User → Action (Unit {0})
lock_if true user_id locked_user = do lock_account_user user_id locked_user; pure tt
lock_if false user_id locked_user = pure tt

unfoldable pub get_account_balance : ℕ → Bool → Option User → Action AccountBalanceSnapshot
get_account_balance user_id for_update locked_user = do
  lock_if for_update user_id locked_user
  gets (λ db. snapshot db user_id)
