-- ===== src/Ledger/Balance/Buckets.antt =====
-- What `get_account_balance` reports: the position, split into what is real money and what is bonus.
use just1kbot.Prelude.{ℕ, pos, ◌+ℤ◌, ◌-ℤ◌, ◌≤ℤ◌, ◌⊎◌, ◌≡◌, arith}
use just1kbot.Database.{Decimal, Db}
use just1kbot.Ledger.Balance.{
  AccountBalanceSnapshot, snapshot_of, snapshot, position, bonus_credited, bonus_spent,
}

-- What every balance report satisfies.
pub record IsBalanced (position : Decimal) (s : AccountBalanceSnapshot) : Type 0 where
  pub nets : AccountBalanceSnapshot.available s -ℤ AccountBalanceSnapshot.debt s ≡ position
  pub splits :
      AccountBalanceSnapshot.real_available s +ℤ AccountBalanceSnapshot.bonus_available s
      ≡ AccountBalanceSnapshot.available s
  pub real_nonneg : pos 0 ≤ℤ AccountBalanceSnapshot.real_available s
  pub bonus_nonneg : pos 0 ≤ℤ AccountBalanceSnapshot.bonus_available s
  pub debt_nonneg : pos 0 ≤ℤ AccountBalanceSnapshot.debt s
  pub exclusive :
      (AccountBalanceSnapshot.debt s ≡ pos 0) ⊎ (AccountBalanceSnapshot.available s ≡ pos 0)

snapshot_of-IsBalanced :
    (position credited spent : Decimal) → IsBalanced position (snapshot_of position credited spent)
unfolding snapshot_of ◌+ℤ◌ ◌-ℤ◌
snapshot_of-IsBalanced position credited spent = ground arith

-- A report nets out to the ledger's position: what is available less the debt. Available money is
-- the real money and the bonus together, neither of them negative, and whoever has a debt has
-- nothing available.
pub snapshot-IsBalanced :
    (db : Db) (user_id : ℕ) → IsBalanced (position db user_id) (snapshot db user_id)
unfolding snapshot
snapshot-IsBalanced db user_id =
    snapshot_of-IsBalanced (position db user_id) (bonus_credited db user_id)
      (bonus_spent db user_id)
