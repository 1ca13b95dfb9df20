-- ===== src/Ledger/Coverage.antt =====
-- The lots of a user cover the user's balance: the reason why a debit that the balance allows is
-- never refused by `_allocate_fifo`.
use just1kbot.Prelude.{ℕ, ◌==◌, pos, ◌+ℤ◌, ◌≤ℤ◌, List, ◌≡◌, select_where}
use just1kbot.Database.{Decimal, AccountLedgerEntry, Db}
use just1kbot.Ledger.Balance.{position}
use just1kbot.Ledger.Lots.{credit_capacity, is_lot}
use just1kbot.Ledger.Lots.Sums.{total_capacity}
pub mod Append
pub mod Spending
pub mod Credit
pub mod Debit
