-- ===== src/Ledger.antt =====
-- The user's real-money account, database/repositories/account_ledger_repo.py: an append-only ledger
-- of signed entries and the allocations that attribute each debit to earlier credits.
pub mod Balance
pub mod Entries
pub mod Lots
pub mod Operations
pub mod Coverage
