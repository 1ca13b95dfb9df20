-- ===== src/Examples.antt =====
-- The theorems at concrete inputs.
mod Data
mod Ledger
mod Orders
mod Referrals
mod Dates
mod Extras
mod Lifecycle
mod Metering
mod Access
