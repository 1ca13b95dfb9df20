-- ===== src/WhiteInternet.antt =====
-- services/white_internet_service.py and database/repositories/white_internet_repo.py: the product
-- White Internet, a second kind of subscription with a quota of traffic.
pub mod Settings
pub mod Repository
pub mod Nodes
pub mod Checkout
pub mod Answers
pub mod Extras
pub mod Lifecycle
pub mod Trial
pub mod Admin
pub mod Metering
pub mod Setters
pub mod Changes
pub mod Rows
pub mod Reconciliation
