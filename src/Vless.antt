-- ===== src/Vless.antt =====
-- database/repositories/vless_subscription_repo.py: the devices that may use a subscription, and the
-- credentials that they use.
pub mod Devices
pub mod Limit
pub mod Credentials
pub mod Revocations
