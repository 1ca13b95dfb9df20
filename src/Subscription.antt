-- ===== src/Subscription.antt =====
-- services/subscription.py: who has access, how a subscription is extended, and whether a referrer
-- may be attached.
pub mod Access
pub mod Extension
pub mod Replacement
pub mod Referrer
pub mod Onboarding
