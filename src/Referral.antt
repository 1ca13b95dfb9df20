-- ===== src/Referral.antt =====
-- services/referral_bonus.py: the tier of a referrer, the bonus that a payment earns, its grant and
-- its reversal. A call of this service names the order that was paid; the legacy `payment_id` is
-- not given by the callers.
pub mod Tiers
pub mod Activity
pub mod Grant
pub mod Reversal
