-- ===== src/Fulfillment.antt =====
-- services/fulfillment_service.py: what a paid order gives, and what a refund takes back.
pub mod Operations
pub mod Standard
pub mod Revocation
pub mod RoundTrip
