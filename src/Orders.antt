-- ===== src/Orders.antt =====
-- services/order_service.py: an order's price, its creation, its payment and its refund.
pub mod Pricing
pub mod Checkout
pub mod Settlement
pub mod Webhook
