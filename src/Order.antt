-- ===== src/Order.antt =====
-- services/order-service: the states of an order, and the payments that move them.
pub mod State
pub mod Payments
pub mod Service
pub mod Request
pub mod Trusted
pub mod Checkout
pub mod Manual
pub mod Orders
pub mod Placement
mod Tests
