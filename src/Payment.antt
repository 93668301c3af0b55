-- ===== src/Payment.antt =====
-- The payment service (services/payment-service/src): transactions, refunds and webhooks.
pub mod Accept
pub mod Inbox
pub mod Refund
pub mod Transactions
pub mod Webhooks
