-- ===== src/Services.antt =====
-- The services of libs/drogon-pay/src/services.
pub mod Idempotency
pub mod Refund
pub mod Callback
pub mod Payment
pub mod Reconciliation
