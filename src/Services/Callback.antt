-- ===== src/Services/Callback.antt =====
-- Notifications of the channel: libs/drogon-pay/src/services/CallbackService.cc. `Types` has the
-- delivery, the tables and what the service is given, `Window` the freshness of a timestamp, `Reserve`
-- the reservation of a notification's key, `Verify` the checks before any statement, `Trade` and
-- `Payment` the transaction of `handlePaymentCallback`, and `Deliver` the handler around it.
pub mod Types
pub mod Window
pub mod Reserve
pub mod Verify
pub mod Trade
pub mod Payment
pub mod Deliver
pub mod Refund
pub mod RefundDeliver
pub mod Authentic
pub mod Accepts
pub mod Audit
pub mod Settled
pub mod Walk
pub mod AllOrNothing
pub mod Lifecycle
pub mod Reserved
pub mod Twice
pub mod RefundSettled
pub mod RefundWalk
pub mod RefundEnds
