-- ===== src/Tests.antt =====
-- Concrete runs: the theorems at given inputs.
pub mod Utils
pub mod Refunds
pub mod Sync
pub mod Fields
pub mod Auth
pub mod Callbacks
pub mod Payments
pub mod Sweeps
pub mod Offers
