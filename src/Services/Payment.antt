-- ===== src/Services/Payment.antt =====
-- Payments: libs/drogon-pay/src/services/PaymentService.cc. `Refusals`, `QrOffer`, `Qr` and `QrRequest` have
-- createQRPayment, `QrAdds`, `QrBooks` and `QrCreates` are about it. `Sync` has what an answer to a query
-- writes, `Answers` the two syncs and what they make of the answers; `Synced`, `SyncEnds` and `Pays` are
-- about the tables behind them.
pub mod Sync
pub mod Answers
pub mod Synced
pub mod SyncEnds
pub mod Pays
pub mod Verdicts
pub mod Refusals
pub mod QrOffer
pub mod Qr
pub mod QrRequest
pub mod QrAdds
pub mod QrBooks
pub mod QrCreates
