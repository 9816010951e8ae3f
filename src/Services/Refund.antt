-- ===== src/Services/Refund.antt =====
-- Refunds: libs/drogon-pay/src/services/RefundService.cc. `Types` has the request, the answer and
-- what the service is given, `Settle` the writes behind the channel's answer, `Invoke` the channel
-- call and `Create` the stages from the request to the channel call.
pub mod Types
pub mod Settle
pub mod Invoke
pub mod Create
pub mod Ledger
pub mod Sync
pub mod Request
pub mod Twice
pub mod Stages
pub mod Walk
pub mod Covered
pub mod Invariant
pub mod NeverOver
pub mod FinalRows
pub mod Covers
pub mod Release
pub mod Refusals
pub mod ReplyCases
pub mod Outcomes
pub mod SyncWalk
pub mod SyncCovered
pub mod LedgerOnce
