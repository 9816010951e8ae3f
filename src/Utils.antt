-- ===== src/Utils.antt =====
-- The pure helpers of libs/drogon-pay/src/utils: amounts, channel states, notify URLs, path segments,
-- order fields, timestamps and the once-only callback.
pub mod Amount
pub mod Status
pub mod Host
pub mod NotifyUrl
pub mod PathSegment
pub mod OrderFields
pub mod OnceCallback
pub mod Deadline
