-- ===== src/Handlers.antt =====
-- The handlers of libs/drogon-pay/src/handlers.
pub mod AuthCheck
