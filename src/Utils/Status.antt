-- ===== src/Utils/Status.antt =====
-- The channel's states as local states, from libs/drogon-pay/src/utils/PayUtils.cc: `mapTradeState`,
-- `mapRefundStatus`, `refundsCoverOrderAmount` and `resolveRefundedOrderStatus`.
pub mod Settles
use drogon_pay.Common.{String, Bool, not, ◌&&◌, ◌||◌, Option, none, some, str_eq, if◌then◌else◌}
use drogon_pay.Common.Int.{ℤ, pos, ltb_ℤ, leb_ℤ}
use drogon_pay.Models.Status.{
  OrderStatus, paying, paid, refunded, closed, failed, PaymentStatus, processing, success, fail,
  RefundStatus, refunding, refund_success, refund_fail, is_refunded,
}

-- The two out parameters of `mapTradeState`.
pub record TradeStatus : Type 0 where
  pub order_status : OrderStatus
  pub payment_status : PaymentStatus

abbrev pub trade_status : OrderStatus → PaymentStatus → TradeStatus
trade_status o p = record { order_status = o; payment_status = p }

unfoldable pub map_trade_state : String → TradeStatus
map_trade_state trade_state =
    if str_eq trade_state "SUCCESS"
    then trade_status paid success
    else if str_eq trade_state "USERPAYING" || str_eq trade_state "NOTPAY"
    then trade_status paying processing
    else if str_eq trade_state "REFUND"
    then trade_status refunded success
    else if str_eq trade_state "CLOSED" || str_eq trade_state "REVOKED"
    then trade_status closed fail
    else trade_status failed fail

-- `none` is the empty text, for a state that the code does not know.
unfoldable pub map_refund_status : String → Option RefundStatus
map_refund_status wechat_status =
    if str_eq wechat_status "SUCCESS"
    then some refund_success
    else if str_eq wechat_status "CLOSED"
    then some refund_fail
    else if str_eq wechat_status "ABNORMAL"
    then some refund_fail
    else if str_eq wechat_status "PROCESSING"
    then some refunding
    else none

unfoldable pub refunds_cover_order_amount : ℤ → ℤ → Bool
refunds_cover_order_amount settled_refund_fen order_total_fen =
    ltb_ℤ (pos 0) order_total_fen && leb_ℤ order_total_fen settled_refund_fen

unfoldable pub resolve_refunded_order_status : OrderStatus → ℤ → ℤ → OrderStatus
unfolding refunds_cover_order_amount
resolve_refunded_order_status mapped_order_status settled_refund_fen order_total_fen =
    if is_refunded mapped_order_status
      && not (refunds_cover_order_amount settled_refund_fen order_total_fen)
    then paid
    else mapped_order_status
