-- ===== src/Services/Payment/Answers.antt =====
-- `syncOrderStatusFromWechat` and `syncOrderStatusFromAlipay`: what the channel answers to a query, as a
-- claim and a verdict on the order.
use drogon_pay.Common.{
  ℕ, String, not, ◌&&◌, ◌||◌, Option, none, some, str_eq, if◌then◌else◌, Bytes, codes, bytes_eq,
}
use drogon_pay.Common.Int.{ℤ, pos, negsuc}
use drogon_pay.Models.Status.{
  OrderStatus, is_paid, is_refunded, paying, paid, failed, processing, success, fail,
}
use drogon_pay.Models.Tables.{Db, succeeds, raises, mapper_fails}
use drogon_pay.Utils.Amount.{parse_amount_to_fen, amount_equals_fen}
use drogon_pay.Utils.Status.{
  TradeStatus, trade_status, map_trade_state, resolve_refunded_order_status,
}
use drogon_pay.Services.Refund.Settle.{settled_amounts}
use drogon_pay.Services.Refund.Sync.{fen_or_zero}
use drogon_pay.Services.Payment.Sync.{PaymentSyncEnv, Claim, Verdict, sync_claim}

-- The members that the service reads of WeChat's answer; a missing total is 0.
pub record WechatAnswer : Type 0 where
  pub trade_state : String
  pub transaction_id : Bytes
  pub total : ℤ

pub record AlipayAnswer : Type 0 where
  pub code : Bytes
  pub trade_status_text : String
  pub trade_no : Bytes
  pub total_amount : Bytes

-- `orderStatusAfterRefundCoverage`
unfoldable pub order_status_after_refund_coverage : OrderStatus → Bytes → ℕ → OrderStatus
order_status_after_refund_coverage mapped_order_status order_amount settled_refund_fen =
    resolve_refunded_order_status mapped_order_status (pos settled_refund_fen)
      (pos (fen_or_zero order_amount))

abbrev pub wechat_claim : WechatAnswer → Claim
wechat_claim answer = record {
  order_status = (map_trade_state answer.trade_state).order_status;
  payment_status = (map_trade_state answer.trade_state).payment_status;
  transaction_id = answer.transaction_id;
  answer_fen = answer.total;
}

abbrev pub coverage_verdict : OrderStatus → ℕ → Verdict
coverage_verdict mapped settled_refund_fen = record {
  told = λ order. order_status_after_refund_coverage mapped order.amount settled_refund_fen;
  to_write =
      λ order. some (order_status_after_refund_coverage mapped order.amount settled_refund_fen);
}

-- The settled refunds are read for a claim of REFUNDED only.
unfoldable pub wechat_verdict : PaymentSyncEnv → Bytes → OrderStatus → Db → Option Verdict
wechat_verdict env order_no mapped db =
    if not (is_refunded mapped) then some (coverage_verdict mapped 0) else elim env.sum_fault [
      | raises what ↦ none
      | mapper_fails what ↦ none
      | succeeds ↦ some (
          coverage_verdict mapped
            (fen_or_zero (env.numeric_sum (settled_amounts order_no db.refunds))))
    ]

unfoldable pub sync_order_status_from_wechat :
    PaymentSyncEnv → Bytes → WechatAnswer → Db → Db × Option OrderStatus
sync_order_status_from_wechat env order_no answer db =
    if str_eq answer.trade_state ""
    then (db, none)
    else sync_claim env order_no (wechat_claim answer)
        (wechat_verdict env order_no (wechat_claim answer).order_status) db

-- The states of Alipay that the service knows.
unfoldable pub map_alipay_status : String → Option TradeStatus
map_alipay_status text =
    if str_eq text "TRADE_SUCCESS" || str_eq text "TRADE_FINISHED"
    then some (trade_status paid success)
    else if str_eq text "WAIT_BUYER_PAY"
    then some (trade_status paying processing)
    else if str_eq text "TRADE_CLOSED"
    then some (trade_status failed fail)
    else none

-- The amount is read for PAID only; -1 is none.
abbrev pub notified_fen : OrderStatus → Bytes → ℤ
notified_fen order_status total_amount =
    if is_paid order_status
    then (elim (parse_amount_to_fen total_amount) [ none ↦ negsuc 0 | some n ↦ pos n ])
    else negsuc 0

abbrev pub alipay_claim : TradeStatus → AlipayAnswer → Claim
alipay_claim mapped answer = record {
  order_status = mapped.order_status;
  payment_status = mapped.payment_status;
  transaction_id = answer.trade_no;
  answer_fen = notified_fen mapped.order_status answer.total_amount;
}

abbrev pub alipay_verdict : Claim → Verdict
alipay_verdict claim = record {
  told = λ order. claim.order_status;
  to_write = λ order.
      if is_paid claim.order_status && not (amount_equals_fen order.amount claim.answer_fen)
      then none
      else some claim.order_status;
}

unfoldable pub sync_order_status_from_alipay :
    PaymentSyncEnv → Bytes → AlipayAnswer → Db → Db × Option OrderStatus
sync_order_status_from_alipay env order_no answer db =
    if not (bytes_eq answer.code (codes "10000")) || str_eq answer.trade_status_text ""
    then (db, none)
    else elim (map_alipay_status answer.trade_status_text) [
      | none ↦ (db, none)
      | some mapped ↦
          sync_claim env order_no (alipay_claim mapped answer)
            (λ other. some (alipay_verdict (alipay_claim mapped answer))) db
    ]
