-- ===== src/Services/Refund/Invoke.antt =====
-- `refundCertainlyDidNotHappen` and `invokeRefundChannel`: the channel call behind the committed
-- refund row, and what its answer does.
use drogon_pay.Common.{
  ℕ, Bool, true, false, not, ◌&&◌, ◌||◌, Option, none, some, [], ◌++◌, if◌then◌else◌, Bytes, codes,
  bytes_eq, starts_with, is_empty, find_sub,
}
use drogon_pay.Models.Status.{RefundStatus, is_refund_fail, refunding, refund_success, refund_fail}
use drogon_pay.Models.Tables.{Db}
use drogon_pay.Utils.Status.{map_refund_status}
use drogon_pay.Services.Refund.Types.{
  CreateRefundRequest, Response, ChannelReply, RefundPayload, Env, during_channel,
}
use drogon_pay.Services.Refund.Settle.{update_refund_with_error, update_refund_with_success}

-- `error.find(text) != npos`
abbrev pub contains : Bytes → Bytes → Bool
contains text s = elim (find_sub text s) [ none ↦ false | some i ↦ true ]

unfoldable pub refund_certainly_did_not_happen : Bytes → Bool
refund_certainly_did_not_happen error =
    if starts_with (codes "HTTP 4") error && not (contains (codes "no error envelope") error)
    then true
    else not (
        starts_with (codes "HTTP ") error
        || starts_with (codes "http request") error
        || bytes_eq error (codes "invalid json response")
        || starts_with (codes "response signature verification failed") error)

-- What the stages have fixed about one refund.
pub record Refund : Type 0 where
  pub refund_no : Bytes
  pub order_no : Bytes
  pub payment_no : Bytes
  pub amount : Bytes
  pub refund_fen : ℕ
  pub total_fen : ℕ
  pub currency : Bytes

-- An answer that carries data: 1500, 1501 or 1502.
abbrev pub failed_refund : Refund → ℕ → Bytes → RefundStatus → Option Bytes → Response
failed_refund r code message status error = record {
  code = code;
  message = message;
  body = some (record {
    refund_no = r.refund_no;
    order_no = r.order_no;
    payment_no = r.payment_no;
    amount = r.amount;
    status = status;
    channel_refund_no = none;
    error = error;
  });
}

abbrev pub alipay_payload : CreateRefundRequest → Refund → RefundPayload
alipay_payload request r = record {
  out_trade_no = r.order_no;
  out_refund_no = none;
  refund_amount = r.amount;
  reason = request.reason;
  notify_url = [];
  funds_account = [];
  refund_fen = r.refund_fen;
  total_fen = r.total_fen;
  currency = r.currency;
}

abbrev pub wechat_payload : CreateRefundRequest → Refund → RefundPayload
wechat_payload request r = record {
  out_trade_no = r.order_no;
  out_refund_no = some r.refund_no;
  refund_amount = r.amount;
  reason = request.reason;
  notify_url = request.notify_url;
  funds_account = request.funds_account;
  refund_fen = r.refund_fen;
  total_fen = r.total_fen;
  currency = r.currency;
}

module _ (env : Env) where
  unfoldable pub on_alipay_reply : Refund → ChannelReply → Db → Db × Response
  on_alipay_reply r answer db =
      if not (is_empty answer.error)
      then (
        update_refund_with_error env r.refund_no db,
        failed_refund r 1502 (codes "Alipay error: " ++ answer.error) refund_fail
            (some (codes "Alipay error: " ++ answer.error)),
      )
      else if not (bytes_eq answer.code (codes "10000"))
      then (
        update_refund_with_error env r.refund_no db,
        failed_refund r 1502 (codes "Alipay refund failed: " ++ answer.msg) refund_fail none,
      )
      else update_refund_with_success env r.refund_no refund_success answer.refund_id r.order_no
          r.payment_no r.amount r.total_fen db

  -- The row is closed only where the refund certainly did not happen.
  unfoldable pub close_or_leave : Refund → Bool → Bytes → Db → Db × Response
  close_or_leave r certain message db =
      if certain
      then (
        update_refund_with_error env r.refund_no db,
        failed_refund r 1502 message refund_fail (some message),
      )
      else (db, failed_refund r 1502 message refunding (some message))

  -- The message of an answer with no usable status, or with a failed one.
  abbrev pub unusable_message : Option RefundStatus → ChannelReply → Bytes
  unusable_message mapped answer =
      (elim mapped [
        | none ↦ codes "WeChat refund response has no usable status"
        | some s ↦ codes "WeChat reported refund status " ++ codes answer.status
      ])
      ++ (if is_empty answer.code
          then []
          else codes ": " ++ answer.code ++ codes " " ++ answer.message)

  -- The answer CLOSED or ABNORMAL, or one that the code does not know.
  unfoldable pub on_unusable_status :
      Refund → Option RefundStatus → ChannelReply → Db → Db × Response
  on_unusable_status r none answer db =
      close_or_leave r (not (is_empty answer.code)) (unusable_message none answer) db
  on_unusable_status r (some status) answer db =
      close_or_leave r true (unusable_message (some status) answer) db

  unfoldable pub on_wechat_status : Refund → Option RefundStatus → ChannelReply → Db → Db × Response
  on_wechat_status r none answer db = on_unusable_status r none answer db
  on_wechat_status r (some status) answer db =
      if is_refund_fail status
      then on_unusable_status r (some status) answer db
      else update_refund_with_success env r.refund_no status answer.refund_id r.order_no
          r.payment_no r.amount r.total_fen db

  unfoldable pub on_wechat_reply : Refund → ChannelReply → Db → Db × Response
  on_wechat_reply r answer db =
      if not (is_empty answer.error)
      then close_or_leave r (refund_certainly_did_not_happen answer.error)
          (codes "WeChat error: " ++ answer.error) db
      else on_wechat_status r (map_refund_status answer.status) answer db

  unfoldable pub invoke_refund_channel : CreateRefundRequest → Refund → Bytes → Db → Db × Response
  invoke_refund_channel request r channel db =
      if bytes_eq channel (codes "alipay")
      then elim (env.channels channel) [
        | none ↦ (db, failed_refund r 1501 (codes "Alipay client not ready") refund_fail none)
        | some c ↦
            on_alipay_reply r (c.refund (alipay_payload request r)) (env.others during_channel db)
      ]
      else if bytes_eq channel (codes "wechat")
      then elim (env.channels channel) [
        | none ↦ (
          update_refund_with_error env r.refund_no db,
          failed_refund r 1501 (codes "WeChat refund client not configured") refund_fail
              (some (codes "wechat client not ready")),
        )
        | some c ↦
            on_wechat_reply r (c.refund (wechat_payload request r)) (env.others during_channel db)
      ]
      else (
        db,
        failed_refund r 1500 (codes "Unknown payment channel: " ++ channel) refund_fail none,
      )
