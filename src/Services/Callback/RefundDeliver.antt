-- ===== src/Services/Callback/RefundDeliver.antt =====
-- `handleRefundCallback` around its transaction: the checks, the key of the notification, and the rows
-- of the refund and its order.
use drogon_pay.Common.{
  ◌⊎◌, inl, inr, Option, none, some, List, [], ◌∷◌, if◌then◌else◌, codes, is_empty,
}
use drogon_pay.Models.Status.{RefundStatus, is_refund_success}
use drogon_pay.Models.Tables.{
  OrderRow, RefundRow, Reply, select, find_one, succeeds, raises, mapper_fails, answered, exception,
  no_mapper,
}
use drogon_pay.Utils.Status.{map_refund_status}
use drogon_pay.Services.Idempotency.{IdempotencyRow, has_key}
use drogon_pay.Services.Refund.Sync.{is_refund_no}
use drogon_pay.Services.Callback.Types.{
  Delivery, WechatClient, RefundTrade, Store, Answer, answer_ok, answer_fail, retry_later,
  internal_error, Env, find_reservation, drop_reservation, reserve, find_order, find_refund,
  behind_lookup, behind_reserve, behind_reads,
}
use drogon_pay.Services.Callback.Reserve.{drop_unfinalized_reservation, reserve_key}
use drogon_pay.Services.Callback.Verify.{
  refund_event, respond, Opened, open_envelope, check_merchant, check_nonce,
}
use drogon_pay.Services.Callback.Trade.{is_order}
use drogon_pay.Services.Callback.Payment.{token, end_transaction}
use drogon_pay.Services.Callback.Deliver.{answer_again}
use drogon_pay.Services.Callback.Refund.{
  AcceptedRefund, check_refund_members, refund_key, refund_amount_problem, refund_currency_problem,
  write_refund,
}

module _ (env : Env) (delivery : Delivery) where
  -- The order, and the writes behind the other writers.
  unfoldable pub on_refund_order :
      AcceptedRefund → RefundRow → RefundStatus → Reply OrderRow → Store → Store × Answer
  on_refund_order accepted refund refund_status (exception what) s =
      (s, answer_fail 1404 (codes "order not found"))
  on_refund_order accepted refund refund_status (no_mapper what) s = (s, internal_error)
  on_refund_order accepted refund refund_status (answered order) s =
      elim (refund_currency_problem accepted.trade order) [
        | some answer ↦ (s, answer)
        | none ↦ end_transaction env delivery refund.payment_no (env.others behind_reads s) (
            write_refund env delivery accepted refund order refund_status
              (env.others behind_reads s))
      ]

  unfoldable pub on_refund_row :
      AcceptedRefund → RefundStatus → Reply RefundRow → Store → Store × Answer
  on_refund_row accepted refund_status (exception what) s =
      (s, answer_fail 1404 (codes "refund not found"))
  on_refund_row accepted refund_status (no_mapper what) s = (s, internal_error)
  on_refund_row accepted refund_status (answered refund) s =
      if is_refund_success refund.status
      then (s, answer_ok)
      else elim (refund_amount_problem accepted.trade refund) [
        | some answer ↦ (s, answer)
        | none ↦
            on_refund_order accepted refund refund_status
              (find_one (env.faults find_order) (is_order refund.order_no) s.tables.orders) s
      ]

  unfoldable pub on_refund_status : AcceptedRefund → Option RefundStatus → Store → Store × Answer
  on_refund_status accepted none s = (s, answer_fail 1400 (codes "invalid refund status"))
  on_refund_status accepted (some refund_status) s =
      on_refund_row accepted refund_status
        (find_one (env.faults find_refund) (is_refund_no accepted.trade.out_refund_no)
          s.tables.refunds)
        s

  unfoldable pub on_refund_reserved :
      AcceptedRefund → Option (List IdempotencyRow) → Store → Store × Answer
  on_refund_reserved accepted none s = (s, retry_later)
  on_refund_reserved accepted (some rows) s =
      on_refund_status accepted (map_refund_status accepted.trade.refund_status)
        (env.others behind_reserve (record s { reservations = rows }))

  unfoldable pub process_new_refund : AcceptedRefund → Store → Store × Answer
  process_new_refund accepted s = elim (env.faults reserve) [
    | raises what ↦ (s, internal_error)
    | mapper_fails what ↦ (s, internal_error)
    | succeeds ↦
        on_refund_reserved accepted
          (reserve_key accepted.key (env.md5 delivery.body) (token env delivery) env.now
            s.reservations)
          s
  ]

  -- The row of the key.
  unfoldable pub on_refund_reservation : AcceptedRefund → IdempotencyRow → Store → Store × Answer
  on_refund_reservation accepted row s = elim row.response_snapshot [
    | some text ↦
        if is_empty accepted.trade.out_trade_no
        then (s, answer_fail 1400 (codes "missing out_trade_no"))
        else answer_again env delivery accepted.trade.out_trade_no s
    | none ↦ (
      record s {
        reservations =
            drop_unfinalized_reservation (env.faults drop_reservation) accepted.key s.reservations;
      },
      retry_later,
    )
  ]

  unfoldable pub on_refund_lookup : AcceptedRefund → List IdempotencyRow → Store → Store × Answer
  on_refund_lookup accepted [] s = process_new_refund accepted (env.others behind_lookup s)
  on_refund_lookup accepted (row ∷ []) s =
      on_refund_reservation accepted row (env.others behind_lookup s)
  on_refund_lookup accepted (row ∷ again ∷ rows) s =
      process_new_refund accepted (env.others behind_lookup s)

  unfoldable pub proceed_refund_db : AcceptedRefund → Store → Store × Answer
  proceed_refund_db accepted s = elim (env.faults find_reservation) [
    | raises what ↦ (s, internal_error)
    | mapper_fails what ↦ (s, internal_error)
    | succeeds ↦ on_refund_lookup accepted (select (has_key accepted.key) s.reservations) s
  ]

  -- The checks on the decrypted refund.
  unfoldable pub check_refund_trade : WechatClient → Opened → RefundTrade → Answer ⊎ AcceptedRefund
  check_refund_trade client opened trade = elim (check_merchant client trade.appid trade.mchid) [
    | some answer ↦ inl answer
    | none ↦ elim (check_refund_members trade) [
      | some answer ↦ inl answer
      | none ↦
          inr (record {
            key = refund_key opened.id trade;
            plaintext = opened.plaintext;
            trade = trade;
          })
    ]
  ]

  unfoldable pub read_refund_notice : WechatClient → Answer ⊎ Opened → Answer ⊎ AcceptedRefund
  read_refund_notice client (inl answer) = inl answer
  read_refund_notice client (inr opened) = elim (env.read_refund opened.plaintext) [
    | none ↦ inl (respond (codes "invalid resource json"))
    | some trade ↦ check_refund_trade client opened trade
  ]

  unfoldable pub accept_refund : Answer ⊎ AcceptedRefund
  accept_refund = elim env.wechat_client [
    | none ↦ inl (answer_fail 1400 (codes "wechat client not ready"))
    | some client ↦ read_refund_notice client (open_envelope env refund_event client delivery)
  ]

  -- The nonce is the last check.
  unfoldable pub on_accepted_refund : Answer ⊎ AcceptedRefund → Store → Store × Answer
  on_accepted_refund (inl answer) s = (s, answer)
  on_accepted_refund (inr accepted) s =
      if check_nonce env.redis delivery.nonce
      then proceed_refund_db accepted s
      else (s, respond (codes "replay detected"))

  unfoldable pub handle_refund_callback : Store → Store × Answer
  handle_refund_callback s = on_accepted_refund accept_refund s
