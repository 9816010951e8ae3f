-- ===== src/Services/Refund/Settle.antt =====
-- `updateRefundWithError` and `updateRefundWithSuccess`: the writes that follow the channel's answer.
use drogon_pay.Common.{
  ℕ, Bool, not, ◌&&◌, Option, none, some, List, [], ◌∷◌, if◌then◌else◌, Bytes, codes, bytes_eq,
}
use drogon_pay.Common.Int.{pos}
use drogon_pay.Models.Status.{
  RefundStatus, is_paid, is_unsettled, is_refund_success, refunded, refund_fail,
}
use drogon_pay.Models.Tables.{OrderRow, RefundRow, Db, update_where, succeeds, raises, mapper_fails}
use drogon_pay.Utils.Amount.{parse_amount_to_fen}
use drogon_pay.Utils.Status.{refunds_cover_order_amount}
use drogon_pay.Services.Refund.Types.{
  Response, db_error, Env, update_refund, sum_settled, update_order, after_refund_update,
  after_settled_sum,
}

-- `refund_no = $1 AND status IN ('REFUND_INIT', 'REFUNDING')`
abbrev pub is_unsettled_refund : Bytes → RefundRow → Bool
is_unsettled_refund refund_no row = bytes_eq row.refund_no refund_no && is_unsettled row.status

-- `order_no = $1 AND status = 'PAID'`
abbrev pub is_paid_order : Bytes → OrderRow → Bool
is_paid_order order_no row = bytes_eq row.order_no order_no && is_paid row.status

-- The amounts that the settled sum of an order adds up.
abbrev pub settled_amounts : Bytes → List RefundRow → List Bytes
settled_amounts order_no [] = []
settled_amounts order_no (row ∷ rest) =
    if bytes_eq row.order_no order_no && is_refund_success row.status
    then row.amount ∷ settled_amounts order_no rest
    else settled_amounts order_no rest

module _ (env : Env) where
  -- A failed write is logged only.
  unfoldable pub update_refund_with_error : Bytes → Db → Db
  update_refund_with_error refund_no db = elim (env.faults update_refund) [
    | succeeds ↦ record db {
      refunds =
          update_where (is_unsettled_refund refund_no)
            (λ row. record row { status = refund_fail; updated_at = env.now }) db.refunds;
    }
    | raises what ↦ db
    | mapper_fails what ↦ db
  ]

  -- `respond` of `updateRefundWithSuccess`.
  unfoldable pub refund_created : Bytes → Bytes → Bytes → Bytes → Bytes → RefundStatus → Response
  refund_created refund_no order_no payment_no amount refund_id status = record {
    code = 0;
    message = codes "Refund created successfully";
    body = some (record {
      refund_no = refund_no;
      order_no = order_no;
      payment_no = payment_no;
      amount = amount;
      status = status;
      channel_refund_no = some refund_id;
      error = none;
    });
  }

  unfoldable pub write_refunded_order : Bytes → Response → Db → Db × Response
  write_refunded_order order_no done db = elim (env.faults update_order) [
    | succeeds ↦ (
      record db {
        orders =
            update_where (is_paid_order order_no) (λ row. record row { status = refunded })
              db.orders;
      },
      done,
    )
    | raises what ↦ (db, db_error what)
    | mapper_fails what ↦ (db, db_error what)
  ]

  -- The settled sum, once it is readable, against the order's total.
  unfoldable pub settle_on_sum : Bytes → ℕ → Response → Option ℕ → Db → Db × Response
  settle_on_sum order_no order_total_fen done none db =
      (db, db_error (codes "Invalid settled refund sum"))
  settle_on_sum order_no order_total_fen done (some settled_refund_fen) db =
      if not (refunds_cover_order_amount (pos settled_refund_fen) (pos order_total_fen))
      then (db, done)
      else write_refunded_order order_no done (env.others after_settled_sum db)

  unfoldable pub settle_order : Bytes → ℕ → RefundStatus → Response → Db → Db × Response
  settle_order order_no order_total_fen refund_status done db =
      if not (is_refund_success refund_status) then (db, done) else elim (env.faults sum_settled) [
        | succeeds ↦
            settle_on_sum order_no order_total_fen done
              (parse_amount_to_fen (env.numeric_sum (settled_amounts order_no db.refunds))) db
        | raises what ↦ (db, db_error what)
        | mapper_fails what ↦ (db, db_error what)
      ]

  unfoldable pub update_refund_with_success :
      Bytes → RefundStatus → Bytes → Bytes → Bytes → Bytes → ℕ → Db → Db × Response
  update_refund_with_success refund_no refund_status refund_id order_no payment_no amount
        order_total_fen db =
      let done : Response =
        refund_created refund_no order_no payment_no amount refund_id refund_status in
      elim (env.faults update_refund) [
        | succeeds ↦ settle_order order_no order_total_fen refund_status done (
            env.others after_refund_update (record db {
              refunds =
                  update_where (is_unsettled_refund refund_no)
                    (λ row. record row {
                      status = refund_status;
                      channel_refund_no = some refund_id;
                      updated_at = env.now;
                    })
                    db.refunds;
            }))
        | raises what ↦ (db, db_error what)
        | mapper_fails what ↦ (db, db_error what)
      ]
