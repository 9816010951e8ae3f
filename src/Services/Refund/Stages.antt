-- ===== src/Services/Refund/Stages.antt =====
-- The single writes of a refund request, as closure conditions on a predicate on the tables, and the
-- channel call and the writes behind it.
use drogon_pay.Common.{
  ℕ, ◌≤◌, ◌≡◌, inl, inr, Bool, true, false, Option, none, some, List, ◌∷◌, arith, Bool-cases,
  Option-cases, Bytes, bytes_eq, is_empty,
}
use drogon_pay.Common.Int.{ltb_ℤ, pos}
use drogon_pay.Models.Status.{RefundStatus, refunded, refund_success, refund_fail}
use drogon_pay.Models.Tables.{OrderRow, RefundRow, Db, update_where, find_one, answered}
use drogon_pay.Utils.Amount.{parse_amount_to_fen}
use drogon_pay.Utils.Status.{map_refund_status}
use drogon_pay.Services.Refund.Types.{
  CreateRefundRequest, Response, ChannelReply, Point, Env, find_order, during_channel,
  after_refund_update, after_settled_sum,
}
use drogon_pay.Services.Refund.Settle.{
  is_unsettled_refund, is_paid_order, settled_amounts, update_refund_with_error, refund_created,
  write_refunded_order, settle_on_sum, settle_order, update_refund_with_success,
}
use drogon_pay.Services.Refund.Invoke.{
  Refund, alipay_payload, wechat_payload, on_alipay_reply, close_or_leave, unusable_message,
  on_unusable_status, on_wechat_status, on_wechat_reply, invoke_refund_channel,
}
use drogon_pay.Services.Refund.Create.{refunded_amounts, add_int64, refund_row}

-- What the stages before the transaction have read: the amounts, and the order's row at some earlier
-- moment.
pub record WasRead (env : Env) (P : Db → Type 0) (r : Refund) : Type 0 where
  pub amount_read : parse_amount_to_fen r.amount ≡ some r.refund_fen
  pub positive : 1 ≤ r.refund_fen
  pub within : r.refund_fen ≤ r.total_fen
  pub before : Db
  pub before_holds : P before
  pub order : OrderRow
  pub order_found :
      find_one
        (env.faults find_order)
        (λ (row : OrderRow). bytes_eq row.order_no r.order_no)
        before.orders
      ≡ answered order
  pub total_read : parse_amount_to_fen order.amount ≡ some r.total_fen

-- What the transaction has read of the table that it inserts into.
pub record WasSummed (env : Env) (db : Db) (r : Refund) : Type 0 where
  pub refunded_fen : ℕ
  pub sum_read :
      parse_amount_to_fen (env.numeric_sum (refunded_amounts r.order_no db.refunds))
      ≡ some refunded_fen
  pub fits : ltb_ℤ (pos r.total_fen) (add_int64 refunded_fen r.refund_fen) ≡ false

-- The writes of a request, one by one.
pub record IsStable (env : Env) (P : Db → Type 0) : Type 0 where
  pub others : (p : Point) (db : Db) → P db → P (env.others p db)
  pub fail_refund :
      (refund_no : Bytes) (db : Db)
      → P db
      → P (record db {
        refunds =
            update_where
              (is_unsettled_refund refund_no)
              (λ row. record row { status = refund_fail; updated_at = env.now })
              db.refunds;
      })
  pub settle_refund :
      (refund_no : Bytes) (status : RefundStatus) (refund_id : Bytes) (db : Db)
      → P db
      → P (record db {
        refunds =
            update_where
              (is_unsettled_refund refund_no)
              (λ row. record row {
                status = status;
                channel_refund_no = some refund_id;
                updated_at = env.now;
              })
              db.refunds;
      })
  pub refund_order :
      (order_no : Bytes) (db : Db)
      → P db
      → P (record db {
        orders =
            update_where
              (is_paid_order order_no)
              (λ row. record row { status = refunded })
              db.orders;
      })
  pub insert :
      (r : Refund) (db : Db)
      → WasRead env P r
      → WasSummed env db r
      → P db
      → P (record db { refunds = refund_row env r ∷ db.refunds })

module _ (env : Env) (P : Db → Type 0) (stable : IsStable env P) where
  update_refund_with_error-keeps :
      (refund_no : Bytes) (db : Db) → P db → P (update_refund_with_error env refund_no db)
  unfolding update_refund_with_error
  update_refund_with_error-keeps refund_no db v = ground (arith, stable.fail_refund refund_no db v)

  write_refunded_order-keeps :
      (order_no : Bytes) (done : Response) (db : Db)
      → P db
      → P (write_refunded_order env order_no done db).0
  unfolding write_refunded_order
  write_refunded_order-keeps order_no done db v = ground (arith, stable.refund_order order_no db v)

  settle_on_sum-keeps :
      (order_no : Bytes) (t : ℕ) (done : Response) (sum : Option ℕ) (db : Db)
      → P db
      → P (settle_on_sum env order_no t done sum db).0
  unfolding settle_on_sum
  settle_on_sum-keeps order_no t done none db v = v
  settle_on_sum-keeps order_no t done (some n) db v = ground (
    arith,
    write_refunded_order-keeps order_no done (env.others after_settled_sum db)
        (stable.others after_settled_sum db v),
  )

  settle_order-keeps :
      (order_no : Bytes) (t : ℕ) (status : RefundStatus) (done : Response) (db : Db)
      → P db
      → P (settle_order env order_no t status done db).0
  unfolding settle_order
  settle_order-keeps order_no t status done db v = ground (
    arith,
    settle_on_sum-keeps order_no t done
        (parse_amount_to_fen (env.numeric_sum (settled_amounts order_no db.refunds))) db v,
  )

  update_refund_with_success-keeps :
      (refund_no : Bytes) (status : RefundStatus) (refund_id order_no payment_no amount : Bytes)
      (t : ℕ) (db : Db)
      → P db
      → P
          (update_refund_with_success env refund_no status refund_id order_no payment_no amount t
            db).0
  unfolding update_refund_with_success
  update_refund_with_success-keeps refund_no status refund_id order_no payment_no amount t db v =
      ground (
        arith,
        settle_order-keeps order_no t status
            (refund_created env refund_no order_no payment_no amount refund_id status)
            (env.others after_refund_update (record db { refunds = settled }))
            (stable.others after_refund_update (record db { refunds = settled }) updated),
      )
    where
      settled : List RefundRow
      settled =
          update_where (is_unsettled_refund refund_no)
            (λ row. record row {
              status = status;
              channel_refund_no = some refund_id;
              updated_at = env.now;
            })
            db.refunds

      updated : P (record db { refunds = settled })
      updated = stable.settle_refund refund_no status refund_id db v

  on_alipay_reply-keeps :
      (r : Refund) (answer : ChannelReply) (db : Db) → P db → P (on_alipay_reply env r answer db).0
  unfolding on_alipay_reply
  on_alipay_reply-keeps r answer db v = ground (
    arith,
    update_refund_with_error-keeps r.refund_no db v,
    update_refund_with_success-keeps r.refund_no refund_success answer.refund_id r.order_no
        r.payment_no r.amount r.total_fen db v,
  )

  close_or_leave-keeps :
      (r : Refund) (certain : Bool) (message : Bytes) (db : Db)
      → P db
      → P (close_or_leave env r certain message db).0
  unfolding close_or_leave
  close_or_leave-keeps r true message db v = update_refund_with_error-keeps r.refund_no db v
  close_or_leave-keeps r false message db v = v

  on_wechat_reply-keeps :
      (r : Refund) (answer : ChannelReply) (db : Db) → P db → P (on_wechat_reply env r answer db).0
  unfolding on_wechat_reply
  on_wechat_reply-keeps r answer db v = elim (Bool-cases (is_empty answer.error)) [
    | inr refused ↦ rw refused (close_or_leave-keeps r _ _ db v)
    | inl clean ↦ rw clean (on_status (map_refund_status answer.status))
  ]
    where
      on_status : (mapped : Option RefundStatus) → P (on_wechat_status env r mapped answer db).0
      on_status none = unfold on_wechat_status on_unusable_status in close_or_leave-keeps r _ _ db v
      on_status (some status) =
          unfold on_wechat_status on_unusable_status in
          ground (
            arith,
            close_or_leave-keeps r true (unusable_message env (some status) answer) db v,
            update_refund_with_success-keeps r.refund_no status answer.refund_id r.order_no
                r.payment_no r.amount r.total_fen db v,
          )

  pub invoke_refund_channel-keeps :
      (request : CreateRefundRequest) (r : Refund) (channel : Bytes) (db : Db)
      → P db
      → P (invoke_refund_channel env request r channel db).0
  unfolding invoke_refund_channel
  invoke_refund_channel-keeps request r channel db v = elim (Option-cases (env.channels channel)) [
    | inl e ↦ rw e (ground (arith, update_refund_with_error-keeps r.refund_no db v))
    | inr (c, e) ↦ rw e (
        ground (
          arith,
          on_alipay_reply-keeps r (c.refund (alipay_payload request r))
              (env.others during_channel db) (stable.others during_channel db v),
          on_wechat_reply-keeps r (c.refund (wechat_payload request r))
              (env.others during_channel db) (stable.others during_channel db v),
          v,
        ))
  ]
