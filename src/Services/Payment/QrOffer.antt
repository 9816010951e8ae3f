-- ===== src/Services/Payment/QrOffer.antt =====
-- `createQRPayment`: its data, and the rows behind the channel's answer to an attempt.
use drogon_pay.Common.{
  ℕ, Bool, true, false, not, ◌&&◌, Option, none, some, [], ◌++◌, if◌then◌else◌, Bytes, codes, any,
  bytes_eq, is_empty,
}
use drogon_pay.Common.Int.{ℤ}
use drogon_pay.Models.Status.{
  OrderStatus, PaymentStatus, is_success, holds_money, created, paying, paid, refunded, closed,
  failed, init, processing, fail,
}
use drogon_pay.Models.Tables.{
  OrderRow, PaymentRow, Db, Fault, update_where, succeeds, raises, mapper_fails,
}
use drogon_pay.Services.Callback.Trade.{is_open_payment}
use drogon_pay.Services.Payment.Refusals.{
  QrResult, channel_result_error, attempt_certainly_not_created,
}

-- A request behind its checks; `offer` is the channel's answer to its payload, with the error text.
pub record QrOrder : Type 0 where
  pub order_no : Bytes
  pub amount : Bytes
  pub channel : Bytes
  pub user_id : ℤ
  pub currency : Bytes
  pub offer : QrResult × Bytes

pub data QrCall : Type 0 where
  find_order insert_order find_settled insert_payment : QrCall
  fail_payment promote_payment promote_order : QrCall

pub data QrPoint : Type 0 where
  behind_order behind_insert behind_settled during_offer behind_promotion : QrPoint

pub record QrEnv : Type 0 where
  -- `generatePaymentNoValue`
  pub payment_no : Bytes
  pub created_at : ℕ
  pub faults : QrCall → Fault
  pub others : QrPoint → Db → Db

pub data QrExtra : Type 0 where
  nothing_more : QrExtra
  alipay_codes : Bytes → Bytes → QrExtra
  wechat_code : Bytes → QrExtra

-- The members of `data`.
pub record QrData : Type 0 where
  pub order_no : Bytes
  pub code_url : Option Bytes
  pub qr_code : Option Bytes
  pub out_trade_no : Option Bytes

-- What `failQr` and `respondQr` are given.
pub data QrEnd : Type 0 where
  fail_qr : ℕ → Bytes → QrExtra → QrEnd
  respond_qr : QrData → QrEnd

abbrev pub order_status_text : OrderStatus → Bytes
order_status_text created = codes "CREATED"
order_status_text paying = codes "PAYING"
order_status_text paid = codes "PAID"
order_status_text refunded = codes "REFUNDED"
order_status_text closed = codes "CLOSED"
order_status_text failed = codes "FAILED"

abbrev pub settled_text : PaymentStatus → Bytes
settled_text status = if is_success status then codes "SUCCESS" else codes "REFUNDED"

-- status IN ('CREATED', 'PAYING')
abbrev pub is_open_order : Bytes → OrderRow → Bool
is_open_order order_no row = bytes_eq row.order_no order_no && (elim row.status [
  | created ↦ true
  | paying ↦ true
  | paid ↦ false
  | refunded ↦ false
  | closed ↦ false
  | failed ↦ false
])

abbrev pub is_settled_payment : Bytes → PaymentRow → Bool
is_settled_payment order_no row = bytes_eq row.order_no order_no && holds_money row.status

abbrev pub duplicate_key : Bytes
duplicate_key = codes "duplicate key value violates unique constraint"

module _ (env : QrEnv) (q : QrOrder) where
  abbrev pub new_order : OrderRow
  new_order = record {
    order_no = q.order_no;
    user_id = q.user_id;
    amount = q.amount;
    currency = q.currency;
    status = created;
    channel = q.channel;
  }

  abbrev pub new_attempt : PaymentRow
  new_attempt = record {
    payment_no = env.payment_no;
    order_no = q.order_no;
    status = init;
    amount = q.amount;
    channel_trade_no = [];
    created_at = env.created_at;
  }

  -- `markQrPaymentFailed`: the answer behind it is the same whatever becomes of the UPDATE.
  unfoldable pub mark_qr_payment_failed : Db → Db
  mark_qr_payment_failed db = elim (env.faults fail_payment) [
    | raises what ↦ db
    | mapper_fails what ↦ db
    | succeeds ↦ record db {
      payments =
          update_where (is_open_payment env.payment_no) (λ row. record row { status = fail })
            db.payments;
    }
  ]

  -- `promoteQrRows`: the code is handed out whatever becomes of the two UPDATEs.
  unfoldable pub promote_order_row : Bytes → Db → Db
  promote_order_row order_no db = elim (env.faults promote_order) [
    | raises what ↦ db
    | mapper_fails what ↦ db
    | succeeds ↦ record db {
      orders =
          update_where (is_open_order order_no) (λ row. record row { status = paying }) db.orders;
    }
  ]

  unfoldable pub promote_qr_rows : OrderRow → Db → Db
  promote_qr_rows order db = elim (env.faults promote_payment) [
    | raises what ↦ db
    | mapper_fails what ↦ db
    | succeeds ↦
        if not (any (is_open_payment env.payment_no) db.payments)
        then db
        else promote_order_row order.order_no (
            env.others behind_promotion (record db {
              payments =
                  update_where (is_open_payment env.payment_no)
                    (λ row. record row { status = processing }) db.payments;
            }))
  ]

  unfoldable pub qr_data : QrResult → QrData
  qr_data result =
      if bytes_eq q.channel (codes "wechat")
      then record {
        order_no = q.order_no;
        code_url = some (elim result.code_url [ none ↦ [] | some url ↦ url ]);
        qr_code = none;
        out_trade_no = none;
      }
      else record {
        order_no = q.order_no;
        code_url = none;
        qr_code = result.qr_code;
        out_trade_no = result.out_trade_no;
      }

  abbrev pub qr_extra : QrResult → QrExtra
  qr_extra result =
      if bytes_eq q.channel (codes "alipay")
      then alipay_codes result.code result.sub_code
      else wechat_code result.code

  -- An attempt that the channel certainly did not create is closed; another one stays open.
  unfoldable pub close_or_keep : Bytes → Db → Db
  close_or_keep error db =
      if attempt_certainly_not_created error then mark_qr_payment_failed db else db

  unfoldable pub on_offer : OrderRow → QrResult → Bytes → Db → Db × QrEnd
  on_offer order result error db =
      if not (is_empty error)
      then (
        close_or_keep error db,
        fail_qr 500 (codes "QR payment creation failed: " ++ error) nothing_more,
      )
      else elim (channel_result_error q.channel result) [
        | some problem ↦ (close_or_keep problem db, fail_qr 500 problem (qr_extra result))
        | none ↦ (promote_qr_rows order db, respond_qr (qr_data result))
      ]
