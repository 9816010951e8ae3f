-- ===== src/Services/Callback/Trade.antt =====
-- What `handlePaymentCallback` asks of a transaction, of the attempt and of the order.
use drogon_pay.Common.{
  String, Bool, false, not, ◌&&◌, ◌||◌, Option, none, some, ◌++◌, str_eq, if◌then◌else◌, Bytes,
  codes, bytes_eq, is_empty,
}
use drogon_pay.Common.Int.{ℤ, ltb_ℤ, leb_ℤ, eq_ℤ, pos}
use drogon_pay.Models.Status.{OrderStatus, is_paid, is_refunded, may_settle, is_open_attempt}
use drogon_pay.Models.Tables.{OrderRow, PaymentRow, LedgerRow}
use drogon_pay.Utils.Amount.{parse_amount_to_fen}
use drogon_pay.Services.Callback.Types.{Trade, Answer, answer_fail}
use drogon_pay.Services.Callback.Verify.{respond}

-- A transaction that has passed the checks, and the key of its notification.
pub record Accepted : Type 0 where
  pub key : Bytes
  pub plaintext : Bytes
  pub trade : Trade

-- `openAttemptsOfOrder`
abbrev pub is_attempt : Bytes → PaymentRow → Bool
is_attempt order_no row = bytes_eq row.order_no order_no && may_settle row.status

-- `payment_no = $4 AND status IN ('INIT', 'PROCESSING')`
abbrev pub is_open_payment : Bytes → PaymentRow → Bool
is_open_payment payment_no row = bytes_eq row.payment_no payment_no && is_open_attempt row.status

abbrev pub is_order : Bytes → OrderRow → Bool
is_order order_no row = bytes_eq row.order_no order_no

-- The unique index on the payment number of PAYMENT entries.
abbrev pub is_income : Bytes → LedgerRow → Bool
is_income payment_no row =
    bytes_eq row.entry_type (codes "PAYMENT")
    && (elim row.payment_no [ none ↦ false | some p ↦ bytes_eq p payment_no ])

abbrev pub income_row : OrderRow → Bytes → Bytes → LedgerRow
income_row order order_no payment_no = record {
  user_id = order.user_id;
  order_no = order_no;
  payment_no = some payment_no;
  entry_type = codes "PAYMENT";
  amount = order.amount;
}

unfoldable pub known_trade_state : String → Bool
known_trade_state trade_state =
    str_eq trade_state "SUCCESS"
    || (str_eq trade_state "USERPAYING"
        || (str_eq trade_state "NOTPAY"
            || (str_eq trade_state "CLOSED"
                || (str_eq trade_state "REVOKED" || str_eq trade_state "REFUND"))))

-- The members of the transaction that it cannot do without.
unfoldable pub check_members : Trade → Option Answer
check_members trade =
    if is_empty trade.out_trade_no || str_eq trade.trade_state ""
    then some (respond (codes "missing out_trade_no/trade_state"))
    else if not (known_trade_state trade.trade_state)
    then some (respond (codes "invalid trade_state"))
    else if str_eq trade.trade_state "SUCCESS" && is_empty trade.transaction_id
    then some (respond (codes "missing transaction_id"))
    else none

abbrev pub notice_key : Bytes → Trade → Bytes
notice_key id trade =
    if is_empty id then trade.out_trade_no ++ codes ":" ++ codes trade.trade_state else id

-- `payer_total` may be missing, and may be less than the total.
abbrev pub exceeds_total : Option ℤ → ℤ → Bool
exceeds_total none total = false
exceeds_total (some payer_total) total = ltb_ℤ total payer_total

-- What the transaction says against the row of the attempt and its order.
unfoldable pub trade_problem : Trade → PaymentRow → OrderRow → Option Answer
trade_problem trade payment order = elim (parse_amount_to_fen payment.amount) [
  | none ↦ some (answer_fail 400 (codes "invalid amount in callback"))
  | some order_total_fen ↦
      if leb_ℤ trade.total (pos 0)
      then some (answer_fail 400 (codes "invalid amount in callback"))
      else if not (is_empty trade.currency) && not (bytes_eq trade.currency order.currency)
      then some (answer_fail 400 (codes "currency mismatch"))
      else if not (eq_ℤ trade.total (pos order_total_fen))
      then some (answer_fail 400 (codes "amount mismatch"))
      else if exceeds_total trade.payer_total trade.total
      then some (answer_fail 400 (codes "invalid payer_total in callback"))
      else if not (is_empty payment.channel_trade_no)
          && (not (is_empty trade.transaction_id)
              && not (bytes_eq payment.channel_trade_no trade.transaction_id))
      then some (answer_fail 400 (codes "transaction_id mismatch"))
      else none
]

abbrev pub takes_money : OrderStatus → Bool
takes_money status = is_paid status || is_refunded status
