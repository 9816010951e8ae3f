-- ===== src/Services/Refund/Create.antt =====
-- `proceedRefund`, `proceedOrderFlow`, `proceedWithAmountCheck`, `proceedWithInProgressCheck` and
-- `proceedWithInsert`: the stages of a refund up to the channel call.
use drogon_pay.Common.{
  ℕ, ◌+◌, ◌^◌, Bool, true, false, not, ◌&&◌, ◌||◌, Option, none, some, List, [], ◌∷◌, ◌++◌, ltb,
  leb, if◌then◌else◌, Bytes, codes, length, any, bytes_eq, is_empty,
}
use drogon_pay.Common.Int.{ℤ, sub_ℕ, ltb_ℤ, pos}
use drogon_pay.Models.Status.{
  PaymentStatus, is_paid, is_success, holds_money, is_open_attempt, is_unsettled, is_refund_success,
  counts_as_refunded, refund_init,
}
use drogon_pay.Models.Tables.{
  OrderRow, PaymentRow, RefundRow, Db, reply, select, find_one, latest, succeeds, raises,
  mapper_fails, answered, exception, no_mapper,
}
use drogon_pay.Utils.Amount.{int64_max, parse_amount_to_fen}
use drogon_pay.Utils.NotifyUrl.{validate_notify_url}
use drogon_pay.Services.Refund.Types.{
  CreateRefundRequest, Response, failure, db_error, Env, find_settled_attempt, find_open_attempt,
  find_payment, find_order, find_refund_success, count_in_progress, new_transaction, lock_payment,
  sum_refunded, insert_refund, find_order_channel, commit, after_attempt, after_payment,
  after_order, after_success_check, after_count,
}
use drogon_pay.Services.Refund.Invoke.{Refund, invoke_refund_channel}

abbrev pub bad_request : Bytes → Response
bad_request message = failure 1400 message

-- The validation at the head of `proceedRefund`: the answer that it gives, if it refuses.
unfoldable pub refuse_request : CreateRefundRequest → Option Response
refuse_request request =
    if ltb 80 (length request.reason)
    then some (bad_request (codes "reason too long (max 80 characters)"))
    else if is_empty request.order_no || ltb 64 (length request.order_no)
    then some (bad_request (codes "invalid order_no format"))
    else if is_empty request.amount
    then some (bad_request (codes "amount cannot be empty"))
    else if not (is_empty request.funds_account)
        && (not (bytes_eq request.funds_account (codes "AVAILABLE"))
            && not (bytes_eq request.funds_account (codes "UNSETTLED")))
    then some (bad_request (codes "invalid funds_account (must be AVAILABLE or UNSETTLED)"))
    else if is_empty request.notify_url
    then none
    else elim (validate_notify_url request.notify_url) [
      | none ↦ none
      | some url_error ↦ some (bad_request (codes url_error))
    ]

-- The amounts that the cumulative check of an order adds up.
abbrev pub refunded_amounts : Bytes → List RefundRow → List Bytes
refunded_amounts order_no [] = []
refunded_amounts order_no (row ∷ rest) =
    if bytes_eq row.order_no order_no && counts_as_refunded row.status
    then row.amount ∷ refunded_amounts order_no rest
    else refunded_amounts order_no rest

-- The sum of two `int64_t` values that are not negative, as two's complement leaves it.
unfoldable pub add_int64 : ℕ → ℕ → ℤ
add_int64 a b = if leb (a + b) int64_max then pos (a + b) else sub_ℕ (a + b) (2 ^ 64)

abbrev pub refund_row : Env → Refund → RefundRow
refund_row env r = record {
  refund_no = r.refund_no;
  order_no = r.order_no;
  payment_no = r.payment_no;
  status = refund_init;
  amount = r.amount;
  channel_refund_no = none;
  updated_at = env.now;
}

-- The unique index on refund_no.
abbrev pub has_refund_no : Bytes → List RefundRow → Bool
has_refund_no refund_no = any (λ row. bytes_eq row.refund_no refund_no)

-- Does the row say the same refund: order, payment and the text of the amount?
abbrev pub same_refund : Refund → RefundRow → Bool
same_refund r row =
    bytes_eq row.order_no r.order_no
    && (bytes_eq row.payment_no r.payment_no && bytes_eq row.amount r.amount)

-- The answer for a refund that was already made.
abbrev pub already_successful : Refund → RefundRow → Response
already_successful r row = record {
  code = 0;
  message = codes "Refund already successful";
  body = some (record {
    refund_no = row.refund_no;
    order_no = row.order_no;
    payment_no = r.payment_no;
    amount = r.amount;
    status = row.status;
    channel_refund_no = row.channel_refund_no;
    error = none;
  });
}

module _ (env : Env) (request : CreateRefundRequest) where
  -- The COMMIT, and the channel call behind it. A refused COMMIT never reaches the channel.
  unfoldable pub commit_and_invoke : Refund → Bytes → Db → Db → Db × Response
  commit_and_invoke r channel before after = elim (env.faults commit) [
    | succeeds ↦ invoke_refund_channel env request r channel after
    | raises what ↦ (
      if env.commit_applied then after else before,
      failure 1500 (codes "Failed to commit refund: " ++ what),
    )
    | mapper_fails what ↦ (
      if env.commit_applied then after else before,
      failure 1500 (codes "Failed to commit refund: " ++ what),
    )
  ]

  -- Steps 3 and 4: the insert and the lookup of the channel, inside the transaction. A rollback
  -- leaves the tables as they were.
  unfoldable pub insert_and_commit : Refund → Db → Db × Response
  insert_and_commit r db = elim (env.faults insert_refund) [
    | raises what ↦ (db, db_error what)
    | mapper_fails what ↦ (db, db_error what)
    | succeeds ↦
        if has_refund_no r.refund_no db.refunds
        then (db, db_error (codes "duplicate key value violates unique constraint"))
        else elim (find_one (env.faults find_order_channel)
            (λ (row : OrderRow). bytes_eq row.order_no r.order_no) db.orders) [
              | exception what ↦ (db, failure 1404 (codes "Order not found: " ++ what))
              | no_mapper what ↦ (db, db_error what)
              | answered order ↦
                  commit_and_invoke r order.channel db
                    (record db { refunds = refund_row env r ∷ db.refunds })
            ]
  ]

  -- Step 2: the cumulative check, on the text that the database answers.
  unfoldable pub check_sum : Refund → Option ℕ → Db → Db × Response
  check_sum r none db = (db, failure 1500 (codes "Invalid refund sum"))
  check_sum r (some refunded_fen) db =
      if ltb_ℤ (pos r.total_fen) (add_int64 refunded_fen r.refund_fen)
      then (db, failure 1409 (codes "refund amount exceeds paid"))
      else insert_and_commit r db

  unfoldable pub sum_under_lock : Refund → Db → Db × Response
  sum_under_lock r db = elim (env.faults sum_refunded) [
    | succeeds ↦
        check_sum r (parse_amount_to_fen (env.numeric_sum (refunded_amounts r.order_no db.refunds)))
          db
    | raises what ↦ (db, db_error what)
    | mapper_fails what ↦ (db, db_error what)
  ]

  -- `proceedWithInsert`: the transaction under the lock of the payment row is one step for the
  -- other writers.
  unfoldable pub proceed_with_insert : Refund → Db → Db × Response
  proceed_with_insert r db = elim (env.faults new_transaction) [
    | raises what ↦ (db, failure 1500 (codes "Transaction unavailable"))
    | mapper_fails what ↦ (db, failure 1500 (codes "Transaction unavailable"))
    | succeeds ↦
        elim (reply (env.faults lock_payment) (
          select (λ row. bytes_eq row.order_no r.order_no && bytes_eq row.payment_no r.payment_no)
            db.payments)) [
              | exception what ↦ (db, db_error what)
              | no_mapper what ↦ (db, db_error what)
              | answered [] ↦ (db, failure 1404 (codes "payment not found for order"))
              | answered (payment ∷ rest) ↦ sum_under_lock r db
            ]
  ]

  unfoldable pub proceed_with_in_progress_check : Refund → Db → Db × Response
  proceed_with_in_progress_check r db =
      elim (reply (env.faults count_in_progress)
        (any (λ row. same_refund r row && is_unsettled row.status) db.refunds)) [
          | exception what ↦ (db, db_error what)
          | no_mapper what ↦ (db, db_error what)
          | answered true ↦ (db, failure 1409 (codes "refund already in progress"))
          | answered false ↦ proceed_with_insert r (env.others after_count db)
        ]

  unfoldable pub proceed_with_amount_check : Refund → Db → Db × Response
  proceed_with_amount_check r db =
      elim (reply (env.faults find_refund_success) (
        latest (λ row. row.updated_at)
          (select (λ row. same_refund r row && is_refund_success row.status) db.refunds))) [
            | exception what ↦ (db, db_error what)
            | no_mapper what ↦ (db, db_error what)
            | answered (some row) ↦ (db, already_successful r row)
            | answered none ↦ proceed_with_in_progress_check r (env.others after_success_check db)
          ]

  -- The amounts of the request and of the order, once both are read.
  unfoldable pub check_amounts : Bytes → OrderRow → Option ℕ → Option ℕ → Db → Db × Response
  check_amounts refund_no order (some refund_fen) (some total_fen) db =
      if leb refund_fen 0 || ltb total_fen refund_fen
      then (db, bad_request (codes "Invalid refund amount"))
      else proceed_with_amount_check
          (record {
            refund_no = refund_no;
            order_no = request.order_no;
            payment_no = request.payment_no;
            amount = request.amount;
            refund_fen = refund_fen;
            total_fen = total_fen;
            currency = order.currency;
          })
          (env.others after_order db)
  check_amounts refund_no order _ _ db = (db, bad_request (codes "Invalid amount format"))

  unfoldable pub proceed_order_flow : Bytes → Db → Db × Response
  proceed_order_flow refund_no db =
      elim (find_one (env.faults find_order)
        (λ (row : OrderRow). bytes_eq row.order_no request.order_no) db.orders) [
          | exception what ↦ (db, failure 1404 (codes "Order not found: " ++ what))
          | no_mapper what ↦ (db, db_error what)
          | answered order ↦
              if not (is_paid order.status)
              then (db, failure 1409 (codes "order not paid"))
              else check_amounts refund_no order (parse_amount_to_fen request.amount)
                  (parse_amount_to_fen order.amount) db
        ]

  -- The second half of `proceedRefund`: the payment named by the request.
  unfoldable pub validate_payment : Db → Db × Response
  validate_payment db =
      elim (find_one (env.faults find_payment)
        (λ (row : PaymentRow).
          bytes_eq row.payment_no request.payment_no && bytes_eq row.order_no request.order_no)
        db.payments) [
          | exception what ↦ (db, failure 1404 (codes "Payment not found: " ++ what))
          | no_mapper what ↦ (db, db_error what)
          | answered payment ↦
              if not (is_success payment.status)
              then (db, failure 1409 (codes "payment not successful"))
              else proceed_order_flow
                  (if is_empty request.refund_no then env.new_uuid else request.refund_no)
                  (env.others after_payment db)
        ]

-- One round of `attemptsFinder`: the newest attempt of the order among the statuses.
unfoldable pub newest_attempt : (PaymentStatus → Bool) → Bytes → Db → Option PaymentRow
newest_attempt in_statuses order_no db =
    latest (λ row. row.created_at)
      (select (λ row. bytes_eq row.order_no order_no && in_statuses row.status) db.payments)

module _ (env : Env) (request : CreateRefundRequest) where
  -- `answerWith`: the request again, with the attempt's number. Its validation passed before.
  unfoldable pub answer_with : PaymentRow → Db → Db × Response
  answer_with payment db =
      validate_payment env (record request { payment_no = payment.payment_no })
        (env.others after_attempt db)

  unfoldable pub ask_open_attempts : Db → Db × Response
  ask_open_attempts db =
      elim (reply (env.faults find_open_attempt)
        (newest_attempt is_open_attempt request.order_no db)) [
          | exception what ↦ (db, db_error what)
          | no_mapper what ↦ (db, db_error what)
          | answered none ↦ (db, failure 1404 (codes "Payment not found"))
          | answered (some payment) ↦ answer_with payment db
        ]

  unfoldable pub choose_payment : Db → Db × Response
  choose_payment db =
      elim (reply (env.faults find_settled_attempt)
        (newest_attempt holds_money request.order_no db)) [
          | exception what ↦ (db, db_error what)
          | no_mapper what ↦ (db, db_error what)
          | answered none ↦ ask_open_attempts (env.others after_attempt db)
          | answered (some payment) ↦ answer_with payment db
        ]

  unfoldable pub proceed_refund : Db → Db × Response
  proceed_refund db = elim (refuse_request request) [
    | some answer ↦ (db, answer)
    | none ↦
        if is_empty request.payment_no then choose_payment db else validate_payment env request db
  ]
