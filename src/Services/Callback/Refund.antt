-- ===== src/Services/Callback/Refund.antt =====
-- The transaction of `handleRefundCallback`: the refund, its ledger entry, its order and the audit row.
-- The statements run in the order in which the connection gets them, so a later failure undoes all.

use drogon_pay.Common.{
  ℕ, not, ◌&&◌, ◌||◌, Option, none, some, List, ◌∷◌, ◌++◌, str_eq, if◌then◌else◌, Bytes, codes, any,
  bytes_eq, is_empty,
}
use drogon_pay.Common.Int.{leb_ℤ, eq_ℤ, pos}
use drogon_pay.Models.Status.{RefundStatus, is_refund_success, refunded}
use drogon_pay.Models.Tables.{
  OrderRow, RefundRow, LedgerRow, Fault, update_where, succeeds, raises, mapper_fails,
}
use drogon_pay.Utils.Amount.{parse_amount_to_fen}
use drogon_pay.Utils.Status.{refunds_cover_order_amount}
use drogon_pay.Services.Refund.Settle.{is_unsettled_refund, is_paid_order, settled_amounts}
use drogon_pay.Services.Refund.Sync.{fen_or_zero}
use drogon_pay.Services.Callback.Types.{
  Delivery, RefundTrade, Store, Answer, answer_ok, answer_fail, internal_error, Env, callback_row,
  sum_refunds, insert_record, update_order, insert_ledger, finalize, commit, update_refund,
  update_payload,
}
use drogon_pay.Services.Callback.Reserve.{
  Finalized, finalize_reservation, finalized, lost, finalize_error, finalize_throws,
}
use drogon_pay.Services.Callback.Verify.{respond}
use drogon_pay.Services.Callback.Payment.{
  TransactionEnd, Booked, commit_raised, token, rolled_back, skipped, committed, booked, not_sent,
  aborted,
}

-- A refund that has passed the checks, and the key of its notification.
pub record AcceptedRefund : Type 0 where
  pub key : Bytes
  pub plaintext : Bytes
  pub trade : RefundTrade

-- The members of the refund that it cannot do without.
unfoldable pub check_refund_members : RefundTrade → Option Answer
check_refund_members trade =
    if is_empty trade.out_refund_no || str_eq trade.refund_status ""
    then some (respond (codes "missing refund_no/refund_status"))
    else if str_eq trade.refund_status "SUCCESS" && is_empty trade.refund_id
    then some (respond (codes "missing refund_id"))
    else none

abbrev pub refund_key : Bytes → RefundTrade → Bytes
refund_key id trade =
    if is_empty id then trade.out_refund_no ++ codes ":" ++ codes trade.refund_status else id

-- What the notification says against the row of the refund.
unfoldable pub refund_amount_problem : RefundTrade → RefundRow → Option Answer
refund_amount_problem trade refund = elim (parse_amount_to_fen refund.amount) [
  | none ↦ some (answer_fail 1400 (codes "invalid refund amount in callback"))
  | some refund_total_fen ↦
      if leb_ℤ trade.refund (pos 0)
      then some (answer_fail 1400 (codes "invalid refund amount in callback"))
      else if not (eq_ℤ trade.refund (pos refund_total_fen))
      then some (answer_fail 1400 (codes "refund amount mismatch"))
      else none
]

unfoldable pub refund_currency_problem : RefundTrade → OrderRow → Option Answer
refund_currency_problem trade order =
    if not (is_empty trade.currency) && not (bytes_eq trade.currency order.currency)
    then some (answer_fail 1400 (codes "refund currency mismatch"))
    else none

abbrev pub outgo_row : OrderRow → RefundRow → LedgerRow
outgo_row order refund = record {
  user_id = order.user_id;
  order_no = refund.order_no;
  payment_no = some refund.payment_no;
  entry_type = codes "REFUND";
  amount = refund.amount;
}

-- `insertLedgerEntry` for a refund: no index is in its way.
unfoldable pub insert_outgo : Fault → OrderRow → RefundRow → List LedgerRow → Booked
insert_outgo (raises what) order refund ledger = aborted
insert_outgo (mapper_fails what) order refund ledger = not_sent
insert_outgo succeeds order refund ledger = booked (outgo_row order refund ∷ ledger)

-- The row of the refund as the channel has it.
abbrev pub settled_refund : RefundStatus → Bytes → RefundRow → RefundRow
settled_refund refund_status refund_id row = record row {
  status = refund_status;
  channel_refund_no = some refund_id;
}

module _ (env : Env) (delivery : Delivery) where
  -- The COMMIT of a refund names the failure in its answer.
  unfoldable pub commit_refund : Finalized → Store → TransactionEnd
  commit_refund lost s = rolled_back internal_error
  commit_refund (finalize_error what) s = rolled_back internal_error
  commit_refund (finalize_throws what) s = rolled_back internal_error
  commit_refund (finalized rows) s = elim (env.faults commit) [
    | succeeds ↦ committed (record s { reservations = rows }) answer_ok
    | raises what ↦
        commit_raised env (record s { reservations = rows })
          (answer_fail 1400 (codes "db error: " ++ what))
    | mapper_fails what ↦ rolled_back (answer_fail 1400 (codes "db error: " ++ what))
  ]

  -- `insertCallbackAndFinish`
  unfoldable pub finish_refund : AcceptedRefund → RefundRow → Store → TransactionEnd
  finish_refund accepted refund s = elim (env.faults insert_record) [
    | raises what ↦ rolled_back internal_error
    | mapper_fails what ↦ rolled_back internal_error
    | succeeds ↦
        commit_refund
          (finalize_reservation (env.faults finalize) accepted.key (token env delivery)
            accepted.plaintext s.reservations)
          (record s { callbacks = callback_row delivery refund.payment_no ∷ s.callbacks })
  ]

  -- The order that the settled refunds cover is REFUNDED if it reads PAID.
  unfoldable pub cover_order : AcceptedRefund → RefundRow → OrderRow → ℕ → Store → TransactionEnd
  cover_order accepted refund order settled_refund_fen s =
      if not (refunds_cover_order_amount (pos settled_refund_fen) (pos (fen_or_zero order.amount)))
      then finish_refund accepted refund s
      else elim (env.faults update_order) [
        | raises what ↦ rolled_back internal_error
        | mapper_fails what ↦ rolled_back internal_error
        | succeeds ↦ finish_refund accepted refund (record s {
          tables = record s.tables {
            orders =
                update_where (is_paid_order refund.order_no)
                  (λ row. record row { status = refunded }) s.tables.orders;
          };
        })
      ]

  -- The settled sum; one that cannot be read rolls back.
  unfoldable pub sum_refund :
      AcceptedRefund → RefundRow → OrderRow → Option ℕ → Store → TransactionEnd
  sum_refund accepted refund order none s = rolled_back internal_error
  sum_refund accepted refund order (some settled_refund_fen) s = elim (env.faults sum_refunds) [
    | raises what ↦ rolled_back internal_error
    | mapper_fails what ↦ rolled_back internal_error
    | succeeds ↦ cover_order accepted refund order settled_refund_fen s
  ]

  abbrev pub settled_sum : Bytes → List RefundRow → Option ℕ
  settled_sum order_no refunds =
      parse_amount_to_fen (env.numeric_sum (settled_amounts order_no refunds))

  -- Behind the ledger entry of a refund that succeeded.
  unfoldable pub book_refund :
      AcceptedRefund → RefundRow → OrderRow → Booked → Store → TransactionEnd
  book_refund accepted refund order aborted s = rolled_back internal_error
  book_refund accepted refund order not_sent s =
      sum_refund accepted refund order (settled_sum refund.order_no s.tables.refunds) s
  book_refund accepted refund order (booked ledger) s =
      sum_refund accepted refund order (settled_sum refund.order_no s.tables.refunds)
        (record s { tables = record s.tables { ledger = ledger } })

  -- The response payload, and what follows it.
  unfoldable pub write_payload :
      AcceptedRefund → RefundRow → OrderRow → RefundStatus → Store → TransactionEnd
  write_payload accepted refund order refund_status s = elim (env.faults update_payload) [
    | raises what ↦ rolled_back internal_error
    | mapper_fails what ↦ rolled_back internal_error
    | succeeds ↦
        if is_refund_success refund_status
        then book_refund accepted refund order
            (insert_outgo (env.faults insert_ledger) order refund s.tables.ledger) s
        else finish_refund accepted refund s
  ]

  -- The row of the refund, if it is still open.
  unfoldable pub write_refund :
      AcceptedRefund → RefundRow → OrderRow → RefundStatus → Store → TransactionEnd
  write_refund accepted refund order refund_status s = elim (env.faults update_refund) [
    | raises what ↦ rolled_back internal_error
    | mapper_fails what ↦ rolled_back internal_error
    | succeeds ↦
        if not (any (is_unsettled_refund accepted.trade.out_refund_no) s.tables.refunds)
        then skipped
        else write_payload accepted refund order refund_status (record s {
          tables = record s.tables {
            refunds =
                update_where (is_unsettled_refund accepted.trade.out_refund_no)
                  (settled_refund refund_status accepted.trade.refund_id) s.tables.refunds;
          };
        })
  ]
