-- ===== src/Services/Callback/Payment.antt =====
-- The transaction of `handlePaymentCallback`: the payment, its order and its ledger entry.

use drogon_pay.Common.{not, Option, none, some, List, ◌∷◌, ◌++◌, if◌then◌else◌, Bytes, codes, any}
use drogon_pay.Common.Int.{pos}
use drogon_pay.Models.Status.{OrderStatus, is_refunded, holds_money}
use drogon_pay.Models.Tables.{
  OrderRow, PaymentRow, LedgerRow, Db, Fault, Reply, select, update_where, find_one, latest,
  succeeds, raises, mapper_fails, answered, exception, no_mapper,
}
use drogon_pay.Utils.Status.{map_trade_state, resolve_refunded_order_status}
use drogon_pay.Services.Refund.Settle.{settled_amounts}
use drogon_pay.Services.Refund.Sync.{fen_or_zero}
use drogon_pay.Services.Callback.Types.{
  Delivery, Store, Answer, answer_ok, answer_fail, internal_error, Env, callback_row,
  select_attempt, find_order, sum_refunds, insert_record, update_payment, insert_duplicate,
  update_order, insert_ledger, finalize, commit, behind_reads,
}
use drogon_pay.Services.Callback.Reserve.{
  new_reservation_token, Finalized, finalize_reservation, finalized, lost, finalize_error,
  finalize_throws,
}
use drogon_pay.Services.Callback.Trade.{
  Accepted, is_attempt, is_open_payment, is_order, is_income, income_row, trade_problem,
  takes_money,
}

-- How the transaction ends: what is kept, and the answer. `skipped` is a rollback because no open row
-- was left to write.
pub data TransactionEnd : Type 0 where
  rolled_back : Answer → TransactionEnd
  skipped : TransactionEnd
  committed : Store → Answer → TransactionEnd

-- What `insertLedgerEntry` leaves of the transaction. A statement that raises aborts it; an exception
-- of the Mapper is logged and nothing is sent. The caller goes on in any case.
pub data Booked : Type 0 where
  booked : List LedgerRow → Booked
  not_sent : Booked
  aborted : Booked

unfoldable pub insert_income : Fault → OrderRow → Bytes → Bytes → List LedgerRow → Booked
insert_income (raises what) order order_no payment_no ledger = aborted
insert_income (mapper_fails what) order order_no payment_no ledger = not_sent
insert_income succeeds order order_no payment_no ledger =
    if any (is_income payment_no) ledger
    then aborted
    else booked (income_row order order_no payment_no ∷ ledger)

-- A COMMIT that is answered with an exception: the caller reads a failure, and the tables may be
-- written or not.
abbrev pub commit_raised : Env → Store → Answer → TransactionEnd
commit_raised env s answer = if env.commit_applied then committed s answer else rolled_back answer

module _ (env : Env) (delivery : Delivery) where
  abbrev pub token : Bytes
  token = new_reservation_token env.uuid

  -- `mapTradeState`, and for REFUND the settled refunds; `none` is a sum that raised.
  unfoldable pub resolve_status : Accepted → OrderRow → Db → Option OrderStatus
  resolve_status accepted order db =
      let mapped : OrderStatus = (map_trade_state accepted.trade.trade_state).order_status in
      if not (is_refunded mapped) then some mapped else elim (env.faults sum_refunds) [
        | raises what ↦ none
        | mapper_fails what ↦ none
        | succeeds ↦ some (
            resolve_refunded_order_status mapped
              (pos (
                fen_or_zero
                  (env.numeric_sum (settled_amounts accepted.trade.out_trade_no db.refunds))))
              (pos (fen_or_zero order.amount)))
      ]

  -- COMMIT behind a snapshot that is written in the transaction.
  unfoldable pub commit_finalized : Finalized → Store → TransactionEnd
  commit_finalized (lost) s = rolled_back internal_error
  commit_finalized (finalize_error what) s = rolled_back internal_error
  commit_finalized (finalize_throws what) s = rolled_back internal_error
  commit_finalized (finalized rows) s = elim (env.faults commit) [
    | succeeds ↦ committed (record s { reservations = rows }) answer_ok
    | raises what ↦ commit_raised env (record s { reservations = rows }) internal_error
    | mapper_fails what ↦ rolled_back internal_error
  ]

  -- Behind the ledger entry.
  unfoldable pub finish_income : Accepted → Store → Booked → TransactionEnd
  finish_income accepted s aborted = rolled_back internal_error
  finish_income accepted s not_sent =
      commit_finalized
        (finalize_reservation (env.faults finalize) accepted.key token accepted.plaintext
          s.reservations)
        s
  finish_income accepted s (booked ledger) =
      commit_finalized
        (finalize_reservation (env.faults finalize) accepted.key token accepted.plaintext
          s.reservations)
        (record s { tables = record s.tables { ledger = ledger } })

  -- A snapshot written behind the COMMIT: the answer does not depend on it.
  unfoldable pub finalize_after : Finalized → Store → Store
  finalize_after (finalized rows) s = record s { reservations = rows }
  finalize_after lost s = s
  finalize_after (finalize_error what) s = s
  finalize_after (finalize_throws what) s = s

  unfoldable pub finish_without_income : Accepted → Store → TransactionEnd
  finish_without_income accepted s = elim (env.faults commit) [
    | succeeds ↦
        committed
          (finalize_after
            (finalize_reservation (env.faults finalize) accepted.key token accepted.plaintext
              s.reservations)
            s)
          answer_ok
    | raises what ↦ commit_raised env s (answer_fail 1400 (codes "Failed to commit transaction"))
    | mapper_fails what ↦ rolled_back (answer_fail 1400 (codes "Failed to commit transaction"))
  ]

  -- The order, and what follows it.
  unfoldable pub write_order :
      Accepted → PaymentRow → OrderRow → OrderStatus → Store → TransactionEnd
  write_order accepted payment order order_status s =
      let written : Store = record s {
        tables = record s.tables {
          orders =
              update_where (is_order order.order_no) (λ row. record row { status = order_status })
                s.tables.orders;
        };
      } in
      elim (env.faults update_order) [
        | raises what ↦ rolled_back (answer_fail 1400 (codes "db error: " ++ what))
        | mapper_fails what ↦ rolled_back internal_error
        | succeeds ↦
            if takes_money order_status
            then finish_income accepted written (
                insert_income (env.faults insert_ledger) order accepted.trade.out_trade_no
                  payment.payment_no s.tables.ledger)
            else finish_without_income accepted written
      ]

  -- The row of the payment, if it is still open.
  unfoldable pub advance_payment :
      Accepted → PaymentRow → OrderRow → OrderStatus → Store → TransactionEnd
  advance_payment accepted payment order order_status s = elim (env.faults update_payment) [
    | raises what ↦ rolled_back internal_error
    | mapper_fails what ↦ rolled_back internal_error
    | succeeds ↦
        if not (any (is_open_payment payment.payment_no) s.tables.payments)
        then skipped
        else write_order accepted payment order order_status (record s {
          tables = record s.tables {
            payments =
                update_where (is_open_payment payment.payment_no)
                  (λ row. record row {
                    status = (map_trade_state accepted.trade.trade_state).payment_status;
                    channel_trade_no = accepted.trade.transaction_id;
                  })
                  s.tables.payments;
          };
        })
  ]

  -- The writes of the transaction, from the audit row on.
  unfoldable pub write_payment :
      Accepted → PaymentRow → OrderRow → Option OrderStatus → Store → TransactionEnd
  write_payment accepted payment order none s = rolled_back internal_error
  write_payment accepted payment order (some order_status) s = elim (env.faults insert_record) [
    | raises what ↦ rolled_back internal_error
    | mapper_fails what ↦ rolled_back internal_error
    | succeeds ↦
        advance_payment accepted payment order order_status
          (record s { callbacks = callback_row delivery payment.payment_no ∷ s.callbacks })
  ]

  -- An audit row outside the transaction; its failure changes no answer.
  unfoldable pub insert_audit_row : Fault → Bytes → Store → Store
  insert_audit_row succeeds payment_no s = record s {
    callbacks = callback_row delivery payment_no ∷ s.callbacks;
  }
  insert_audit_row (raises what) payment_no s = s
  insert_audit_row (mapper_fails what) payment_no s = s

  unfoldable pub end_transaction : Bytes → Store → TransactionEnd → Store × Answer
  end_transaction payment_no before (rolled_back answer) = (before, answer)
  end_transaction payment_no before skipped =
      (insert_audit_row (env.faults insert_duplicate) payment_no before, answer_ok)
  end_transaction payment_no before (committed after answer) = (after, answer)

  -- The checks on the order, and the writes behind the other writers.
  unfoldable pub settle_payment : Accepted → PaymentRow → OrderRow → Store → Store × Answer
  settle_payment accepted payment order s = elim (trade_problem accepted.trade payment order) [
    | some answer ↦ (s, answer)
    | none ↦ end_transaction payment.payment_no (env.others behind_reads s) (
        write_payment accepted payment order
          (resolve_status accepted order (env.others behind_reads s).tables)
          (env.others behind_reads s))
  ]

  unfoldable pub on_order : Accepted → PaymentRow → Reply OrderRow → Store → Store × Answer
  on_order accepted payment (exception what) s = (s, internal_error)
  on_order accepted payment (no_mapper what) s = (s, internal_error)
  on_order accepted payment (answered order) s = settle_payment accepted payment order s

  -- The newest attempt that may hold or take money.
  unfoldable pub on_attempt : Accepted → Option PaymentRow → Store → Store × Answer
  on_attempt accepted none s = (s, answer_fail 1404 (codes "payment not found"))
  on_attempt accepted (some payment) s =
      if holds_money payment.status
      then (s, answer_ok)
      else on_order accepted payment
          (find_one (env.faults find_order) (is_order payment.order_no) s.tables.orders) s

  unfoldable pub run_transaction : Accepted → Store → Store × Answer
  run_transaction accepted s = elim (env.faults select_attempt) [
    | raises what ↦ (s, internal_error)
    | mapper_fails what ↦ (s, internal_error)
    | succeeds ↦
        on_attempt accepted
          (latest (λ (row : PaymentRow). row.created_at)
            (select (is_attempt accepted.trade.out_trade_no) s.tables.payments))
          s
  ]
