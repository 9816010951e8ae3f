-- ===== src/Services/Callback/RefundWalk.antt =====
-- The walk through `handleRefundCallback`, for everything that holds of its ends.

use drogon_pay.Common.{
  ◌≡◌, refl, ◌⊎◌, inl, inr, true, false, Option, none, some, List, [], ◌∷◌, Bool-cases,
  Option-cases, is_empty,
}
use drogon_pay.Models.Status.{RefundStatus, is_refund_success}
use drogon_pay.Models.Tables.{
  OrderRow, RefundRow, Db, Reply, find_one-holds, Fault-cases, answered, exception, no_mapper,
}
use drogon_pay.Utils.Status.{map_refund_status}
use drogon_pay.Services.Idempotency.{IdempotencyRow}
use drogon_pay.Services.Refund.Sync.{is_refund_no}
use drogon_pay.Services.Callback.Types.{
  Delivery, Store, Answer, Point, Env, find_reservation, reserve, find_order, insert_duplicate,
  find_refund, behind_lookup, behind_reserve, behind_reads,
}
use drogon_pay.Services.Callback.Verify.{check_nonce}
use drogon_pay.Services.Callback.Trade.{is_order}
use drogon_pay.Services.Callback.Payment.{
  TransactionEnd, end_transaction, rolled_back, skipped, committed,
}
use drogon_pay.Services.Callback.Refund.{
  AcceptedRefund, refund_amount_problem, refund_currency_problem, write_refund,
}
use drogon_pay.Services.Callback.RefundDeliver.{
  on_refund_order, on_refund_row, on_refund_status, on_refund_reserved, process_new_refund,
  on_refund_reservation, on_refund_lookup, proceed_refund_db, accept_refund, on_accepted_refund,
  handle_refund_callback,
}
use drogon_pay.Services.Callback.Accepts.{BringsRefund, accept_refund-Brings}
use drogon_pay.Services.Callback.Audit.{insert_audit_row-ends, answer_again-ends}
use drogon_pay.Services.Callback.Settled.{Told}
use drogon_pay.Services.Callback.RefundSettled.{
  RefundSettles, refund_amount_problem-none, refund_currency_problem-none, write_refund-committed,
  write_payload-committed,
}
use drogon_pay.Models.Members.{Among, find_one-Among}

-- `P` holds of the tables until the commit, and `Q` is about the end.
module _ (env : Env) (delivery : Delivery) (P : Db → Type 0) (Q : Store × Answer → Type 0)
    (moves : (p : Point) (s : Store) → P s.tables → P (env.others p s).tables)
    (ends : (s : Store) (answer : Answer) → P s.tables → Q (s, answer)) where
  module _ (accepted : AcceptedRefund)
      (commits : (read before after : Store) (answer : Answer)
        → P read.tables
        → P before.tables
        → RefundSettles env delivery accepted read.tables before.tables after.tables
        → Told env answer
        → Q (after, answer)) where
    -- What the row and the order were found to be.
    record Found (read : Db) (refund : RefundRow) (order : OrderRow) (refund_status : RefundStatus)
        : Type 0 where
      its_refund : Among refund read.refunds
      order_row : Among order read.orders
      its_number : is_refund_no accepted.trade.out_refund_no refund ≡ true
      not_yet : is_refund_success refund.status ≡ false
      mapped : map_refund_status accepted.trade.refund_status ≡ some refund_status
      amount : refund_amount_problem accepted.trade refund ≡ none
      its_order : is_order refund.order_no order ≡ true
      currency : refund_currency_problem accepted.trade order ≡ none

    end_refund-ends :
        (refund : RefundRow) (order : OrderRow) (refund_status : RefundStatus) (read s : Store)
        (outcome : TransactionEnd)
        → P read.tables
        → P s.tables
        → Found read.tables refund order refund_status
        → write_refund env delivery accepted refund order refund_status s ≡ outcome
        → Q (end_transaction env delivery refund.payment_no s outcome)
    unfolding end_transaction
    end_refund-ends refund order refund_status read s (rolled_back answer) w v found e =
        ends s answer v
    end_refund-ends refund order refund_status read s skipped w v found e =
        insert_audit_row-ends env delivery P Q ends (env.faults insert_duplicate) refund.payment_no
          s v
    end_refund-ends refund order refund_status read s (committed after answer) w v found e =
        let opened =
          write_refund-committed env delivery accepted refund order refund_status s after answer
            e in
        let wrote =
          write_payload-committed env delivery accepted refund order refund_status _ after answer
            opened.1 in
        let agrees = refund_amount_problem-none accepted.trade refund found.amount in
        commits read s after answer w v
          (record {
            its_refund = found.its_refund;
            order_row = found.order_row;
            refund = refund;
            order = order;
            refund_status = refund_status;
            orders = wrote.0.0;
            ledger = wrote.0.1;
            its_number = found.its_number;
            not_yet = found.not_yet;
            mapped = found.mapped;
            amount_fen = agrees.0;
            amount = agrees.1;
            positive = agrees.2;
            total = agrees.3;
            its_order = found.its_order;
            currency = refund_currency_problem-none accepted.trade order found.currency;
            open_row = opened.0;
            entry = wrote.0.2;
            cover = wrote.0.3;
            result = wrote.0.4;
          })
          wrote.1

    on_refund_order-ends :
        (refund : RefundRow) (refund_status : RefundStatus) (reply : Reply OrderRow) (s : Store)
        → P s.tables
        → ((order : OrderRow)
            → reply ≡ answered order
            → refund_currency_problem accepted.trade order ≡ none
            → Found s.tables refund order refund_status)
        → Q (on_refund_order env delivery accepted refund refund_status reply s)
    unfolding on_refund_order
    on_refund_order-ends refund refund_status (exception what) s v found = ends s _ v
    on_refund_order-ends refund refund_status (no_mapper what) s v found = ends s _ v
    on_refund_order-ends refund refund_status (answered order) s v found =
        elim (Option-cases (refund_currency_problem accepted.trade order)) [
          | inr (answer, wrong) ↦ rw (on_refund_order, wrong) (ends s answer v)
          | inl right ↦
              rw (on_refund_order, right)
                (end_refund-ends refund order refund_status s (env.others behind_reads s) _ v
                  (moves behind_reads s v) (found order refl right) refl)
        ]

    on_refund_row-ends :
        (refund_status : RefundStatus) (reply : Reply RefundRow) (s : Store)
        → P s.tables
        → map_refund_status accepted.trade.refund_status ≡ some refund_status
        → ((refund : RefundRow) → reply ≡ answered refund → Among refund s.tables.refunds)
        → ((refund : RefundRow)
            → reply ≡ answered refund
            → is_refund_no accepted.trade.out_refund_no refund ≡ true)
        → Q (on_refund_row env delivery accepted refund_status reply s)
    unfolding on_refund_row
    on_refund_row-ends refund_status (exception what) s v mapped its_row its_number = ends s _ v
    on_refund_row-ends refund_status (no_mapper what) s v mapped its_row its_number = ends s _ v
    on_refund_row-ends refund_status (answered refund) s v mapped its_row its_number =
        elim (Bool-cases (is_refund_success refund.status)) [
          | inl settled ↦ rw (on_refund_row, settled) (ends s _ v)
          | inr not_yet ↦ elim (Option-cases (refund_amount_problem accepted.trade refund)) [
            | inr (answer, wrong) ↦ rw (on_refund_row, not_yet, wrong) (ends s _ v)
            | inl right ↦
                rw (on_refund_row, not_yet, right)
                  (on_refund_order-ends refund refund_status _ s v (λ order e currency. record {
                    its_refund = its_row refund refl;
                    order_row =
                        find_one-Among (env.faults find_order) (is_order refund.order_no) order
                          s.tables.orders e;
                    its_number = its_number refund refl;
                    not_yet = not_yet;
                    mapped = mapped;
                    amount = right;
                    its_order =
                        find_one-holds (env.faults find_order) (is_order refund.order_no)
                          s.tables.orders order e;
                    currency = currency;
                  }))
          ]
        ]

    on_refund_status-ends :
        (mapped : Option RefundStatus) (s : Store)
        → P s.tables
        → map_refund_status accepted.trade.refund_status ≡ mapped
        → Q (on_refund_status env delivery accepted mapped s)
    unfolding on_refund_status
    on_refund_status-ends none s v e = ends s _ v
    on_refund_status-ends (some refund_status) s v e =
        on_refund_row-ends refund_status _ s v e
          (λ refund found.
            find_one-Among (env.faults find_refund) (is_refund_no accepted.trade.out_refund_no)
              refund s.tables.refunds found)
          (λ refund found.
            find_one-holds (env.faults find_refund) (is_refund_no accepted.trade.out_refund_no)
              s.tables.refunds refund found)

    process_new_refund-ends :
        (s : Store) → P s.tables → Q (process_new_refund env delivery accepted s)
    unfolding process_new_refund on_refund_reserved
    process_new_refund-ends s v = elim (Fault-cases (env.faults reserve)) [
      | inr (what, inl broken) ↦ rw (process_new_refund, broken) (ends s _ v)
      | inr (what, inr broken) ↦ rw (process_new_refund, broken) (ends s _ v)
      | inl sent ↦ rw (process_new_refund, sent) (on_rows _)
    ]
      where
        on_rows :
            (rows : Option (List IdempotencyRow))
            → Q (on_refund_reserved env delivery accepted rows s)
        on_rows none = ends s _ v
        on_rows (some rows) =
            on_refund_status-ends _ _ (moves behind_reserve (record s { reservations = rows }) v)
              refl

    on_refund_reservation-ends :
        (row : IdempotencyRow) (s : Store)
        → P s.tables
        → Q (on_refund_reservation env delivery accepted row s)
    unfolding on_refund_reservation
    on_refund_reservation-ends row s v = elim (Option-cases row.response_snapshot) [
      | inl unfinished ↦ rw (on_refund_reservation, unfinished) (ends _ _ v)
      | inr (text, finished) ↦ elim (Bool-cases (is_empty accepted.trade.out_trade_no)) [
        | inl missing ↦ rw (on_refund_reservation, finished, missing) (ends s _ v)
        | inr there ↦
            rw (on_refund_reservation, finished, there)
              (answer_again-ends env delivery P Q ends _ s v)
      ]
    ]

    on_refund_lookup-ends :
        (rows : List IdempotencyRow) (s : Store)
        → P s.tables
        → Q (on_refund_lookup env delivery accepted rows s)
    unfolding on_refund_lookup
    on_refund_lookup-ends [] s v = process_new_refund-ends _ (moves behind_lookup s v)
    on_refund_lookup-ends (row ∷ []) s v =
        on_refund_reservation-ends row _ (moves behind_lookup s v)
    on_refund_lookup-ends (row ∷ again ∷ rows) s v =
        process_new_refund-ends _ (moves behind_lookup s v)

    proceed_refund_db-ends :
        (s : Store) → P s.tables → Q (proceed_refund_db env delivery accepted s)
    unfolding proceed_refund_db
    proceed_refund_db-ends s v = elim (Fault-cases (env.faults find_reservation)) [
      | inr (what, inl broken) ↦ rw (proceed_refund_db, broken) (ends s _ v)
      | inr (what, inr broken) ↦ rw (proceed_refund_db, broken) (ends s _ v)
      | inl sent ↦ rw (proceed_refund_db, sent) (on_refund_lookup-ends _ s v)
    ]

  module _
      (commits : (accepted : AcceptedRefund) (read before after : Store) (answer : Answer)
        → BringsRefund env delivery accepted
        → P read.tables
        → P before.tables
        → RefundSettles env delivery accepted read.tables before.tables after.tables
        → Told env answer
        → Q (after, answer)) where
    on_accepted_refund-ends :
        (accepted : Answer ⊎ AcceptedRefund) (s : Store)
        → accept_refund env delivery ≡ accepted
        → P s.tables
        → Q (on_accepted_refund env delivery accepted s)
    unfolding on_accepted_refund
    on_accepted_refund-ends (inl answer) s e v = ends s answer v
    on_accepted_refund-ends (inr accepted) s e v =
        elim (Bool-cases (check_nonce env.redis delivery.nonce)) [
          | inr again ↦ rw (on_accepted_refund, again) (ends s _ v)
          | inl first ↦
              rw (on_accepted_refund, first)
                (proceed_refund_db-ends accepted
                  (λ read before after answer.
                    commits accepted read before after answer
                      (accept_refund-Brings env delivery accepted e first))
                  s v)
        ]

    pub handle_refund_callback-ends :
        (s : Store) → P s.tables → Q (handle_refund_callback env delivery s)
    unfolding handle_refund_callback
    handle_refund_callback-ends s v = on_accepted_refund-ends (accept_refund env delivery) s refl v
