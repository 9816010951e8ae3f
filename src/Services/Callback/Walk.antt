-- ===== src/Services/Callback/Walk.antt =====
-- The walk through `handlePaymentCallback`, for everything that holds of its ends.

use drogon_pay.Common.{
  ◌≡◌, refl, ◌⊎◌, inl, inr, true, false, Option, none, some, List, [], ◌∷◌, Bool-cases,
  Option-cases, Bytes,
}
use drogon_pay.Models.Status.{holds_money}
use drogon_pay.Models.Members.{Among, latest_selected-Among, find_one-Among}
use drogon_pay.Models.Tables.{
  OrderRow, PaymentRow, Db, Reply, find_one, find_one-holds, Fault-cases, latest-select, answered,
  exception, no_mapper,
}
use drogon_pay.Services.Idempotency.{IdempotencyRow}
use drogon_pay.Services.Callback.Types.{
  Delivery, Store, Answer, Point, Env, find_reservation, reserve, select_attempt, find_order,
  insert_duplicate, behind_lookup, behind_reserve, behind_reads,
}
use drogon_pay.Services.Callback.Verify.{check_nonce}
use drogon_pay.Services.Callback.Trade.{Accepted, is_attempt, is_order, trade_problem}
use drogon_pay.Services.Callback.Payment.{
  TransactionEnd, resolve_status, write_payment, end_transaction, settle_payment, on_order,
  on_attempt, run_transaction, rolled_back, skipped, committed,
}
use drogon_pay.Services.Callback.Deliver.{
  on_reservation, on_reserved, process_new, on_lookup, proceed_with_db, accept, on_accepted,
  handle_payment_callback,
}
use drogon_pay.Services.Callback.Accepts.{Brings, accept-Brings}
use drogon_pay.Services.Callback.Audit.{insert_audit_row-ends, answer_again-ends}
use drogon_pay.Services.Callback.Settled.{
  Told, Settles, trade_problem-Agrees, write_payment-committed,
}

-- `P` holds of the tables until the commit, and `Q` is about the end.
module _ (env : Env) (delivery : Delivery) (P : Db → Type 0) (Q : Store × Answer → Type 0)
    (moves : (p : Point) (s : Store) → P s.tables → P (env.others p s).tables)
    (ends : (s : Store) (answer : Answer) → P s.tables → Q (s, answer)) where
  module _ (accepted : Accepted)
      (commits : (read before after : Store) (answer : Answer)
        → P read.tables
        → P before.tables
        → Settles env delivery accepted read.tables before.tables after.tables
        → Told env answer
        → Q (after, answer)) where
    end_transaction-ends :
        (payment : PaymentRow) (order : OrderRow) (read s : Store) (outcome : TransactionEnd)
        → P read.tables
        → P s.tables
        → Among payment read.tables.payments
        → Among order read.tables.orders
        → is_attempt accepted.trade.out_trade_no payment ≡ true
        → holds_money payment.status ≡ false
        → is_order payment.order_no order ≡ true
        → trade_problem accepted.trade payment order ≡ none
        → write_payment env delivery accepted payment order
            (resolve_status env delivery accepted order s.tables)
            s
          ≡ outcome
        → Q (end_transaction env delivery payment.payment_no s outcome)
    unfolding end_transaction
    end_transaction-ends payment order read s (rolled_back answer) w v its_payment order_row attempt
          no_money its_order right e =
        ends s answer v
    end_transaction-ends payment order read s skipped w v its_payment order_row attempt no_money
          its_order right e =
        insert_audit_row-ends env delivery P Q ends (env.faults insert_duplicate) payment.payment_no
          s v
    end_transaction-ends payment order read s (committed after answer) w v its_payment order_row
          attempt no_money its_order right e =
        let wrote =
          write_payment-committed env delivery accepted payment order
            (resolve_status env delivery accepted order s.tables) s after answer e in
        commits read s after answer w v
          (record {
            its_payment = its_payment;
            order_row = order_row;
            payment = payment;
            order = order;
            order_status = wrote.0.0;
            ledger = wrote.0.1;
            attempt = attempt;
            no_money = no_money;
            resolved = wrote.0.2;
            its_order = its_order;
            agrees = trade_problem-Agrees accepted.trade payment order right;
            open_row = wrote.1;
            entry = wrote.0.3;
            result = wrote.0.4;
          })
          wrote.2

    settle_payment-ends :
        (payment : PaymentRow) (order : OrderRow) (s : Store)
        → P s.tables
        → Among payment s.tables.payments
        → Among order s.tables.orders
        → is_attempt accepted.trade.out_trade_no payment ≡ true
        → holds_money payment.status ≡ false
        → is_order payment.order_no order ≡ true
        → Q (settle_payment env delivery accepted payment order s)
    unfolding settle_payment
    settle_payment-ends payment order s v its_payment order_row attempt no_money its_order =
        elim (Option-cases (trade_problem accepted.trade payment order)) [
          | inr (answer, wrong) ↦ rw (settle_payment, wrong) (ends s answer v)
          | inl right ↦
              rw (settle_payment, right)
                (end_transaction-ends payment order s (env.others behind_reads s) _ v
                  (moves behind_reads s v) its_payment order_row attempt no_money its_order right
                  refl)
        ]

    on_attempt-ends :
        (found : Option PaymentRow) (s : Store)
        → P s.tables
        → ((payment : PaymentRow) → found ≡ some payment → Among payment s.tables.payments)
        → ((payment : PaymentRow)
            → found ≡ some payment
            → is_attempt accepted.trade.out_trade_no payment ≡ true)
        → Q (on_attempt env delivery accepted found s)
    unfolding on_attempt on_order
    on_attempt-ends none s v its_row attempt = ends s _ v
    on_attempt-ends (some payment) s v its_row attempt =
        elim (Bool-cases (holds_money payment.status)) [
          | inl money ↦ rw (on_attempt, money) (ends s _ v)
          | inr no_money ↦
              rw (on_attempt, no_money)
                (on_reply
                  (find_one (env.faults find_order) (is_order payment.order_no) s.tables.orders)
                  refl no_money)
        ]
      where
        on_reply :
            (reply : Reply OrderRow)
            → find_one (env.faults find_order) (is_order payment.order_no) s.tables.orders ≡ reply
            → holds_money payment.status ≡ false
            → Q (on_order env delivery accepted payment reply s)
        on_reply (exception what) e no_money = ends s _ v
        on_reply (no_mapper what) e no_money = ends s _ v
        on_reply (answered order) e no_money =
            settle_payment-ends payment order s v (its_row payment refl)
              (find_one-Among (env.faults find_order) (is_order payment.order_no) order
                s.tables.orders e)
              (attempt payment refl) no_money
              (find_one-holds (env.faults find_order) (is_order payment.order_no) s.tables.orders
                order e)

    run_transaction-ends : (s : Store) → P s.tables → Q (run_transaction env delivery accepted s)
    unfolding run_transaction
    run_transaction-ends s v = elim (Fault-cases (env.faults select_attempt)) [
      | inr (what, inl broken) ↦ rw (run_transaction, broken) (ends s _ v)
      | inr (what, inr broken) ↦ rw (run_transaction, broken) (ends s _ v)
      | inl sent ↦
          rw (run_transaction, sent)
            (on_attempt-ends _ s v
              (λ payment e.
                latest_selected-Among (λ (row : PaymentRow). row.created_at)
                  (is_attempt accepted.trade.out_trade_no) payment s.tables.payments e)
              (λ payment e.
                latest-select (λ (row : PaymentRow). row.created_at)
                  (is_attempt accepted.trade.out_trade_no) s.tables.payments payment e))
    ]

    process_new-ends : (s : Store) → P s.tables → Q (process_new env delivery accepted s)
    unfolding process_new on_reserved
    process_new-ends s v = elim (Fault-cases (env.faults reserve)) [
      | inr (what, inl broken) ↦ rw (process_new, broken) (ends s _ v)
      | inr (what, inr broken) ↦ rw (process_new, broken) (ends s _ v)
      | inl sent ↦ rw (process_new, sent) (on_rows _)
    ]
      where
        on_rows :
            (rows : Option (List IdempotencyRow)) → Q (on_reserved env delivery accepted rows s)
        on_rows none = ends s _ v
        on_rows (some rows) =
            run_transaction-ends _ (moves behind_reserve (record s { reservations = rows }) v)

    on_reservation-ends :
        (key order_no : Bytes) (row : IdempotencyRow) (s : Store)
        → P s.tables
        → Q (on_reservation env delivery key order_no row s)
    unfolding on_reservation
    on_reservation-ends key order_no row s v = elim (Option-cases row.response_snapshot) [
      | inl unfinished ↦ rw (on_reservation, unfinished) (ends _ _ v)
      | inr (text, finished) ↦
          rw (on_reservation, finished) (answer_again-ends env delivery P Q ends order_no s v)
    ]

    on_lookup-ends :
        (rows : List IdempotencyRow) (s : Store)
        → P s.tables
        → Q (on_lookup env delivery accepted rows s)
    unfolding on_lookup
    on_lookup-ends [] s v = process_new-ends _ (moves behind_lookup s v)
    on_lookup-ends (row ∷ []) s v =
        on_reservation-ends accepted.key accepted.trade.out_trade_no row _ (moves behind_lookup s v)
    on_lookup-ends (row ∷ again ∷ rows) s v = process_new-ends _ (moves behind_lookup s v)

    pub proceed_with_db-ends :
        (s : Store) → P s.tables → Q (proceed_with_db env delivery accepted s)
    unfolding proceed_with_db
    proceed_with_db-ends s v = elim (Fault-cases (env.faults find_reservation)) [
      | inr (what, inl broken) ↦ rw (proceed_with_db, broken) (ends s _ v)
      | inr (what, inr broken) ↦ rw (proceed_with_db, broken) (ends s _ v)
      | inl sent ↦ rw (proceed_with_db, sent) (on_lookup-ends _ s v)
    ]

  module _
      (commits : (accepted : Accepted) (read before after : Store) (answer : Answer)
        → Brings env delivery accepted
        → P read.tables
        → P before.tables
        → Settles env delivery accepted read.tables before.tables after.tables
        → Told env answer
        → Q (after, answer)) where
    on_accepted-ends :
        (accepted : Answer ⊎ Accepted) (s : Store)
        → accept env delivery ≡ accepted
        → P s.tables
        → Q (on_accepted env delivery accepted s)
    unfolding on_accepted
    on_accepted-ends (inl answer) s e v = ends s answer v
    on_accepted-ends (inr accepted) s e v =
        elim (Bool-cases (check_nonce env.redis delivery.nonce)) [
          | inr again ↦ rw (on_accepted, again) (ends s _ v)
          | inl first ↦
              rw (on_accepted, first)
                (proceed_with_db-ends accepted
                  (λ read before after answer.
                    commits accepted read before after answer
                      (accept-Brings env delivery accepted e first))
                  s v)
        ]

    pub handle_payment_callback-ends :
        (s : Store) → P s.tables → Q (handle_payment_callback env delivery s)
    unfolding handle_payment_callback
    handle_payment_callback-ends s v = on_accepted-ends (accept env delivery) s refl v
