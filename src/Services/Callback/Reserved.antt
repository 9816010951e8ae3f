-- ===== src/Services/Callback/Reserved.antt =====
-- About the rows of pay_idempotency, through the transaction of a payment notification.
use drogon_pay.Common.{
  ◌≡◌, refl, inl, inr, Option, none, some, List, ◌∷◌, arith, Bool-cases, Option-cases, Bytes,
}
use drogon_pay.Models.Status.{OrderStatus, holds_money}
use drogon_pay.Models.Tables.{
  OrderRow, PaymentRow, Fault, Reply, update_where, Fault-cases, succeeds, raises, mapper_fails,
  answered, exception, no_mapper,
}
use drogon_pay.Services.Idempotency.{IdempotencyRow}
use drogon_pay.Services.Callback.Settled.{advanced_row}
use drogon_pay.Services.Callback.Types.{
  Delivery, Store, Answer, Point, Env, callback_row, select_attempt, insert_duplicate,
  insert_ledger, finalize, behind_reads,
}
use drogon_pay.Services.Callback.Reserve.{
  is_owned, Finalized, finalize_reservation, finalized, lost, finalize_error, finalize_throws,
}
use drogon_pay.Services.Callback.Trade.{Accepted, is_open_payment, is_order, trade_problem}
use drogon_pay.Services.Callback.Payment.{
  TransactionEnd, Booked, insert_income, token, commit_finalized, finish_income, finalize_after,
  finish_without_income, write_order, advance_payment, write_payment, insert_audit_row,
  end_transaction, settle_payment, on_order, on_attempt, run_transaction, rolled_back, skipped,
  committed, booked, not_sent, aborted,
}

module _ (env : Env) (delivery : Delivery) (accepted : Accepted) (R : List IdempotencyRow → Type 0)
    (stamps : (rows : List IdempotencyRow)
      → R rows
      → R (
          update_where
            (is_owned accepted.key (token env delivery))
            (λ row. record row { response_snapshot = some accepted.plaintext })
            rows)) where
  finalize_reservation-keeps :
      (fault : Fault) (rows : List IdempotencyRow)
      → R rows
      → (after : List IdempotencyRow)
      → finalize_reservation fault accepted.key (token env delivery) accepted.plaintext rows
        ≡ finalized after
      → R after
  unfolding finalize_reservation
  finalize_reservation-keeps (raises what) rows v after e = absurd (ground (arith, e))
  finalize_reservation-keeps (mapper_fails what) rows v after e = absurd (ground (arith, e))
  finalize_reservation-keeps succeeds rows v after e = ground (arith, e, stamps rows v)

  commit_finalized-keeps :
      (f : Finalized) (s after : Store) (answer : Answer)
      → ((rows : List IdempotencyRow) → f ≡ finalized rows → R rows)
      → commit_finalized env delivery f s ≡ committed after answer
      → R after.reservations
  unfolding commit_finalized
  commit_finalized-keeps (finalized rows) s after answer v e = ground (arith, e, v rows refl)
  commit_finalized-keeps (lost) s after answer v e = absurd (ground (arith, e))
  commit_finalized-keeps (finalize_error what) s after answer v e = absurd (ground (arith, e))
  commit_finalized-keeps (finalize_throws what) s after answer v e = absurd (ground (arith, e))

  finalize_after-keeps :
      (f : Finalized) (s : Store)
      → R s.reservations
      → ((rows : List IdempotencyRow) → f ≡ finalized rows → R rows)
      → R (finalize_after env delivery f s).reservations
  unfolding finalize_after
  finalize_after-keeps (finalized rows) s v w = w rows refl
  finalize_after-keeps (lost) s v w = v
  finalize_after-keeps (finalize_error what) s v w = v
  finalize_after-keeps (finalize_throws what) s v w = v

  finish_income-keeps :
      (s : Store) (b : Booked) (after : Store) (answer : Answer)
      → R s.reservations
      → finish_income env delivery accepted s b ≡ committed after answer
      → R after.reservations
  unfolding finish_income
  finish_income-keeps s aborted after answer v e = absurd (ground (arith, e))
  finish_income-keeps s not_sent after answer v e =
      commit_finalized-keeps _ s after answer
        (finalize_reservation-keeps (env.faults finalize) s.reservations v) e
  finish_income-keeps s (booked ledger) after answer v e =
      commit_finalized-keeps _ _ after answer
        (finalize_reservation-keeps (env.faults finalize) s.reservations v) e

  finish_without_income-keeps :
      (s after : Store) (answer : Answer)
      → R s.reservations
      → finish_without_income env delivery accepted s ≡ committed after answer
      → R after.reservations
  unfolding finish_without_income
  finish_without_income-keeps s after answer v e = ground (
    arith,
    e,
    finalize_after-keeps
        (finalize_reservation (env.faults finalize) accepted.key (token env delivery)
          accepted.plaintext s.reservations)
        s v (finalize_reservation-keeps (env.faults finalize) s.reservations v),
  )

  write_order-keeps :
      (payment : PaymentRow) (order : OrderRow) (order_status : OrderStatus) (s after : Store)
      (answer : Answer)
      → R s.reservations
      → write_order env delivery accepted payment order order_status s ≡ committed after answer
      → R after.reservations
  unfolding write_order
  write_order-keeps payment order order_status s after answer v e =
      let written : Store = record s {
        tables = record s.tables {
          orders =
              update_where (is_order order.order_no) (λ row. record row { status = order_status })
                s.tables.orders;
        };
      } in
      ground (
        arith,
        e,
        finish_income-keeps written
            (insert_income (env.faults insert_ledger) order accepted.trade.out_trade_no
              payment.payment_no s.tables.ledger)
            after answer v,
        finish_without_income-keeps written after answer v,
      )

  write_payment-keeps :
      (payment : PaymentRow) (order : OrderRow) (resolved : Option OrderStatus) (s after : Store)
      (answer : Answer)
      → R s.reservations
      → write_payment env delivery accepted payment order resolved s ≡ committed after answer
      → R after.reservations
  unfolding write_payment advance_payment
  write_payment-keeps payment order none s after answer v e = absurd (ground (arith, e))
  write_payment-keeps payment order (some order_status) s after answer v e = ground (
    arith,
    e,
    write_order-keeps payment order order_status
        (record s {
          tables = record s.tables {
            payments =
                update_where (is_open_payment payment.payment_no) (advanced_row accepted)
                  s.tables.payments;
          };
          callbacks = callback_row delivery payment.payment_no ∷ s.callbacks;
        })
        after answer v,
  )

  module _
      (others : (p : Point) (s : Store) → R s.reservations → R (env.others p s).reservations) where
    insert_audit_row-keeps :
        (f : Fault) (payment_no : Bytes) (s : Store)
        → R s.reservations
        → R (insert_audit_row env delivery f payment_no s).reservations
    unfolding insert_audit_row
    insert_audit_row-keeps succeeds payment_no s v = v
    insert_audit_row-keeps (raises what) payment_no s v = v
    insert_audit_row-keeps (mapper_fails what) payment_no s v = v

    end_transaction-keeps :
        (payment : PaymentRow) (order : OrderRow) (s : Store) (resolved : Option OrderStatus)
        (outcome : TransactionEnd)
        → R s.reservations
        → write_payment env delivery accepted payment order resolved s ≡ outcome
        → R (end_transaction env delivery payment.payment_no s outcome).0.reservations
    unfolding end_transaction
    end_transaction-keeps payment order s resolved (rolled_back answer) v e = v
    end_transaction-keeps payment order s resolved skipped v e =
        insert_audit_row-keeps (env.faults insert_duplicate) payment.payment_no s v
    end_transaction-keeps payment order s resolved (committed after answer) v e =
        write_payment-keeps payment order resolved s after answer v e

    settle_payment-keeps :
        (payment : PaymentRow) (order : OrderRow) (s : Store)
        → R s.reservations
        → R (settle_payment env delivery accepted payment order s).0.reservations
    unfolding settle_payment
    settle_payment-keeps payment order s v =
        elim (Option-cases (trade_problem accepted.trade payment order)) [
          | inr (answer, wrong) ↦ rw (settle_payment, wrong) v
          | inl right ↦
              rw (settle_payment, right)
                (end_transaction-keeps payment order (env.others behind_reads s) _ _
                  (others behind_reads s v) refl)
        ]

    on_order-keeps :
        (payment : PaymentRow) (reply : Reply OrderRow) (s : Store)
        → R s.reservations
        → R (on_order env delivery accepted payment reply s).0.reservations
    unfolding on_order
    on_order-keeps payment (exception what) s v = v
    on_order-keeps payment (no_mapper what) s v = v
    on_order-keeps payment (answered order) s v = settle_payment-keeps payment order s v

    on_attempt-keeps :
        (found : Option PaymentRow) (s : Store)
        → R s.reservations
        → R (on_attempt env delivery accepted found s).0.reservations
    unfolding on_attempt
    on_attempt-keeps none s v = v
    on_attempt-keeps (some payment) s v = elim (Bool-cases (holds_money payment.status)) [
      | inl money ↦ rw (on_attempt, money) v
      | inr no_money ↦ rw (on_attempt, no_money) (on_order-keeps payment _ s v)
    ]

    pub run_transaction-keeps :
        (s : Store) → R s.reservations → R (run_transaction env delivery accepted s).0.reservations
    unfolding run_transaction
    run_transaction-keeps s v = elim (Fault-cases (env.faults select_attempt)) [
      | inr (what, inl broken) ↦ rw (run_transaction, broken) v
      | inr (what, inr broken) ↦ rw (run_transaction, broken) v
      | inl sent ↦ rw (run_transaction, sent) (on_attempt-keeps _ s v)
    ]
