-- ===== src/Services/Payment/QrBooks.antt =====
-- About what `createQRPayment` leaves of the payments, from the search for the order on.

use drogon_pay.Common.{
  ◌≡◌, refl, sym, ap, ◌∙◌, subst, inl, inr, true, none, List, [], ◌∷◌, Bool-cases, Option-cases,
  any, bytes_eq,
}
use drogon_pay.Models.Members.{Among, select-Among}
use drogon_pay.Models.Tables.{OrderRow, PaymentRow, Db, reply, select, select-head, Fault-cases}
use drogon_pay.Services.Callback.Trade.{is_order}
use drogon_pay.Services.Payment.QrOffer.{
  QrOrder, QrPoint, QrEnv, is_settled_payment, new_order, new_attempt, find_order, insert_order,
  find_settled, insert_payment, behind_order, behind_insert, behind_settled, during_offer,
}
use drogon_pay.Services.Payment.Qr.{
  book_qr_payment, insert_qr_order, on_settled_rows, refuse_if_already_settled, existing_problem,
  on_order_rows, offer_qr_payment,
}
use drogon_pay.Services.Idempotency.Rows.{any-none}
use drogon_pay.Services.Payment.QrAdds.{
  MayOffer, Books, existing_problem-none, on_offer-AddsAttempt,
}

module _ (env : QrEnv) (q : QrOrder) (quiet : (p : QrPoint) (db : Db) → env.others p db ≡ db) where
  -- The tables in which an attempt is booked have the payments of the tables before.
  book_qr_payment-Books :
      (order : OrderRow) (before db : Db)
      → MayOffer q before
      → db.payments ≡ before.payments
      → Books env q before (book_qr_payment env q order db)
  unfolding book_qr_payment
  book_qr_payment-Books order before db may same = elim (Fault-cases (env.faults insert_payment)) [
    | inr (what, inl broken) ↦ inl (rw (book_qr_payment, broken) (same, (_, _, _, refl)))
    | inr (what, inr broken) ↦ inl (rw (book_qr_payment, broken) (same, (_, _, _, refl)))
    | inl sent ↦
        elim (Bool-cases
          (any (λ (row : PaymentRow). bytes_eq row.payment_no env.payment_no) db.payments)) [
            | inl taken ↦ inl (rw (book_qr_payment, sent, taken) (same, (_, _, _, refl)))
            | inr free ↦ inr (
              may,
              rw (book_qr_payment, sent, free)
                  (on_offer-AddsAttempt env q quiet order _ _ before.payments _ (rw same at free) (
                    ap (λ (x : Db). x.payments) (quiet during_offer _)
                    ∙ ap (λ rows. new_attempt env q ∷ rows) same)),
            )
          ]
  ]

  insert_qr_order-Books :
      (before db : Db)
      → MayOffer q before
      → db.payments ≡ before.payments
      → Books env q before (insert_qr_order env q db)
  unfolding insert_qr_order
  insert_qr_order-Books before db may same = elim (Fault-cases (env.faults insert_order)) [
    | inr (what, inl broken) ↦ inl (rw (insert_qr_order, broken) (same, (_, _, _, refl)))
    | inr (what, inr broken) ↦ inl (rw (insert_qr_order, broken) (same, (_, _, _, refl)))
    | inl sent ↦ elim (Bool-cases (any (is_order q.order_no) db.orders)) [
      | inl taken ↦ inl (rw (insert_qr_order, sent, taken) (same, (_, _, _, refl)))
      | inr free ↦
          rw (insert_qr_order, sent, free)
            (book_qr_payment-Books (new_order env q) before _ may
              (ap (λ (x : Db). x.payments) (quiet behind_insert _) ∙ same))
    ]
  ]

  refuse_if_already_settled-Books :
      (existing : OrderRow) (db : Db)
      → Among existing db.orders
      → is_order q.order_no existing ≡ true
      → existing_problem env q existing ≡ none
      → Books env q db (refuse_if_already_settled env q existing db)
  unfolding refuse_if_already_settled reply
  refuse_if_already_settled-Books existing db its_row its e =
      elim (Fault-cases (env.faults find_settled)) [
        | inr (what, inl broken) ↦
            inl (rw (refuse_if_already_settled, broken) (refl, (_, _, _, refl)))
        | inr (what, inr broken) ↦
            inl (rw (refuse_if_already_settled, broken) (refl, (_, _, _, refl)))
        | inl sent ↦
            rw (refuse_if_already_settled, sent)
              (on_rows (select (is_settled_payment q.order_no) db.payments) refl)
      ]
    where
      on_rows :
          (rows : List PaymentRow)
          → select (is_settled_payment q.order_no) db.payments ≡ rows
          → Books env q db (on_settled_rows env q existing rows db)
      on_rows (row ∷ rows) found = inl (refl, (_, _, _, refl))
      on_rows [] found =
          book_qr_payment-Books existing db _
            (inr (
              existing,
              its_row,
              its,
              existing_problem-none env q existing db e
                  (any-none (is_settled_payment q.order_no) db.payments found),
            ))
            (ap (λ (x : Db). x.payments) (quiet behind_settled db))

  pub offer_qr_payment-Books : (db : Db) → Books env q db (offer_qr_payment env q db)
  unfolding offer_qr_payment reply
  offer_qr_payment-Books db = elim (Fault-cases (env.faults find_order)) [
    | inr (what, inl broken) ↦ inl (rw (offer_qr_payment, broken) (refl, (_, _, _, refl)))
    | inr (what, inr broken) ↦ inl (rw (offer_qr_payment, broken) (refl, (_, _, _, refl)))
    | inl sent ↦ rw (offer_qr_payment, sent) (on_rows (select (is_order q.order_no) db.orders) refl)
  ]
    where
      on_rows :
          (rows : List OrderRow)
          → select (is_order q.order_no) db.orders ≡ rows
          → Books env q db (on_order_rows env q rows db)
      on_rows [] found =
          insert_qr_order-Books db _ (inl (any-none (is_order q.order_no) db.orders found))
            (ap (λ (x : Db). x.payments) (quiet behind_order db))
      on_rows (existing ∷ rows) found = elim (Option-cases (existing_problem env q existing)) [
        | inr (problem, wrong) ↦ rw (on_order_rows, wrong) (inl (refl, (_, _, _, refl)))
        | inl right ↦
            rw (on_order_rows, right)
              (subst (λ other. Books env q db (refuse_if_already_settled env q existing other))
                (sym (quiet behind_order db))
                (refuse_if_already_settled-Books existing db
                  (select-Among (is_order q.order_no) existing db.orders rows found)
                  (select-head (is_order q.order_no) db.orders existing rows found) right))
      ]
