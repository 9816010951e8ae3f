-- ===== src/Services/Payment/Qr.antt =====
-- `createQRPayment`: from the search for the order to the channel. Every call of the database and of the
-- channel is behind the one before it, and other writers may run between them.

use drogon_pay.Common.{
  Bool, not, ◌||◌, Option, none, some, List, [], ◌∷◌, ◌++◌, ◌==◌, if◌then◌else◌, Bytes, codes, any,
  bytes_eq,
}
use drogon_pay.Common.Int.{eq_ℤ}
use drogon_pay.Models.Status.{is_paid, is_refunded}
use drogon_pay.Models.Tables.{
  OrderRow, PaymentRow, Db, reply, select, succeeds, raises, mapper_fails, answered, exception,
  no_mapper,
}
use drogon_pay.Utils.Amount.{parse_amount_to_fen}
use drogon_pay.Services.Callback.Trade.{is_order}
use drogon_pay.Services.Payment.QrOffer.{
  QrOrder, QrEnv, QrEnd, order_status_text, settled_text, is_settled_payment, duplicate_key,
  new_order, new_attempt, on_offer, find_order, insert_order, find_settled, insert_payment,
  behind_order, behind_insert, behind_settled, during_offer, nothing_more, fail_qr,
}

-- Amounts are compared in fen where both are amounts, and as texts otherwise.
unfoldable pub is_same_amount : Bytes → Bytes → Bool
is_same_amount booked requested = elim (parse_amount_to_fen booked) [
  | none ↦ bytes_eq booked requested
  | some booked_fen ↦ elim (parse_amount_to_fen requested) [
    | none ↦ bytes_eq booked requested
    | some requested_fen ↦ booked_fen == requested_fen
  ]
]

module _ (env : QrEnv) (q : QrOrder) where
  -- `bookQrPayment` and `offerQrChannel`
  unfoldable pub book_qr_payment : OrderRow → Db → Db × QrEnd
  book_qr_payment order db = elim (env.faults insert_payment) [
    | raises what ↦ (db, fail_qr 500 (codes "Failed to book the QR payment: " ++ what) nothing_more)
    | mapper_fails what ↦
        (db, fail_qr 500 (codes "Failed to book the QR payment: " ++ what) nothing_more)
    | succeeds ↦
        if any (λ (row : PaymentRow). bytes_eq row.payment_no env.payment_no) db.payments
        then (
          db,
          fail_qr 500 (codes "Failed to book the QR payment: " ++ duplicate_key) nothing_more,
        )
        else on_offer env q order q.offer.0 q.offer.1
            (env.others during_offer (record db { payments = new_attempt env q ∷ db.payments }))
  ]

  unfoldable pub insert_qr_order : Db → Db × QrEnd
  insert_qr_order db = elim (env.faults insert_order) [
    | raises what ↦ (db, fail_qr 500 (codes "Failed to book the QR order: " ++ what) nothing_more)
    | mapper_fails what ↦
        (db, fail_qr 500 (codes "Failed to book the QR order: " ++ what) nothing_more)
    | succeeds ↦
        if any (is_order q.order_no) db.orders
        then (db, fail_qr 500 (codes "Failed to book the QR order: " ++ duplicate_key) nothing_more)
        else book_qr_payment (new_order env q)
            (env.others behind_insert (record db { orders = new_order env q ∷ db.orders }))
  ]

  abbrev pub on_settled_rows : OrderRow → List PaymentRow → Db → Db × QrEnd
  on_settled_rows existing [] db = book_qr_payment existing (env.others behind_settled db)
  on_settled_rows existing (row ∷ rows) db = (
    db,
    fail_qr 400
        (codes "Order "
          ++ q.order_no
          ++ codes " already has a settled payment ("
          ++ settled_text row.status
          ++ codes ")")
        nothing_more,
  )

  unfoldable pub refuse_if_already_settled : OrderRow → Db → Db × QrEnd
  refuse_if_already_settled existing db =
      elim (reply (env.faults find_settled) (select (is_settled_payment q.order_no) db.payments)) [
        | exception what ↦ (
          db,
          fail_qr 500 (codes "Failed to read the QR order's payment attempts: " ++ what)
              nothing_more,
        )
        | no_mapper what ↦ (
          db,
          fail_qr 500 (codes "Failed to read the QR order's payment attempts: " ++ what)
              nothing_more,
        )
        | answered rows ↦ on_settled_rows existing rows db
      ]

  -- Why an order that is already there is not offered again.
  unfoldable pub existing_problem : OrderRow → Option Bytes
  existing_problem existing =
      if is_paid existing.status || is_refunded existing.status
      then some (
          codes "Order "
          ++ q.order_no
          ++ codes " is already "
          ++ order_status_text existing.status
          ++ codes " and cannot be offered again")
      else if not (is_same_amount existing.amount q.amount)
      then some (codes "Order " ++ q.order_no ++ codes " exists with amount " ++ existing.amount)
      else if not (bytes_eq existing.currency q.currency)
      then some
          (codes "Order " ++ q.order_no ++ codes " exists with currency " ++ existing.currency)
      else if not (bytes_eq existing.channel q.channel)
      then some (codes "Order " ++ q.order_no ++ codes " belongs to channel " ++ existing.channel)
      else if not (eq_ℤ existing.user_id q.user_id)
      then some (codes "Order " ++ q.order_no ++ codes " belongs to another user")
      else none

  abbrev pub on_order_rows : List OrderRow → Db → Db × QrEnd
  on_order_rows [] db = insert_qr_order (env.others behind_order db)
  on_order_rows (existing ∷ rows) db = elim (existing_problem existing) [
    | some problem ↦ (db, fail_qr 400 problem nothing_more)
    | none ↦ refuse_if_already_settled existing (env.others behind_order db)
  ]

  unfoldable pub offer_qr_payment : Db → Db × QrEnd
  offer_qr_payment db =
      elim (reply (env.faults find_order) (select (is_order q.order_no) db.orders)) [
        | exception what ↦
            (db, fail_qr 500 (codes "Failed to read the QR order: " ++ what) nothing_more)
        | no_mapper what ↦
            (db, fail_qr 500 (codes "Failed to read the QR order: " ++ what) nothing_more)
        | answered rows ↦ on_order_rows rows db
      ]
