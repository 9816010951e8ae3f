-- ===== src/Services/Callback/RefundSettled.antt =====
-- About the transaction of a refund notification: what it commits.

use drogon_pay.Common.{
  ℕ, ◌≡◌, refl, ◌⊎◌, inl, inr, true, false, Option, none, some, List, ◌∷◌, arith, Bool-cases,
  Option-cases, Bytes, any, bytes_eq, is_empty,
}
use drogon_pay.Common.Int.{leb_ℤ, pos}
use drogon_pay.Models.Status.{RefundStatus, is_refund_success, refunded}
use drogon_pay.Services.Callback.Settled.{Told}
use drogon_pay.Models.Members.{Among}
use drogon_pay.Models.Tables.{
  OrderRow, RefundRow, LedgerRow, Db, update_where, Fault-cases, mapper_fails,
}
use drogon_pay.Utils.Amount.{parse_amount_to_fen}
use drogon_pay.Utils.Status.{map_refund_status, refunds_cover_order_amount}
use drogon_pay.Services.Refund.Settle.{is_unsettled_refund, is_paid_order}
use drogon_pay.Services.Refund.Sync.{is_refund_no, fen_or_zero}
use drogon_pay.Services.Callback.Types.{
  Delivery, RefundTrade, Store, Answer, Env, callback_row, insert_ledger, finalize, commit,
}
use drogon_pay.Services.Callback.Reserve.{
  Finalized, finalize_reservation, finalized, lost, finalize_error, finalize_throws,
}
use drogon_pay.Services.Callback.Trade.{is_order}
use drogon_pay.Services.Callback.Payment.{token, committed}
use drogon_pay.Services.Callback.Refund.{
  AcceptedRefund, refund_amount_problem, refund_currency_problem, outgo_row, insert_outgo,
  settled_refund, commit_refund, finish_refund, cover_order, sum_refund, settled_sum, book_refund,
  write_payload, write_refund,
}

-- What becomes of the ledger: one entry more for a refund that succeeded, but for one that the Mapper
-- could not send.
abbrev pub IsPaidOut :
    Env → RefundRow → OrderRow → RefundStatus → List LedgerRow → List LedgerRow → Type 0
IsPaidOut env refund order refund_status before after =
    ((is_refund_success refund_status ≡ true) × (after ≡ outgo_row order refund ∷ before))
    ⊎ ((is_refund_success refund_status ≡ true)
        × ((what : Bytes) × (env.faults insert_ledger ≡ mapper_fails what))
        × (after ≡ before))
    ⊎ ((is_refund_success refund_status ≡ false) × (after ≡ before))

-- What becomes of the orders: only a settled sum that covers the order makes a PAID order REFUNDED.
abbrev pub IsCoveredBy :
    Env
    → Delivery
    → RefundRow
    → OrderRow
    → RefundStatus
    → List RefundRow
    → List OrderRow
    → List OrderRow
    → Type 0
IsCoveredBy env delivery refund order refund_status refunds before after =
    (after ≡ before)
    ⊎ ((is_refund_success refund_status ≡ true)
        × ((settled_fen : ℕ) × (settled_sum env delivery refund.order_no refunds ≡ some settled_fen)
            × (refunds_cover_order_amount (pos settled_fen) (pos (fen_or_zero order.amount))
                ≡ true))
        × (after
            ≡ update_where (is_paid_order refund.order_no) (λ row. record row { status = refunded })
                before))

abbrev pub written_refunds : AcceptedRefund → RefundStatus → List RefundRow → List RefundRow
written_refunds accepted refund_status refunds =
    update_where (is_unsettled_refund accepted.trade.out_refund_no)
      (settled_refund refund_status accepted.trade.refund_id) refunds

module _ (env : Env) (delivery : Delivery) where
  pub record RefundSettles (accepted : AcceptedRefund) (read before after : Db) : Type 0 where
    pub refund : RefundRow
    pub order : OrderRow
    pub refund_status : RefundStatus
    pub orders : List OrderRow
    pub ledger : List LedgerRow
    pub its_refund : Among refund read.refunds
    pub order_row : Among order read.orders
    pub its_number : is_refund_no accepted.trade.out_refund_no refund ≡ true
    pub not_yet : is_refund_success refund.status ≡ false
    pub mapped : map_refund_status accepted.trade.refund_status ≡ some refund_status
    pub amount_fen : ℕ
    pub amount : parse_amount_to_fen refund.amount ≡ some amount_fen
    pub positive : leb_ℤ accepted.trade.refund (pos 0) ≡ false
    pub total : accepted.trade.refund ≡ pos amount_fen
    pub its_order : is_order refund.order_no order ≡ true
    pub currency :
        (is_empty accepted.trade.currency ≡ true)
        ⊎ (bytes_eq accepted.trade.currency order.currency ≡ true)
    pub open_row : any (is_unsettled_refund accepted.trade.out_refund_no) before.refunds ≡ true
    pub entry : IsPaidOut env refund order refund_status before.ledger ledger
    pub cover :
        IsCoveredBy env delivery refund order refund_status
          (written_refunds accepted refund_status before.refunds)
          before.orders
          orders
    pub result : after ≡ record {
      orders = orders;
      payments = before.payments;
      refunds = written_refunds accepted refund_status before.refunds;
      ledger = ledger;
    }

-- A notification without an amount problem has the amount of the row in fen, and it is positive.
pub refund_amount_problem-none :
    (trade : RefundTrade) (refund : RefundRow)
    → refund_amount_problem trade refund ≡ none
    → (fen : ℕ) × (parse_amount_to_fen refund.amount ≡ some fen)
      × (leb_ℤ trade.refund (pos 0) ≡ false)
      × (trade.refund ≡ pos fen)
unfolding refund_amount_problem
refund_amount_problem-none trade refund e =
    elim (Option-cases (parse_amount_to_fen refund.amount)) [
      | inl unread ↦ absurd (ground (arith, e))
      | inr (fen, read) ↦ (fen, read, ground (arith, e, read), ground (arith, e, read))
    ]

pub refund_currency_problem-none :
    (trade : RefundTrade) (order : OrderRow)
    → refund_currency_problem trade order ≡ none
    → (is_empty trade.currency ≡ true) ⊎ (bytes_eq trade.currency order.currency ≡ true)
unfolding refund_currency_problem
refund_currency_problem-none trade order e = ground (arith, e)

module _ (env : Env) (delivery : Delivery) (accepted : AcceptedRefund) (refund : RefundRow) where
  commit_refund-committed :
      (f : Finalized) (s after : Store) (answer : Answer)
      → commit_refund env delivery f s ≡ committed after answer
      → (after.tables ≡ s.tables) × Told env answer
  unfolding commit_refund
  commit_refund-committed (finalized rows) s after answer e =
      elim (Fault-cases (env.faults commit)) [
        | inl sent ↦ (ground (arith, e, sent), inl (ground (arith, e, sent)))
        | inr (what, inr unsent) ↦ absurd (ground (arith, e, unsent))
        | inr (what, inl raised) ↦ elim (Bool-cases env.commit_applied) [
          | inl applied ↦ (ground (arith, e, raised, applied), inr ((what, raised), applied))
          | inr dropped ↦ absurd (ground (arith, e, raised, dropped))
        ]
      ]
  commit_refund-committed lost s after answer e = absurd (ground (arith, e))
  commit_refund-committed (finalize_error what) s after answer e = absurd (ground (arith, e))
  commit_refund-committed (finalize_throws what) s after answer e = absurd (ground (arith, e))

  finish_refund-committed :
      (s after : Store) (answer : Answer)
      → finish_refund env delivery accepted refund s ≡ committed after answer
      → (after.tables ≡ s.tables) × Told env answer
  unfolding finish_refund
  finish_refund-committed s after answer e = ground (
    arith,
    e,
    commit_refund-committed
        (finalize_reservation (env.faults finalize) accepted.key (token env delivery)
          accepted.plaintext s.reservations)
        (record s { callbacks = callback_row delivery refund.payment_no ∷ s.callbacks }) after
        answer,
  )

  -- The sum that is read, and what it does to the orders.
  sum_refund-committed :
      (order : OrderRow) (sum : Option ℕ) (s after : Store) (answer : Answer)
      → sum_refund env delivery accepted refund order sum s ≡ committed after answer
      → ((after.tables ≡ s.tables)
          ⊎ (((settled_fen : ℕ) × (sum ≡ some settled_fen)
                × (refunds_cover_order_amount (pos settled_fen) (pos (fen_or_zero order.amount))
                    ≡ true))
              × (after.tables ≡ record s.tables {
                orders =
                    update_where
                      (is_paid_order refund.order_no)
                      (λ row. record row { status = refunded })
                      s.tables.orders;
              })))
        × Told env answer
  unfolding sum_refund cover_order
  sum_refund-committed order none s after answer e = absurd (ground (arith, e))
  sum_refund-committed order (some settled_fen) s after answer e =
      elim (Bool-cases
        (refunds_cover_order_amount (pos settled_fen) (pos (fen_or_zero order.amount)))) [
          | inr short ↦
              let ended = finish_refund-committed s after answer (ground (arith, e)) in
              (inl ended.0, ended.1)
          | inl covers ↦
              let ended =
                finish_refund-committed
                  (record s {
                    tables = record s.tables {
                      orders =
                          update_where (is_paid_order refund.order_no)
                            (λ row. record row { status = refunded }) s.tables.orders;
                    };
                  })
                  after answer (ground (arith, e)) in
              (inr ((settled_fen, refl, covers), ended.0), ended.1)
        ]

  pub write_refund-committed :
      (order : OrderRow) (refund_status : RefundStatus) (s after : Store) (answer : Answer)
      → write_refund env delivery accepted refund order refund_status s ≡ committed after answer
      → (any (is_unsettled_refund accepted.trade.out_refund_no) s.tables.refunds ≡ true)
        × (write_payload env delivery accepted refund order refund_status (record s {
          tables = record s.tables {
            refunds = written_refunds accepted refund_status s.tables.refunds;
          };
        })
            ≡ committed after answer)
  unfolding write_refund
  write_refund-committed order refund_status s after answer e = ground (arith, e)

  -- The ledger and the orders behind the row.
  pub write_payload-committed :
      (order : OrderRow) (refund_status : RefundStatus) (s after : Store) (answer : Answer)
      → write_payload env delivery accepted refund order refund_status s ≡ committed after answer
      → ((orders : List OrderRow) × (ledger : List LedgerRow) × IsPaidOut env refund order
            refund_status s.tables.ledger ledger
          × IsCoveredBy env delivery refund order refund_status s.tables.refunds s.tables.orders
              orders
          × (after.tables ≡ record s.tables { orders = orders; ledger = ledger }))
        × Told env answer
  unfolding write_payload insert_outgo book_refund
  write_payload-committed order refund_status s after answer e =
      elim (Bool-cases (is_refund_success refund_status)) [
        | inr open_still ↦
            let ended = finish_refund-committed s after answer (ground (arith, e)) in
            (
              (s.tables.orders, s.tables.ledger, inr (inr (open_still, refl)), inl refl, ended.0),
              ended.1,
            )
        | inl settled ↦ elim (Fault-cases (env.faults insert_ledger)) [
          | inr (what, inl broken) ↦ absurd (ground (arith, e, broken))
          | inr (what, inr unsent) ↦
              with_sum settled s.tables.ledger (inr (inl (settled, (what, unsent), refl))) (
                sum_refund-committed order
                  (settled_sum env delivery refund.order_no s.tables.refunds) s after answer
                  (ground (arith, e, unsent)))
          | inl sent ↦
              with_sum settled (outgo_row order refund ∷ s.tables.ledger) (inl (settled, refl)) (
                sum_refund-committed order
                  (settled_sum env delivery refund.order_no s.tables.refunds)
                  (record s {
                    tables = record s.tables { ledger = outgo_row order refund ∷ s.tables.ledger };
                  })
                  after answer (ground (arith, e, sent)))
        ]
      ]
    where
      with_sum :
          is_refund_success refund_status ≡ true
          → (ledger : List LedgerRow)
          → IsPaidOut env refund order refund_status s.tables.ledger ledger
          → ((after.tables ≡ record s.tables { ledger = ledger })
              ⊎ (((settled_fen : ℕ) × (settled_sum env delivery refund.order_no s.tables.refunds
                      ≡ some settled_fen)
                    × (refunds_cover_order_amount (pos settled_fen) (pos (fen_or_zero order.amount))
                        ≡ true))
                  × (after.tables ≡ record s.tables {
                    orders =
                        update_where
                          (is_paid_order refund.order_no)
                          (λ row. record row { status = refunded })
                          s.tables.orders;
                    ledger = ledger;
                  })))
            × Told env answer
          → ((orders : List OrderRow) × (ledger : List LedgerRow) × IsPaidOut env refund order
                refund_status s.tables.ledger ledger
              × IsCoveredBy env delivery refund order refund_status s.tables.refunds s.tables.orders
                  orders
              × (after.tables ≡ record s.tables { orders = orders; ledger = ledger }))
            × Told env answer
      with_sum settled ledger entry (inl same, ok) =
          ((s.tables.orders, ledger, entry, inl refl, same), ok)
      with_sum settled ledger entry (inr (covers, end), ok) =
          ((_, ledger, entry, inr (settled, covers, refl), end), ok)
