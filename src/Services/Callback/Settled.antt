-- ===== src/Services/Callback/Settled.antt =====
-- About the transaction of a payment notification: what it commits.

use drogon_pay.Common.{
  ℕ, ◌≡◌, refl, ◌⊎◌, inl, inr, true, false, Option, none, some, List, ◌∷◌, arith, Bool-cases, Bytes,
  any, bytes_eq, is_empty,
}
use drogon_pay.Common.Int.{leb_ℤ, pos}
use drogon_pay.Models.Status.{OrderStatus, holds_money}
use drogon_pay.Models.Members.{Among}
use drogon_pay.Models.Tables.{
  OrderRow, PaymentRow, LedgerRow, Db, update_where, Fault-cases, succeeds, raises, mapper_fails,
}
use drogon_pay.Utils.Amount.{parse_amount_to_fen}
use drogon_pay.Utils.Status.{map_trade_state}
use drogon_pay.Services.Callback.Types.{
  Delivery, Trade, Store, Answer, answer_ok, Env, callback_row, insert_record, update_order,
  insert_ledger, commit,
}
use drogon_pay.Services.Callback.Reserve.{
  Finalized, finalized, lost, finalize_error, finalize_throws,
}
use drogon_pay.Services.Callback.Trade.{
  Accepted, is_attempt, is_open_payment, is_order, is_income, income_row, exceeds_total,
  trade_problem, takes_money,
}
use drogon_pay.Services.Callback.Payment.{
  Booked, insert_income, resolve_status, commit_finalized, finish_income, finalize_after,
  finish_without_income, write_order, advance_payment, write_payment, committed, booked, not_sent,
  aborted,
}

abbrev pub advanced_row : Accepted → PaymentRow → PaymentRow
advanced_row accepted row = record row {
  status = (map_trade_state accepted.trade.trade_state).payment_status;
  channel_trade_no = accepted.trade.transaction_id;
}

-- What the channel reads behind a commit: SUCCESS, or a failure where the COMMIT was answered with an
-- exception and applied all the same.
abbrev pub Told : Env → Answer → Type 0
Told env answer =
    (answer ≡ answer_ok)
    ⊎ (((what : Bytes) × (env.faults commit ≡ raises what)) × (env.commit_applied ≡ true))

-- The tables behind a commit.
abbrev pub settled_tables :
    Accepted → PaymentRow → OrderRow → OrderStatus → List LedgerRow → Db → Db
settled_tables accepted payment order order_status ledger db = record {
  orders =
      update_where (is_order order.order_no) (λ row. record row { status = order_status })
        db.orders;
  payments = update_where (is_open_payment payment.payment_no) (advanced_row accepted) db.payments;
  refunds = db.refunds;
  ledger = ledger;
}

-- What becomes of the ledger: one entry more where the order holds money then, and the payment had none;
-- an entry that the Mapper could not send is missing.
abbrev pub IsBooked :
    Env → Accepted → PaymentRow → OrderRow → OrderStatus → List LedgerRow → List LedgerRow → Type 0
IsBooked env accepted payment order order_status before after =
    ((takes_money order_status ≡ true)
      × (any (is_income payment.payment_no) before ≡ false)
      × (env.faults insert_ledger ≡ succeeds)
      × (after ≡ income_row order accepted.trade.out_trade_no payment.payment_no ∷ before))
    ⊎ ((takes_money order_status ≡ true)
        × ((what : Bytes) × (env.faults insert_ledger ≡ mapper_fails what))
        × (after ≡ before))
    ⊎ ((takes_money order_status ≡ false) × (after ≡ before))

-- The attempt and the order agree with the transaction.
pub record Agrees (trade : Trade) (payment : PaymentRow) (order : OrderRow) : Type 0 where
  pub amount_fen : ℕ
  pub amount : parse_amount_to_fen payment.amount ≡ some amount_fen
  pub positive : leb_ℤ trade.total (pos 0) ≡ false
  pub total : trade.total ≡ pos amount_fen
  pub currency : (is_empty trade.currency ≡ true) ⊎ (bytes_eq trade.currency order.currency ≡ true)
  pub payer : exceeds_total trade.payer_total trade.total ≡ false
  pub transaction :
      (is_empty payment.channel_trade_no ≡ true)
      ⊎ (is_empty trade.transaction_id ≡ true)
      ⊎ (bytes_eq payment.channel_trade_no trade.transaction_id ≡ true)

-- One settlement: the payment and the order are rows of the tables that were read, and the writes are
-- on the tables of the transaction.
pub record Settles (env : Env) (delivery : Delivery) (accepted : Accepted) (read before after : Db)
    : Type 0 where
  pub payment : PaymentRow
  pub order : OrderRow
  pub order_status : OrderStatus
  pub ledger : List LedgerRow
  pub its_payment : Among payment read.payments
  pub order_row : Among order read.orders
  pub attempt : is_attempt accepted.trade.out_trade_no payment ≡ true
  pub no_money : holds_money payment.status ≡ false
  pub resolved : resolve_status env delivery accepted order before ≡ some order_status
  pub its_order : is_order payment.order_no order ≡ true
  pub agrees : Agrees accepted.trade payment order
  pub open_row : any (is_open_payment payment.payment_no) before.payments ≡ true
  pub entry : IsBooked env accepted payment order order_status before.ledger ledger
  pub result : after ≡ settled_tables accepted payment order order_status ledger before

pub trade_problem-Agrees :
    (trade : Trade) (payment : PaymentRow) (order : OrderRow)
    → trade_problem trade payment order ≡ none
    → Agrees trade payment order
unfolding trade_problem
trade_problem-Agrees trade payment order e = ground (arith, e)

module _ (env : Env) (delivery : Delivery) (accepted : Accepted) where
  commit_finalized-committed :
      (f : Finalized) (s after : Store) (answer : Answer)
      → commit_finalized env delivery f s ≡ committed after answer
      → (after.tables ≡ s.tables) × Told env answer
  unfolding commit_finalized
  commit_finalized-committed (finalized rows) s after answer e =
      elim (Fault-cases (env.faults commit)) [
        | inl sent ↦ (ground (arith, e, sent), inl (ground (arith, e, sent)))
        | inr (what, inr unsent) ↦ absurd (ground (arith, e, unsent))
        | inr (what, inl raised) ↦ elim (Bool-cases env.commit_applied) [
          | inl applied ↦ (ground (arith, e, raised, applied), inr ((what, raised), applied))
          | inr dropped ↦ absurd (ground (arith, e, raised, dropped))
        ]
      ]
  commit_finalized-committed lost s after answer e = absurd (ground (arith, e))
  commit_finalized-committed (finalize_error what) s after answer e = absurd (ground (arith, e))
  commit_finalized-committed (finalize_throws what) s after answer e = absurd (ground (arith, e))

  finish_without_income-committed :
      (s after : Store) (answer : Answer)
      → finish_without_income env delivery accepted s ≡ committed after answer
      → (after.tables ≡ s.tables) × Told env answer
  unfolding finish_without_income finalize_after
  finish_without_income-committed s after answer e = elim (Fault-cases (env.faults commit)) [
    | inl sent ↦ (ground (arith, e, sent), inl (ground (arith, e, sent)))
    | inr (what, inr unsent) ↦ absurd (ground (arith, e, unsent))
    | inr (what, inl raised) ↦ elim (Bool-cases env.commit_applied) [
      | inl applied ↦ (ground (arith, e, raised, applied), inr ((what, raised), applied))
      | inr dropped ↦ absurd (ground (arith, e, raised, dropped))
    ]
  ]

  finish_income-committed :
      (s after : Store) (b : Booked) (answer : Answer)
      → finish_income env delivery accepted s b ≡ committed after answer
      → (((ledger : List LedgerRow) × (b ≡ booked ledger)
            × (after.tables ≡ record s.tables { ledger = ledger }))
          ⊎ ((b ≡ not_sent) × (after.tables ≡ s.tables)))
        × Told env answer
  unfolding finish_income
  finish_income-committed s after aborted answer e = ground (arith, e)
  finish_income-committed s after not_sent answer e =
      ground (arith, commit_finalized-committed _ s after answer e)
  finish_income-committed s after (booked ledger) answer e = ground (
    arith,
    commit_finalized-committed _ (record s { tables = record s.tables { ledger = ledger } }) after
        answer e,
  )

  abbrev Inserted : OrderRow → PaymentRow → List LedgerRow → Booked → Type 0
  Inserted order payment ledger b =
      (b ≡ aborted)
      ⊎ ((b ≡ not_sent) × ((what : Bytes) × (env.faults insert_ledger ≡ mapper_fails what)))
      ⊎ ((b ≡ booked (income_row order accepted.trade.out_trade_no payment.payment_no ∷ ledger))
          × (any (is_income payment.payment_no) ledger ≡ false)
          × (env.faults insert_ledger ≡ succeeds))

  insert_income-cases :
      (order : OrderRow) (payment : PaymentRow) (ledger : List LedgerRow) (b : Booked)
      → insert_income
          (env.faults insert_ledger)
          order
          accepted.trade.out_trade_no
          payment.payment_no
          ledger
        ≡ b
      → Inserted order payment ledger b
  unfolding insert_income
  insert_income-cases order payment ledger b e = ground (arith, e)

  with_income :
      (order : OrderRow) (payment : PaymentRow) (order_status : OrderStatus) (s after : Store)
      (answer : Answer) (b : Booked)
      → takes_money order_status ≡ true
      → Inserted order payment s.tables.ledger b
      → (((ledger : List LedgerRow) × (b ≡ booked ledger)
            × (after.tables ≡ record s.tables { ledger = ledger }))
          ⊎ ((b ≡ not_sent) × (after.tables ≡ s.tables)))
        × Told env answer
      → ((ledger : List LedgerRow) × IsBooked env accepted payment order order_status
            s.tables.ledger ledger
          × (after.tables ≡ record s.tables { ledger = ledger }))
        × Told env answer
  with_income order payment order_status s after answer b taken (inl gone) (inl end, ok) =
      absurd (ground arith)
  with_income order payment order_status s after answer b taken (inl gone) (inr end, ok) =
      absurd (ground arith)
  with_income order payment order_status s after answer b taken (inr (inl (gone, what)))
        (inl end, ok) =
      absurd (ground arith)
  with_income order payment order_status s after answer b taken (inr (inl (gone, what)))
        (inr end, ok) =
      ((s.tables.ledger, inr (inl (taken, what, refl)), ground arith), ok)
  with_income order payment order_status s after answer b taken (inr (inr (there, none_yet, sent)))
        (inl (ledger, same, end), ok) =
      ((ledger, inl (taken, none_yet, sent, ground arith), end), ok)
  with_income order payment order_status s after answer b taken (inr (inr (there, none_yet, sent)))
        (inr end, ok) =
      absurd (ground arith)

  write_order-committed :
      (payment : PaymentRow) (order : OrderRow) (order_status : OrderStatus) (s after : Store)
      (answer : Answer)
      → write_order env delivery accepted payment order order_status s ≡ committed after answer
      → ((ledger : List LedgerRow) × IsBooked env accepted payment order order_status
            s.tables.ledger ledger
          × (after.tables ≡ record s.tables {
            orders =
                update_where
                  (is_order order.order_no)
                  (λ row. record row { status = order_status })
                  s.tables.orders;
            ledger = ledger;
          }))
        × Told env answer
  unfolding write_order
  write_order-committed payment order order_status s after answer e =
      elim (Fault-cases (env.faults update_order)) [
        | inr (what, broken) ↦ absurd (ground (arith, e))
        | inl sent ↦ elim (Bool-cases (takes_money order_status)) [
          | inr free ↦
              let ended =
                finish_without_income-committed written after answer (ground (arith, e)) in
              ((s.tables.ledger, inr (inr (free, refl)), ended.0), ended.1)
          | inl taken ↦
              with_income order payment order_status written after answer _ taken
                (insert_income-cases order payment s.tables.ledger _ refl)
                (finish_income-committed written after
                  (insert_income (env.faults insert_ledger) order accepted.trade.out_trade_no
                    payment.payment_no s.tables.ledger)
                  answer (ground (arith, e)))
        ]
      ]
    where
      written : Store
      written = record s {
        tables = record s.tables {
          orders =
              update_where (is_order order.order_no) (λ row. record row { status = order_status })
                s.tables.orders;
        };
      }

  advance_payment-committed :
      (payment : PaymentRow) (order : OrderRow) (order_status : OrderStatus) (s after : Store)
      (answer : Answer)
      → advance_payment env delivery accepted payment order order_status s ≡ committed after answer
      → ((ledger : List LedgerRow) × IsBooked env accepted payment order order_status
            s.tables.ledger ledger
          × (after.tables ≡ settled_tables accepted payment order order_status ledger s.tables))
        × (any (is_open_payment payment.payment_no) s.tables.payments ≡ true)
        × Told env answer
  unfolding advance_payment
  advance_payment-committed payment order order_status s after answer e = ground (
    arith,
    e,
    write_order-committed payment order order_status
        (record s {
          tables = record s.tables {
            payments =
                update_where (is_open_payment payment.payment_no) (advanced_row accepted)
                  s.tables.payments;
          };
        })
        after answer,
  )

  pub write_payment-committed :
      (payment : PaymentRow) (order : OrderRow) (resolved : Option OrderStatus) (s after : Store)
      (answer : Answer)
      → write_payment env delivery accepted payment order resolved s ≡ committed after answer
      → ((order_status : OrderStatus) × (ledger : List LedgerRow) × (resolved ≡ some order_status)
          × IsBooked env accepted payment order order_status s.tables.ledger ledger
          × (after.tables ≡ settled_tables accepted payment order order_status ledger s.tables))
        × (any (is_open_payment payment.payment_no) s.tables.payments ≡ true)
        × Told env answer
  unfolding write_payment
  write_payment-committed payment order none s after answer e = ground (arith, e)
  write_payment-committed payment order (some order_status) s after answer e =
      elim (Fault-cases (env.faults insert_record)) [
        | inr (what, broken) ↦ absurd (ground (arith, e))
        | inl sent ↦
            let ended =
              advance_payment-committed payment order order_status
                (record s { callbacks = callback_row delivery payment.payment_no ∷ s.callbacks })
                after answer (ground (arith, e)) in
            ((order_status, ended.0.0, refl, ended.0.1, ended.0.2), ended.1, ended.2)
      ]
