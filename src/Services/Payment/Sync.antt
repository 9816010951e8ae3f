-- ===== src/Services/Payment/Sync.antt =====
-- The transaction of `syncOrderStatusFromWechat` and `syncOrderStatusFromAlipay`, which differ in what
-- they make of the order. It is one step for the other writers; they may run between the read of the
-- attempt and it.
use drogon_pay.Common.{
  Bool, true, false, not, ◌&&◌, Option, none, some, List, if◌then◌else◌, Bytes, codes, any,
}
use drogon_pay.Common.Int.{ℤ, leb_ℤ, eq_ℤ, pos}
use drogon_pay.Models.Status.{
  OrderStatus, PaymentStatus, is_paid, is_success, holds_money, refunded,
}
use drogon_pay.Models.Tables.{
  OrderRow, PaymentRow, Db, Fault, Reply, select, update_where, find_one, latest, succeeds, raises,
  mapper_fails, answered, exception, no_mapper,
}
use drogon_pay.Utils.Amount.{parse_amount_to_fen}
use drogon_pay.Services.Refund.Ledger.{insert_ledger_entry}
use drogon_pay.Services.Callback.Trade.{is_attempt, is_open_payment, is_order, takes_money}

pub record PaymentSyncEnv : Type 0 where
  pub numeric_sum : List Bytes → Bytes
  pub find_attempt_fault : Fault
  pub sum_fault : Fault
  pub find_order_fault : Fault
  pub update_payment_fault : Fault
  pub update_order_fault : Fault
  pub lookup_ledger_fault : Fault
  pub insert_ledger_fault : Fault
  -- whether the COMMIT at the end of the transaction is applied: the caller is told before it
  pub commit_applied : Bool
  -- the other writers, behind the read of the attempt
  pub between : Db → Db

-- What the channel says of an order, and the amount that it says it collected.
pub record Claim : Type 0 where
  pub order_status : OrderStatus
  pub payment_status : PaymentStatus
  pub transaction_id : Bytes
  pub answer_fen : ℤ

pub data AmountProblem : Type 0 where
  unusable_amount no_amount wrong_amount : AmountProblem

-- `reconcileAmountProblem`; the text of the problem is logged only.
unfoldable pub reconcile_amount_problem : ℤ → Bytes → Option AmountProblem
reconcile_amount_problem answer_fen payment_amount = elim (parse_amount_to_fen payment_amount) [
  | none ↦ some unusable_amount
  | some payment_total_fen ↦
      if leb_ℤ answer_fen (pos 0)
      then some no_amount
      else if not (eq_ℤ answer_fen (pos payment_total_fen))
      then some wrong_amount
      else none
]

-- What a channel makes of an order: what the caller is told of one that reads PAID, and what is written
-- to another one (`none` rolls back).
pub record Verdict : Type 0 where
  pub told : OrderRow → OrderStatus
  pub to_write : OrderRow → Option OrderStatus

-- The tables that the transaction keeps, where it is not rolled back, and what the caller is told; the
-- empty text is `none`.
pub record SyncEnd : Type 0 where
  pub kept : Option Db
  pub told : Option OrderStatus

abbrev pub undone : Option OrderStatus → SyncEnd
undone told = record { kept = none; told = told }

module _ (env : PaymentSyncEnv) where
  -- The order, and the entry of the payment where the order holds money then.
  unfoldable pub write_synced_order : Bytes → OrderRow → OrderStatus → Db → SyncEnd
  write_synced_order payment_no order order_status db = elim env.update_order_fault [
    | raises what ↦ undone none
    | mapper_fails what ↦ undone none
    | succeeds ↦ record {
      kept = some (record db {
        orders =
            update_where (is_order order.order_no) (λ row. record row { status = order_status })
              db.orders;
        ledger =
            if takes_money order_status
            then insert_ledger_entry env.lookup_ledger_fault env.insert_ledger_fault order.user_id
                order.order_no payment_no (codes "PAYMENT") order.amount db.ledger
            else db.ledger;
      });
      told = some order_status;
    }
  ]

  unfoldable pub judge_order : Bytes → Verdict → OrderRow → Db → SyncEnd
  judge_order payment_no verdict order db =
      if is_paid order.status
      then record { kept = some db; told = some (verdict.told order) }
      else elim (verdict.to_write order) [
        | none ↦ undone none
        | some order_status ↦ write_synced_order payment_no order order_status db
      ]

  unfoldable pub on_synced_order : Bytes → Verdict → Reply OrderRow → Db → SyncEnd
  on_synced_order payment_no verdict (exception what) db = undone none
  on_synced_order payment_no verdict (no_mapper what) db = undone none
  on_synced_order payment_no verdict (answered order) db = judge_order payment_no verdict order db

  unfoldable pub find_synced_order : Bytes → Bytes → Verdict → Db → SyncEnd
  find_synced_order order_no payment_no verdict db =
      on_synced_order payment_no verdict
        (find_one env.find_order_fault (is_order order_no) db.orders) db

  abbrev pub synced_row : Claim → PaymentRow → PaymentRow
  synced_row claim row = record row {
    status = claim.payment_status;
    channel_trade_no = claim.transaction_id;
  }

  -- The row of the payment, if it is still open.
  unfoldable pub advance_synced_payment : Bytes → Claim → Bytes → Verdict → Db → SyncEnd
  advance_synced_payment order_no claim payment_no verdict db = elim env.update_payment_fault [
    | raises what ↦ undone none
    | mapper_fails what ↦ undone none
    | succeeds ↦
        if not (any (is_open_payment payment_no) db.payments)
        then undone (some claim.order_status)
        else find_synced_order order_no payment_no verdict (record db {
          payments = update_where (is_open_payment payment_no) (synced_row claim) db.payments;
        })
  ]

  -- The status that the attempt had when it was read.
  unfoldable pub sync_attempt : Bytes → Claim → PaymentRow → Option Verdict → Db → SyncEnd
  sync_attempt order_no claim payment none db =
      if holds_money payment.status && not (is_success payment.status)
      then undone (some refunded)
      else undone none
  sync_attempt order_no claim payment (some verdict) db =
      if is_success payment.status
      then find_synced_order order_no payment.payment_no verdict db
      else if holds_money payment.status
      then undone (some refunded)
      else advance_synced_payment order_no claim payment.payment_no verdict db

  unfoldable pub end_payment_sync : Db → SyncEnd → Db × Option OrderStatus
  end_payment_sync before outcome = elim outcome.kept [
    | none ↦ (before, outcome.told)
    | some after ↦ (if env.commit_applied then after else before, outcome.told)
  ]

  -- The attempt that the claim is matched against, and its amount where the claim is of money. A verdict
  -- that is missing is a statement that aborted the transaction before the order is read.
  unfoldable pub on_synced_attempt :
      Bytes → Claim → (Db → Option Verdict) → Option PaymentRow → Db → Db × Option OrderStatus
  on_synced_attempt order_no claim verdict none db = (db, some claim.order_status)
  on_synced_attempt order_no claim verdict (some payment) db =
      if takes_money claim.order_status
        && (elim (reconcile_amount_problem claim.answer_fen payment.amount) [
          | none ↦ false
          | some problem ↦ true
        ])
      then (db, none)
      else end_payment_sync (env.between db)
          (sync_attempt order_no claim payment (verdict (env.between db)) (env.between db))

  unfoldable pub sync_claim : Bytes → Claim → (Db → Option Verdict) → Db → Db × Option OrderStatus
  sync_claim order_no claim verdict db = elim env.find_attempt_fault [
    | raises what ↦ (db, none)
    | mapper_fails what ↦ (db, none)
    | succeeds ↦
        on_synced_attempt order_no claim verdict
          (latest (λ (row : PaymentRow). row.created_at) (select (is_attempt order_no) db.payments))
          db
  ]
