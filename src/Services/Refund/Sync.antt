-- ===== src/Services/Refund/Sync.antt =====
-- `queryRefund` and `syncRefundStatusFromWechat`: what the channel says later about a refund. The
-- transaction is one step for the other writers; they may run between the read of the row and it.
use drogon_pay.Services.Refund.Types.{Response, failure, db_error}
use drogon_pay.Common.{
  ℕ, String, Bool, not, Option, none, some, List, [], ◌++◌, if◌then◌else◌, Bytes, codes, bytes_eq,
}
use drogon_pay.Common.Int.{pos}
use drogon_pay.Models.Status.{RefundStatus, is_paid, is_refund_success, refunded}
use drogon_pay.Models.Tables.{
  OrderRow, RefundRow, Db, Fault, Reply, update_where, find_one, succeeds, raises, mapper_fails,
  answered, exception, no_mapper,
}
use drogon_pay.Utils.Amount.{parse_amount_to_fen}
use drogon_pay.Utils.Status.{map_refund_status, refunds_cover_order_amount}
use drogon_pay.Services.Refund.Settle.{is_paid_order, settled_amounts}
use drogon_pay.Services.Refund.Ledger.{insert_ledger_entry}

-- The members that the service reads of the channel's answer.
pub record RefundResult : Type 0 where
  pub status : String
  pub refund_id : Bytes

pub record SyncEnv : Type 0 where
  pub numeric_sum : List Bytes → Bytes
  pub find_refund_fault : Fault
  pub update_refund_fault : Fault
  pub payload_fault : Fault
  pub find_order_fault : Fault
  pub lookup_ledger_fault : Fault
  pub insert_ledger_fault : Fault
  pub sum_fault : Fault
  pub update_order_fault : Fault
  -- whether the COMMIT at the end of the transaction is applied: the caller is told before it
  pub commit_applied : Bool
  -- the other writers, behind the read of the row
  pub between : Db → Db
  -- `queryRefund`: its lookup, the channel's query (`none` is an error) and the writers meanwhile
  pub query_fault : Fault
  pub query : Option (Bytes → Option RefundResult)
  pub during_query : Db → Db

abbrev pub is_refund_no : Bytes → RefundRow → Bool
is_refund_no refund_no row = bytes_eq row.refund_no refund_no

-- `refundUpdater.update`: by the primary key, whatever the status of the row has become.
abbrev pub sync_refunds : Bytes → RefundStatus → Bytes → List RefundRow → List RefundRow
sync_refunds refund_no refund_status refund_id =
    update_where (is_refund_no refund_no)
      (λ row. record row { status = refund_status; channel_refund_no = some refund_id })

-- An amount or a sum that cannot be read counts as 0.
abbrev pub fen_or_zero : Bytes → ℕ
fen_or_zero amount = elim (parse_amount_to_fen amount) [ none ↦ 0 | some n ↦ n ]

module _ (env : SyncEnv) where
  -- The order's step, behind the ledger entry: what is left to write, or `none` where the transaction
  -- is rolled back and the caller hears nothing.
  unfoldable pub sync_order : OrderRow → Db → Option Db
  sync_order order db = if not (is_paid order.status) then some db else elim env.sum_fault [
    | raises what ↦ none
    | mapper_fails what ↦ none
    | succeeds ↦
        if not (
          refunds_cover_order_amount
            (pos (fen_or_zero (env.numeric_sum (settled_amounts order.order_no db.refunds))))
            (pos (fen_or_zero order.amount)))
        then some db
        else elim env.update_order_fault [
          | raises what ↦ none
          | mapper_fails what ↦ none
          | succeeds ↦ some (record db {
            orders =
                update_where (is_paid_order order.order_no)
                  (λ row. record row { status = refunded }) db.orders;
          })
        ]
  ]

  -- The steps behind the write of the row, for a refund that is settled.
  unfoldable pub sync_settled : RefundRow → Db → Option Db
  sync_settled refund db =
      elim (find_one env.find_order_fault
        (λ (row : OrderRow). bytes_eq row.order_no refund.order_no) db.orders) [
          | exception what ↦ none
          | no_mapper what ↦ none
          | answered order ↦ sync_order order (record db {
            ledger =
                insert_ledger_entry env.lookup_ledger_fault env.insert_ledger_fault order.user_id
                  refund.order_no refund.payment_no (codes "REFUND") refund.amount db.ledger;
          })
        ]

  -- The transaction: `none` is a rollback.
  unfoldable pub sync_transaction : RefundRow → RefundStatus → Bytes → Db → Option Db
  sync_transaction refund refund_status refund_id db =
      let written : Db = record db {
        refunds = sync_refunds refund.refund_no refund_status refund_id db.refunds;
      } in
      elim env.update_refund_fault [
        | raises what ↦ none
        | mapper_fails what ↦ none
        | succeeds ↦ elim env.payload_fault [
          | raises what ↦ none
          | mapper_fails what ↦ none
          | succeeds ↦
              if is_refund_success refund_status then sync_settled refund written else some written
        ]
      ]

  -- What the caller is told behind the transaction.
  unfoldable pub end_sync : RefundStatus → Db → Option Db → Db × Option RefundStatus
  end_sync refund_status before none = (before, none)
  end_sync refund_status before (some after) =
      (if env.commit_applied then after else before, some refund_status)

  -- The row that the lookup answers.
  unfoldable pub sync_row : RefundStatus → Bytes → Db → Reply RefundRow → Db × Option RefundStatus
  sync_row refund_status refund_id db (exception what) = (db, none)
  sync_row refund_status refund_id db (no_mapper what) = (db, none)
  sync_row refund_status refund_id db (answered refund) =
      if is_refund_success refund.status
      then (db, some refund_status)
      else end_sync refund_status (env.between db)
          (sync_transaction refund refund_status refund_id (env.between db))

  -- The mapped status; the empty text is `none`.
  unfoldable pub sync_mapped : Bytes → Option RefundStatus → Bytes → Db → Db × Option RefundStatus
  sync_mapped refund_no none refund_id db = (db, none)
  sync_mapped refund_no (some refund_status) refund_id db =
      sync_row refund_status refund_id db
        (find_one env.find_refund_fault (is_refund_no refund_no) db.refunds)

  unfoldable pub sync_refund_status_from_wechat :
      Bytes → RefundResult → Db → Db × Option RefundStatus
  sync_refund_status_from_wechat refund_no result db =
      sync_mapped refund_no (map_refund_status result.status) result.refund_id db

  -- The answer of a query: the row, with the status that the channel reports where there is one.
  abbrev pub queried : RefundRow → Option RefundStatus → Response
  queried refund reported = record {
    code = 0;
    message = codes "Query refund successful";
    body = some (record {
      refund_no = refund.refund_no;
      order_no = refund.order_no;
      payment_no = refund.payment_no;
      amount = refund.amount;
      status = elim reported [ none ↦ refund.status | some s ↦ s ];
      channel_refund_no = some (elim refund.channel_refund_no [ none ↦ [] | some id ↦ id ]);
      error = none;
    });
  }

  unfoldable pub on_query_reply : Bytes → RefundRow → Option RefundResult → Db → Db × Response
  on_query_reply refund_no refund none db = (db, queried refund none)
  on_query_reply refund_no refund (some result) db =
      let synced : Db × Option RefundStatus = sync_refund_status_from_wechat refund_no result db in
      (synced.0, queried refund synced.1)

  unfoldable pub query_refund : Bytes → Db → Db × Response
  query_refund refund_no db = elim (find_one env.query_fault (is_refund_no refund_no) db.refunds) [
    | exception what ↦ (db, failure 1404 (codes "Refund not found: " ++ what))
    | no_mapper what ↦ (db, db_error what)
    | answered refund ↦ elim env.query [
      | none ↦ (db, queried refund none)
      | some ask ↦ on_query_reply refund_no refund (ask refund_no) (env.during_query db)
    ]
  ]
