-- ===== src/Services/Refund/SyncWalk.antt =====
-- The walk through `syncRefundStatusFromWechat`, for every predicate that its writes keep.

use drogon_pay.Common.{◌≡◌, refl, inl, inr, Option, none, some, arith, Bytes, codes, bytes_eq}
use drogon_pay.Common.Int.{ℤ}
use drogon_pay.Models.Status.{RefundStatus, refunded}
use drogon_pay.Models.Tables.{
  OrderRow, RefundRow, Db, Fault, Reply, update_where, find_one, Reply-cases, answered, exception,
  no_mapper,
}
use drogon_pay.Utils.Status.{map_refund_status}
use drogon_pay.Services.Refund.Settle.{is_paid_order}
use drogon_pay.Services.Refund.Ledger.{insert_ledger_entry}
use drogon_pay.Services.Refund.Sync.{
  RefundResult, SyncEnv, is_refund_no, sync_refunds, sync_order, sync_settled, sync_transaction,
  end_sync, sync_row, sync_mapped, sync_refund_status_from_wechat,
}

module _ (env : SyncEnv) (P : Db → Type 0)
    (books : (lookup insert : Fault) (user_id : ℤ) (order_no payment_no amount : Bytes) (db : Db)
      → P db
      → P (record db {
        ledger =
            insert_ledger_entry lookup insert user_id order_no payment_no
              (codes "REFUND")
              amount
              db.ledger;
      }))
    (refunds_order : (order_no : Bytes) (db : Db)
      → P db
      → P (record db {
        orders =
            update_where
              (is_paid_order order_no)
              (λ row. record row { status = refunded })
              db.orders;
      })) where
  end_sync-keeps :
      (refund_status : RefundStatus) (before : Db) (after : Option Db)
      → P before
      → ((db : Db) → after ≡ some db → P db)
      → P (end_sync env refund_status before after).0
  unfolding end_sync
  end_sync-keeps refund_status before none v w = v
  end_sync-keeps refund_status before (some db) v w = ground (arith, w db refl)

  sync_order-keeps :
      (order : OrderRow) (db after : Db) → P db → sync_order env order db ≡ some after → P after
  unfolding sync_order
  sync_order-keeps order db after v e = ground (arith, refunds_order order.order_no db v, v, e)

  sync_settled-keeps :
      (refund : RefundRow) (db after : Db)
      → P db
      → sync_settled env refund db ≡ some after
      → P after
  unfolding sync_settled
  sync_settled-keeps refund db after v e =
      elim (Reply-cases (
        find_one env.find_order_fault (λ (row : OrderRow). bytes_eq row.order_no refund.order_no)
          db.orders)) [
            | inr (what, none_found) ↦ absurd (ground arith)
            | inl (order, found) ↦
                sync_order-keeps order
                  (record db {
                    ledger =
                        insert_ledger_entry env.lookup_ledger_fault env.insert_ledger_fault
                          order.user_id refund.order_no refund.payment_no (codes "REFUND")
                          refund.amount db.ledger;
                  })
                  after (books _ _ _ _ _ _ db v) (rw (sync_settled, found) at e)
          ]

  sync_transaction-keeps :
      (refund : RefundRow) (refund_status : RefundStatus) (refund_id : Bytes) (db after : Db)
      → P (record db { refunds = sync_refunds refund.refund_no refund_status refund_id db.refunds })
      → sync_transaction env refund refund_status refund_id db ≡ some after
      → P after
  unfolding sync_transaction
  sync_transaction-keeps refund refund_status refund_id db after v e = ground (
    arith,
    sync_settled-keeps refund
        (record db { refunds = sync_refunds refund.refund_no refund_status refund_id db.refunds })
        after v,
    v,
    e,
  )

  sync_row-keeps :
      (refund_status : RefundStatus) (refund_id : Bytes) (db : Db) (row : Reply RefundRow)
      → P db
      → P (env.between db)
      → ((refund : RefundRow)
          → row ≡ answered refund
          → P (record (env.between db) {
            refunds =
                sync_refunds refund.refund_no refund_status refund_id (env.between db).refunds;
          }))
      → P (sync_row env refund_status refund_id db row).0
  unfolding sync_row
  sync_row-keeps refund_status refund_id db (exception what) v w written = v
  sync_row-keeps refund_status refund_id db (no_mapper what) v w written = v
  sync_row-keeps refund_status refund_id db (answered refund) v w written = ground (
    arith,
    v,
    end_sync-keeps refund_status (env.between db)
        (sync_transaction env refund refund_status refund_id (env.between db)) w
        (λ after.
          sync_transaction-keeps refund refund_status refund_id (env.between db) after
            (written refund refl)),
  )

  pub sync_refund_status_from_wechat-keeps :
      (refund_no : Bytes) (result : RefundResult) (db : Db)
      → P db
      → P (env.between db)
      → ((refund : RefundRow) (refund_status : RefundStatus) (refund_id : Bytes)
          → find_one env.find_refund_fault (is_refund_no refund_no) db.refunds ≡ answered refund
          → P (record (env.between db) {
            refunds =
                sync_refunds refund.refund_no refund_status refund_id (env.between db).refunds;
          }))
      → P (sync_refund_status_from_wechat env refund_no result db).0
  unfolding sync_refund_status_from_wechat
  sync_refund_status_from_wechat-keeps refund_no result db v w written =
      on_mapped (map_refund_status result.status)
    where
      on_mapped :
          (mapped : Option RefundStatus)
          → P (sync_mapped env refund_no mapped result.refund_id db).0
      on_mapped none = unfold sync_mapped in v
      on_mapped (some refund_status) =
          unfold sync_mapped in
          sync_row-keeps refund_status result.refund_id db
            (find_one env.find_refund_fault (is_refund_no refund_no) db.refunds) v w
            (λ refund found. written refund refund_status result.refund_id found)
