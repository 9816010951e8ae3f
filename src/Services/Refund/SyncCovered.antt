-- ===== src/Services/Refund/SyncCovered.antt =====
-- About `syncRefundStatusFromWechat` and the sum of the refunds of an order.

use drogon_pay.Common.Find.{bytes_eq_iff}
use drogon_pay.Common.{
  ℕ, ◌≡◌, true, false, some, List, [], ◌∷◌, arith, if◌then◌else◌, Bytes, bytes_eq,
}
use drogon_pay.Models.Status.{RefundStatus, is_refund_fail}
use drogon_pay.Models.Tables.{RefundRow, Db, Fault, find_one, find_one-holds, answered}
use drogon_pay.Services.Refund.Covered.{IsCovered, IsCovered-cons}
use drogon_pay.Services.Refund.Sync.{
  RefundResult, SyncEnv, is_refund_no, sync_refunds, sync_refund_status_from_wechat,
}
use drogon_pay.Services.Refund.SyncWalk.{sync_refund_status_from_wechat-keeps}

-- No row of the refund is REFUND_FAIL.
abbrev pub NotFailed : Bytes → List RefundRow → Type 0
NotFailed refund_no [] = Unit {0}
NotFailed refund_no (row ∷ rows) =
    (bytes_eq row.refund_no refund_no ≡ true → is_refund_fail row.status ≡ false)
    × NotFailed refund_no rows

sync_refunds-IsCovered :
    (order_no refund_no : Bytes) (refund_status : RefundStatus) (refund_id : Bytes)
    (refunds : List RefundRow) (b : ℕ)
    → NotFailed refund_no refunds
    → IsCovered order_no b refunds
    → IsCovered order_no b (sync_refunds refund_no refund_status refund_id refunds)
sync_refunds-IsCovered order_no refund_no refund_status refund_id [] b counts h = h
sync_refunds-IsCovered order_no refund_no refund_status refund_id (row ∷ rest) b counts h =
    IsCovered-cons order_no row
      (if is_refund_no refund_no row
        then record row { status = refund_status; channel_refund_no = some refund_id }
        else row)
      rest (sync_refunds refund_no refund_status refund_id rest) b (ground arith)
      (ground (arith, counts.0))
      (λ c. sync_refunds-IsCovered order_no refund_no refund_status refund_id rest c counts.1) h

found_no :
    (fault : Fault) (refund_no : Bytes) (refunds : List RefundRow) (refund : RefundRow)
    → find_one fault (is_refund_no refund_no) refunds ≡ answered refund
    → refund.refund_no ≡ refund_no
found_no fault refund_no refunds refund e =
    (bytes_eq_iff refund.refund_no refund_no).0
      (find_one-holds fault (is_refund_no refund_no) refunds refund e)

-- Whatever the channel answers for a refund and whatever the database does, `syncRefundStatusFromWechat`
-- keeps the refunds of an order that are not REFUND_FAIL within `total`, if the other writers do and
-- no row of the refund is REFUND_FAIL when the transaction starts.
pub sync_refund_status_from_wechat-IsCovered :
    (env : SyncEnv) (order_no : Bytes) (total : ℕ) (refund_no : Bytes) (result : RefundResult)
    (db : Db)
    → NotFailed refund_no (env.between db).refunds
    → IsCovered order_no total (env.between db).refunds
    → IsCovered order_no total db.refunds
    → IsCovered order_no total (sync_refund_status_from_wechat env refund_no result db).0.refunds
sync_refund_status_from_wechat-IsCovered env order_no total refund_no result db counts w v =
    sync_refund_status_from_wechat-keeps env (λ other. IsCovered order_no total other.refunds)
      (λ lookup insert user_id order payment amount other h. h) (λ order other h. h) refund_no
      result db v w
      (λ refund refund_status refund_id found.
        rw (found_no env.find_refund_fault refund_no db.refunds refund found) (
          sync_refunds-IsCovered order_no refund_no refund_status refund_id (env.between db).refunds
            total counts w))
