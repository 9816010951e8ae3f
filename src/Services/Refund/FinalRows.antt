-- ===== src/Services/Refund/FinalRows.antt =====
-- About the guards of `updateRefundWithError` and `updateRefundWithSuccess`: settled rows.
use drogon_pay.Common.{◌≡◌, ◌⊎◌, inl, inr, false, List, [], ◌∷◌, arith, Bytes}
use drogon_pay.Models.Status.{is_unsettled}
use drogon_pay.Models.Tables.{RefundRow, Db, update_where}
use drogon_pay.Services.Refund.Types.{CreateRefundRequest, Point, Env}
use drogon_pay.Services.Refund.Settle.{is_unsettled_refund}
use drogon_pay.Services.Refund.Create.{proceed_refund}
use drogon_pay.Services.Refund.Stages.{IsStable}
use drogon_pay.Services.Refund.Walk.{proceed_refund-keeps}

-- The table has the row.
abbrev pub Has : RefundRow → List RefundRow → Type 0
Has row [] = ⊥
Has row (x ∷ rows) = (x ≡ row) ⊎ Has row rows

-- An update of unsettled rows passes a settled row by.
update-Has :
    (row : RefundRow) (refund_no : Bytes) (f : RefundRow → RefundRow) (rows : List RefundRow)
    → is_unsettled row.status ≡ false
    → Has row rows
    → Has row (update_where (is_unsettled_refund refund_no) f rows)
update-Has row refund_no f [] final h = elim h [ ]
update-Has row refund_no f (x ∷ rows) final (inl e) = inl (rw (e, final) (ground arith))
update-Has row refund_no f (x ∷ rows) final (inr h) = inr (update-Has row refund_no f rows final h)

final_row-IsStable :
    (env : Env) (row : RefundRow)
    → is_unsettled row.status ≡ false
    → ((p : Point) (db : Db) → Has row db.refunds → Has row (env.others p db).refunds)
    → IsStable env (λ db. Has row db.refunds)
final_row-IsStable env row final rely = record {
  others = rely;
  fail_refund = λ refund_no db. update-Has row refund_no _ db.refunds final;
  settle_refund = λ refund_no status refund_id db. update-Has row refund_no _ db.refunds final;
  refund_order = λ order_no db v. v;
  insert = λ r db read summed. inr;
}

-- A refund row that is REFUND_SUCCESS or REFUND_FAIL is still in the table, unchanged, after
-- `proceedRefund`, whatever the request, the database and the channel say, if the other writers leave
-- it there.
pub proceed_refund-Has :
    (env : Env) (row : RefundRow) (request : CreateRefundRequest) (db : Db)
    → is_unsettled row.status ≡ false
    → ((p : Point) (other : Db) → Has row other.refunds → Has row (env.others p other).refunds)
    → Has row db.refunds
    → Has row (proceed_refund env request db).0.refunds
proceed_refund-Has env row request db final rely h =
    proceed_refund-keeps env (λ other. Has row other.refunds)
      (final_row-IsStable env row final rely) request db h
