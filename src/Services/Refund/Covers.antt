-- ===== src/Services/Refund/Covers.antt =====
-- About `settleOrder` in `updateRefundWithSuccess`: when the order is written.

use drogon_pay.Common.Int.{pos}
use drogon_pay.Common.{
  ℕ, ◌≤◌, ◌≡◌, refl, ◌⊎◌, inl, inr, true, false, Option, none, some, arith, Bool-cases, Bytes,
}
use drogon_pay.Models.Status.{RefundStatus, is_refund_success}
use drogon_pay.Models.Tables.{Db, Fault, succeeds, raises, mapper_fails}
use drogon_pay.Utils.Amount.{parse_amount_to_fen}
use drogon_pay.Utils.Status.{refunds_cover_order_amount}
use drogon_pay.Services.Refund.Types.{Response, Env, sum_settled, after_settled_sum}
use drogon_pay.Services.Refund.Settle.{
  settled_amounts, write_refunded_order, settle_on_sum, settle_order,
}

refunds_cover_order_amount-le :
    (n t : ℕ) → refunds_cover_order_amount (pos n) (pos t) ≡ true → (t ≤ n) × (1 ≤ t)
unfolding refunds_cover_order_amount
refunds_cover_order_amount-le n t h = (ground arith, ground arith)

-- `settle_order` either leaves the tables alone, or the refund is REFUND_SUCCESS, the sum of the
-- order's REFUND_SUCCESS rows is readable and reaches the order's total, which is not 0, and what
-- follows is the write of the order, behind whatever other writers do.
pub settle_order-covers :
    (env : Env) (order_no : Bytes) (order_total_fen : ℕ) (status : RefundStatus) (done : Response)
    (db : Db)
    → ((settle_order env order_no order_total_fen status done db).0 ≡ db)
      ⊎ ((is_refund_success status ≡ true)
          × ((n : ℕ) × ((parse_amount_to_fen (env.numeric_sum (settled_amounts order_no db.refunds))
                  ≡ some n)
                × ((order_total_fen ≤ n)
                    × ((1 ≤ order_total_fen)
                        × (settle_order env order_no order_total_fen status done db
                            ≡ write_refunded_order env order_no done
                                (env.others after_settled_sum db)))))))
unfolding settle_order
settle_order-covers env order_no order_total_fen status done db =
    on_status (Bool-cases (is_refund_success status)) (env.faults sum_settled) refl
  where
    covering :
        (sum : Option ℕ)
        → ((settle_on_sum env order_no order_total_fen done sum db).0 ≡ db)
          ⊎ ((n : ℕ) × ((sum ≡ some n)
                × ((order_total_fen ≤ n)
                    × ((1 ≤ order_total_fen)
                        × (settle_on_sum env order_no order_total_fen done sum db
                            ≡ write_refunded_order env order_no done
                                (env.others after_settled_sum db))))))
    covering none = unfold settle_on_sum in inl refl
    covering (some n) =
        unfold settle_on_sum in
        elim (Bool-cases (refunds_cover_order_amount (pos n) (pos order_total_fen))) [
          | inl covers ↦ inr (
            n,
            (
              refl,
              (
                (refunds_cover_order_amount-le n order_total_fen covers).0,
                ((refunds_cover_order_amount-le n order_total_fen covers).1, rw covers refl),
              ),
            ),
          )
          | inr short ↦ inl (rw short refl)
        ]

    on_status :
        (is_refund_success status ≡ true) ⊎ (is_refund_success status ≡ false)
        → (fault : Fault) → env.faults sum_settled ≡ fault
        → ((settle_order env order_no order_total_fen status done db).0 ≡ db)
          ⊎ ((is_refund_success status ≡ true)
              × ((n : ℕ) × ((parse_amount_to_fen
                        (env.numeric_sum (settled_amounts order_no db.refunds))
                      ≡ some n)
                    × ((order_total_fen ≤ n)
                        × ((1 ≤ order_total_fen)
                            × (settle_order env order_no order_total_fen status done db
                                ≡ write_refunded_order env order_no done
                                    (env.others after_settled_sum db)))))))
    on_status (inr open_refund) fault e = unfold settle_order in inl (rw open_refund refl)
    on_status (inl settled) (raises what) e = unfold settle_order in inl (rw (settled, e) refl)
    on_status (inl settled) (mapper_fails what) e =
        unfold settle_order in inl (rw (settled, e) refl)
    on_status (inl settled) succeeds e =
        unfold settle_order in
        rw (settled, e)
          (elim (covering
            (parse_amount_to_fen (env.numeric_sum (settled_amounts order_no db.refunds)))) [
              | inl same ↦ inl same
              | inr covers ↦ inr (refl, covers)
            ])
