-- ===== src/Services/Refund/NeverOver.antt =====
-- About the cumulative check of `proceedWithInsert`, and `proceedRefund` as a whole.

use mathlib.Core.Path.{subst}
use drogon_pay.Common.{
  ℕ, ◌+◌, ◌*◌, ◌≤◌, ◌≡◌, refl, ◌⊎◌, inl, inr, true, false, none, some, List, ◌∷◌, arith, Bool-cases,
  Option-cases, Bytes, bytes_eq,
}
use drogon_pay.Common.Find.{bytes_eq_iff}
use drogon_pay.Common.Int.{ltb_ℤ, pos}
use drogon_pay.Models.Status.{refund_fail}
use drogon_pay.Models.Tables.{OrderRow, RefundRow, Db, find_one, answered}
use drogon_pay.Utils.Amount.{int64_max, parse_amount_to_fen}
use drogon_pay.Services.Refund.Types.{CreateRefundRequest, Point, Env, find_order}
use drogon_pay.Services.Refund.Invoke.{Refund}
use drogon_pay.Services.Refund.Create.{refunded_amounts, add_int64, refund_row, proceed_refund}
use drogon_pay.Services.Refund.Covered.{sum_fen, IsCovered, update-IsCovered, insert-IsCovered}
use drogon_pay.Services.Refund.Invariant.{Inv, IsExactSum, close_paid-AmountIs, find_one-amount}
use drogon_pay.Services.Refund.Stages.{WasRead, IsStable}
use drogon_pay.Services.Refund.Walk.{proceed_refund-keeps}

-- Within the bound the 64-bit sum is the sum.
add_int64_lem : (a b : ℕ) → a + b ≤ int64_max → add_int64 a b ≡ pos (a + b)
unfolding add_int64
add_int64_lem a b h = ground arith

-- A row that passed the cumulative check.
insert-checked :
    (env : Env) (order_no : Bytes) (total m : ℕ) (r : Refund) (refunds : List RefundRow)
    → IsExactSum env.numeric_sum
    → 2 * total ≤ int64_max
    → parse_amount_to_fen r.amount ≡ some r.refund_fen
    → r.refund_fen ≤ r.total_fen
    → (bytes_eq r.order_no order_no ≡ true → r.total_fen ≡ total)
    → IsCovered order_no total refunds
    → parse_amount_to_fen (env.numeric_sum (refunded_amounts r.order_no refunds)) ≡ some m
    → ltb_ℤ (pos r.total_fen) (add_int64 m r.refund_fen) ≡ false
    → IsCovered order_no total (refund_row env r ∷ refunds)
insert-checked env order_no total m r refunds exact bound amount_read within total_read covered sum
      fits =
    elim (Bool-cases (bytes_eq r.order_no order_no)) [
      | inr other ↦ rw other covered
      | inl same ↦
          matching ((bytes_eq_iff r.order_no order_no).0 same)
            (Option-cases (sum_fen (refunded_amounts order_no refunds)))
    ]
  where
    within_total : (n : ℕ) → n ≤ total → m ≡ n → r.total_fen ≡ total → n + r.refund_fen ≤ total
    within_total n le me te =
        ground (arith, add_int64_lem m r.refund_fen (omega (arith, within)), within)

    matching :
        r.order_no ≡ order_no
        → (sum_fen (refunded_amounts order_no refunds) ≡ none)
          ⊎ ((n : ℕ) × (sum_fen (refunded_amounts order_no refunds) ≡ some n))
        → IsCovered order_no total (refund_row env r ∷ refunds)
    matching e (inl bad) = absurd (rw bad at covered)
    matching e (inr (n, total_sum)) =
        insert-IsCovered order_no (refund_row env r) refunds r.refund_fen n total amount_read
          total_sum
          (within_total n (rw total_sum at covered)
            (exact (refunded_amounts order_no refunds) n m total_sum (
              subst
                (λ k. parse_amount_to_fen (env.numeric_sum (refunded_amounts k refunds)) ≡ some m) e
                sum))
            (total_read ((bytes_eq_iff r.order_no order_no).1 e)))

-- The writes of a request keep the order covered.
Inv-IsStable :
    (env : Env) (order_no : Bytes) (total : ℕ)
    → IsExactSum env.numeric_sum
    → 2 * total ≤ int64_max
    → ((p : Point) (db : Db) → Inv order_no total db → Inv order_no total (env.others p db))
    → IsStable env (Inv order_no total)
Inv-IsStable env order_no total exact bound rely = record {
  others = rely;
  fail_refund = λ refund_no db v. record {
    amounts = v.amounts;
    covered =
        update-IsCovered order_no refund_no
          (λ row. record row { status = refund_fail; updated_at = env.now }) (λ row. (refl, refl))
          db.refunds total v.covered;
  };
  settle_refund = λ refund_no status refund_id db v. record {
    amounts = v.amounts;
    covered =
        update-IsCovered order_no refund_no
          (λ row. record row {
            status = status;
            channel_refund_no = some refund_id;
            updated_at = env.now;
          })
          (λ row. (refl, refl)) db.refunds total v.covered;
  };
  refund_order = λ other db v. record {
    amounts = close_paid-AmountIs order_no other total db.orders v.amounts;
    covered = v.covered;
  };
  insert = λ r db read summed v. record {
    amounts = v.amounts;
    covered =
        insert-checked env order_no total summed.refunded_fen r db.refunds exact bound
          read.amount_read read.within (total_of r read) v.covered summed.sum_read summed.fits;
  };
}
  where
    total_of :
        (r : Refund) (read : WasRead env (Inv order_no total) r)
        → bytes_eq r.order_no order_no ≡ true
        → r.total_fen ≡ total
    total_of r read h = ground (
      arith,
      read.total_read,
      find_one-amount (env.faults find_order) order_no total read.before.orders read.order
          read.before_holds.amounts
          (subst
            (λ k.
              find_one (env.faults find_order) (λ (row : OrderRow). bytes_eq row.order_no k)
                read.before.orders
              ≡ answered read.order)
            ((bytes_eq_iff r.order_no order_no).0 h) read.order_found),
    )

-- If the database adds amounts exactly, twice the order's total fits int64, and the other writers run
-- between the statements outside the transaction only and keep the order's amount and its cover, then
-- `proceedRefund` keeps them too: the rows of the order have the amount `total`, and the refunds of
-- the order that are not REFUND_FAIL have readable amounts that add up to `total` at most. This holds
-- on every branch: whatever the database answers or fails to, whatever the channel says, and whether
-- or not a failed COMMIT was applied.
pub proceed_refund-Inv :
    (env : Env) (order_no : Bytes) (total : ℕ) (request : CreateRefundRequest) (db : Db)
    → IsExactSum env.numeric_sum
    → 2 * total ≤ int64_max
    → ((p : Point) (other : Db)
        → Inv order_no total other
        → Inv order_no total (env.others p other))
    → Inv order_no total db
    → Inv order_no total (proceed_refund env request db).0
proceed_refund-Inv env order_no total request db exact bound rely v =
    proceed_refund-keeps env (Inv order_no total) (Inv-IsStable env order_no total exact bound rely)
      request db v
