-- ===== src/Services/Refund/Invariant.antt =====
-- What holds of one order and its refunds: the amount of its row, and the cover of its refunds.
use drogon_pay.Common.{
  ℕ, ◌≡◌, ap, inl, inr, some, List, [], ◌∷◌, arith, Bool-cases, Bytes, bytes_eq,
}
use drogon_pay.Models.Status.{refunded}
use drogon_pay.Models.Tables.{
  OrderRow, Db, Fault, update_where, exactly_one, find_one, succeeds, raises, mapper_fails,
  answered,
}
use drogon_pay.Utils.Amount.{parse_amount_to_fen}
use drogon_pay.Services.Refund.Settle.{is_paid_order}
use drogon_pay.Services.Refund.Covered.{sum_fen, IsCovered, AmountIs}

-- For one order: its rows have the amount `total`, and its refunds are covered by it.
pub record Inv (order_no : Bytes) (total : ℕ) (db : Db) : Type 0 where
  pub amounts : AmountIs order_no total db.orders
  pub covered : IsCovered order_no total db.refunds

-- What NUMERIC promises: a sum that the code can read is the exact sum.
abbrev pub IsExactSum : (List Bytes → Bytes) → Type 0
IsExactSum numeric_sum =
    (amounts : List Bytes) (n m : ℕ)
    → sum_fen amounts ≡ some n
    → parse_amount_to_fen (numeric_sum amounts) ≡ some m
    → m ≡ n

-- Whether a row is paid or refunded does not change its amount.
pub close_paid-AmountIs :
    (order_no other : Bytes) (total : ℕ) (orders : List OrderRow)
    → AmountIs order_no total orders
    → AmountIs order_no total
        (update_where (is_paid_order other) (λ row. record row { status = refunded }) orders)
close_paid-AmountIs order_no other total [] h = tt
close_paid-AmountIs order_no other total (o ∷ rest) h =
    (λ e. ground arith, close_paid-AmountIs order_no other total rest h.1)

exactly_one_head : (x o : OrderRow) (l : List OrderRow) → exactly_one (x ∷ l) ≡ answered o → x ≡ o
unfolding exactly_one
exactly_one_head x o [] e = cc
exactly_one_head x o (y ∷ l) e = cc

-- The order that `findOne` returns has the amount.
pub find_one-amount :
    (fault : Fault) (order_no : Bytes) (total : ℕ) (orders : List OrderRow) (o : OrderRow)
    → AmountIs order_no total orders
    → find_one fault (λ (row : OrderRow). bytes_eq row.order_no order_no) orders ≡ answered o
    → parse_amount_to_fen o.amount ≡ some total
unfolding find_one exactly_one
find_one-amount (raises what) order_no total orders o h e = cc
find_one-amount (mapper_fails what) order_no total orders o h e = cc
find_one-amount succeeds order_no total [] o h e = cc
find_one-amount succeeds order_no total (x ∷ rest) o h e =
    elim (Bool-cases (bytes_eq x.order_no order_no)) [
      | inl hit ↦
          cc (h.0 hit, ap (λ (r : OrderRow). r.amount) (exactly_one_head x o _ (rw hit at e)))
      | inr miss ↦ find_one-amount succeeds order_no total rest o h.1 (rw miss at e)
    ]
