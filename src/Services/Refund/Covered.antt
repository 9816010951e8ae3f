-- ===== src/Services/Refund/Covered.antt =====
-- The sum of the refunds of an order that are not REFUND_FAIL, and the writes of the refund table.
use mathlib.Core.Option
use drogon_pay.Common.{
  ℕ, ◌+◌, ◌-◌, ◌≤◌, ◌≡◌, inl, inr, Bool, true, ◌&&◌, Option, none, some, List, [], ◌∷◌, arith,
  if◌then◌else◌, Bool-cases, Option-cases, Bytes, bytes_eq,
}
use drogon_pay.Models.Status.{counts_as_refunded}
use drogon_pay.Models.Tables.{OrderRow, RefundRow, update_where}
use drogon_pay.Utils.Amount.{parse_amount_to_fen}
use drogon_pay.Services.Refund.Settle.{is_unsettled_refund}
use drogon_pay.Services.Refund.Create.{refunded_amounts}

-- The exact sum of amounts, in fen.
unfoldable pub sum_fen : List Bytes → Option ℕ
sum_fen [] = some 0
sum_fen (a ∷ rest) = elim (parse_amount_to_fen a) [
  | none ↦ none
  | some n ↦ Option.map (λ m. n + m) (sum_fen rest)
]

abbrev pub AtMost : Option ℕ → ℕ → Type 0
AtMost none b = ⊥
AtMost (some n) b = n ≤ b

-- The refunds of order `order_no` that are not REFUND_FAIL sum up to `total` fen at most.
abbrev pub IsCovered : Bytes → ℕ → List RefundRow → Type 0
IsCovered order_no total refunds = AtMost (sum_fen (refunded_amounts order_no refunds)) total

-- A row of order `order_no` has an amount of `total` fen.
abbrev pub AmountIs : Bytes → ℕ → List OrderRow → Type 0
AmountIs order_no total [] = Unit {0}
AmountIs order_no total (o ∷ rest) =
    (bytes_eq o.order_no order_no ≡ true → parse_amount_to_fen o.amount ≡ some total)
    × AmountIs order_no total rest

-- A sum within a budget, taken apart and put together.
sum_fen-cons :
    (a : Bytes) (rest : List Bytes) (n b : ℕ)
    → parse_amount_to_fen a ≡ some n
    → n ≤ b
    → AtMost (sum_fen rest) (b - n)
    → AtMost (sum_fen (a ∷ rest)) b
unfolding sum_fen
sum_fen-cons a rest n b e h k = ground arith

sum_fen-uncons :
    (a : Bytes) (rest : List Bytes) (b : ℕ)
    → AtMost (sum_fen (a ∷ rest)) b
    → (n : ℕ) × (parse_amount_to_fen a ≡ some n) × (n ≤ b) × AtMost (sum_fen rest) (b - n)
unfolding sum_fen
sum_fen-uncons a rest b h = elim (Option-cases (parse_amount_to_fen a)) [
  | inl e ↦ absurd (ground arith)
  | inr (n, e) ↦ (n, e, ground arith, ground arith)
]

AtMost-mono : (o : Option ℕ) (a b : ℕ) → AtMost o a → a ≤ b → AtMost o b
AtMost-mono none a b h k = h
AtMost-mono (some n) a b h k = omega arith

abbrev is_counted : Bytes → RefundRow → Bool
is_counted order_no row = bytes_eq row.order_no order_no && counts_as_refunded row.status

-- A row replaced by one of the same order and amount that counts only if the old one did.
pub IsCovered-cons :
    (order_no : Bytes) (row row' : RefundRow) (rest rest' : List RefundRow) (b : ℕ)
    → row'.amount ≡ row.amount
    → (is_counted order_no row' ≡ true → is_counted order_no row ≡ true)
    → ((c : ℕ) → IsCovered order_no c rest → IsCovered order_no c rest')
    → IsCovered order_no b (row ∷ rest)
    → IsCovered order_no b (row' ∷ rest')
IsCovered-cons order_no row row' rest rest' b amount counts later h =
    elim (Bool-cases (is_counted order_no row)) [
      | inr skipped ↦ elim (Bool-cases (is_counted order_no row')) [
        | inl counted ↦ absurd (cc (counts counted))
        | inr skipped' ↦ rw skipped' (later b (rw skipped at h))
      ]
      | inl counted ↦
          let (n, e, le, left) =
            sum_fen-uncons row.amount (refunded_amounts order_no rest) b (rw counted at h) in
          elim (Bool-cases (is_counted order_no row')) [
            | inl counted' ↦ rw counted' (
                sum_fen-cons row'.amount (refunded_amounts order_no rest') n b (rw amount e) le
                  (later (b - n) left))
            | inr skipped' ↦ rw skipped' (
                later b (
                  AtMost-mono (sum_fen (refunded_amounts order_no rest)) (b - n) b left
                    (omega arith)))
          ]
    ]

-- A change of unsettled rows that keeps their order and amount does not raise the sum.
pub update-IsCovered :
    (order_no refund_no : Bytes) (f : RefundRow → RefundRow)
    → ((row : RefundRow) → ((f row).order_no ≡ row.order_no) × ((f row).amount ≡ row.amount))
    → (refunds : List RefundRow) (b : ℕ) → IsCovered order_no b refunds
    → IsCovered order_no b (update_where (is_unsettled_refund refund_no) f refunds)
update-IsCovered order_no refund_no f keeps [] b h = h
update-IsCovered order_no refund_no f keeps (row ∷ rest) b h =
    IsCovered-cons order_no row (if is_unsettled_refund refund_no row then f row else row) rest
      (update_where (is_unsettled_refund refund_no) f rest) b (ground (arith, keeps row))
      (ground (arith, keeps row)) (λ c. update-IsCovered order_no refund_no f keeps rest c) h

-- A new row within the budget.
pub insert-IsCovered :
    (order_no : Bytes) (row : RefundRow) (refunds : List RefundRow) (n m b : ℕ)
    → parse_amount_to_fen row.amount ≡ some n
    → sum_fen (refunded_amounts order_no refunds) ≡ some m
    → m + n ≤ b
    → IsCovered order_no b (row ∷ refunds)
insert-IsCovered order_no row refunds n m b e sum le = elim (Bool-cases (is_counted order_no row)) [
  | inl counted ↦ rw counted (
      sum_fen-cons row.amount (refunded_amounts order_no refunds) n b e (omega arith)
        (rw sum (omega arith)))
  | inr skipped ↦ rw skipped (rw sum (omega arith))
]
