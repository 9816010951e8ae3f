-- ===== src/Models/Tables.antt =====
-- The tables pay_order, pay_payment, pay_refund and pay_ledger, and the statements that the services
-- run on them. A text column is its bytes. The database itself is not under the repository's
-- sources: a statement does what SQL says of it, or raises what the request's faults name.
use drogon_pay.Common.{
  ℕ, ◌≡◌, refl, ◌⊎◌, inl, inr, Bool, true, Option, none, some, List, [], ◌∷◌, arith, ltb,
  if◌then◌else◌, Bool-cases, Bytes, codes,
}
use drogon_pay.Common.Int.{ℤ}
use drogon_pay.Models.Status.{OrderStatus, PaymentStatus, RefundStatus}

pub record OrderRow : Type 0 where
  pub order_no : Bytes
  pub user_id : ℤ
  pub amount : Bytes
  pub currency : Bytes
  pub status : OrderStatus
  pub channel : Bytes

pub record PaymentRow : Type 0 where
  pub payment_no : Bytes
  pub order_no : Bytes
  pub status : PaymentStatus
  pub amount : Bytes
  -- the empty text for NULL
  pub channel_trade_no : Bytes
  pub created_at : ℕ

pub record RefundRow : Type 0 where
  pub refund_no : Bytes
  pub order_no : Bytes
  pub payment_no : Bytes
  pub status : RefundStatus
  pub amount : Bytes
  pub channel_refund_no : Option Bytes
  pub updated_at : ℕ

-- entry_type is PAYMENT or REFUND; a missing payment number is NULL.
pub record LedgerRow : Type 0 where
  pub user_id : ℤ
  pub order_no : Bytes
  pub payment_no : Option Bytes
  pub entry_type : Bytes
  pub amount : Bytes

pub record Db : Type 0 where
  pub orders : List OrderRow
  pub payments : List PaymentRow
  pub refunds : List RefundRow
  pub ledger : List LedgerRow

-- How one call of the database ends: it succeeds, its answer is an exception, or the Mapper cannot
-- be made and the call is never sent.
pub data Fault : Type 0 where
  succeeds : Fault
  raises : Bytes → Fault
  mapper_fails : Bytes → Fault

-- What the caller of a statement is told.
pub data Reply {ℓ} (A : Type ℓ) : Type ℓ where
  answered : A → Reply A
  exception : Bytes → Reply A
  no_mapper : Bytes → Reply A

unfoldable pub reply {ℓ} : {A : Type ℓ} → Fault → A → Reply A
reply succeeds a = answered a
reply (raises what) a = exception what
reply (mapper_fails what) a = no_mapper what

module _ {ℓ} {A : Type ℓ} where
  -- `SELECT ... WHERE p`.
  abbrev pub select : (A → Bool) → List A → List A
  select p [] = []
  select p (x ∷ xs) = if p x then x ∷ select p xs else select p xs

  -- `UPDATE ... SET f WHERE p`.
  abbrev pub update_where : (A → Bool) → (A → A) → List A → List A
  update_where p f [] = []
  update_where p f (x ∷ xs) = (if p x then f x else x) ∷ update_where p f xs

  -- `Mapper::findOne` raises unless exactly one row matches.
  unfoldable pub exactly_one : List A → Reply A
  exactly_one [] = exception (codes "0 rows found")
  exactly_one (x ∷ []) = answered x
  exactly_one (x ∷ y ∷ xs) = exception (codes "Found more than one row")

  unfoldable pub find_one : Fault → (A → Bool) → List A → Reply A
  unfolding exactly_one
  find_one succeeds p xs = exactly_one (select p xs)
  find_one (raises what) p xs = exception what
  find_one (mapper_fails what) p xs = no_mapper what

  -- `ORDER BY key DESC LIMIT 1`; among equal keys the first row.
  unfoldable pub latest : (A → ℕ) → List A → Option A
  latest key [] = none
  latest key (x ∷ xs) = elim (latest key xs) [
    | none ↦ some x
    | some y ↦ if ltb (key x) (key y) then some y else some x
  ]

-- A reply is an answer or it is not.
pub Reply-cases {ℓ} :
    {A : Type ℓ} (r : Reply A)
    → ((a : A) × (r ≡ answered a))
      ⊎ ((what : Bytes) × ((r ≡ exception what) ⊎ (r ≡ no_mapper what)))
Reply-cases (answered a) = inl (a, refl)
Reply-cases (exception what) = inr (what, inl refl)
Reply-cases (no_mapper what) = inr (what, inr refl)

-- The row that `findOne` answers is one that was asked for.
pub find_one-holds {ℓ} :
    {A : Type ℓ}
    → (fault : Fault) (p : A → Bool) (rows : List A) (a : A) → find_one fault p rows ≡ answered a
    → p a ≡ true
unfolding find_one exactly_one
find_one-holds (raises what) p rows a e = cc
find_one-holds (mapper_fails what) p rows a e = cc
find_one-holds succeeds p [] a e = cc
find_one-holds {A = A} succeeds p (x ∷ rows) a e = elim (Bool-cases (p x)) [
  | inr miss ↦ find_one-holds succeeds p rows a (rw miss at e)
  | inl hit ↦ head (select p rows) hit (rw hit at e)
]
  where
    head : (rest : List A) → p x ≡ true → exactly_one (x ∷ rest) ≡ answered a → p a ≡ true
    head [] hit q = cc
    head (y ∷ rest) hit q = cc

-- A selected row is one that was asked for.
pub select-head {ℓ} :
    {A : Type ℓ}
    → (p : A → Bool) (rows : List A) (a : A) (rest : List A) → select p rows ≡ a ∷ rest
    → p a ≡ true
select-head p [] a rest e = cc
select-head p (x ∷ rows) a rest e = elim (Bool-cases (p x)) [
  | inr miss ↦ select-head p rows a rest (rw miss at e)
  | inl hit ↦ head hit (rw hit at e)
]
  where
    head : p x ≡ true → x ∷ select p rows ≡ a ∷ rest → p a ≡ true
    head hit q = cc

-- A call succeeds or it does not.
pub Fault-cases :
    (f : Fault) → (f ≡ succeeds) ⊎ ((what : Bytes) × ((f ≡ raises what) ⊎ (f ≡ mapper_fails what)))
Fault-cases succeeds = inl refl
Fault-cases (raises what) = inr (what, inl refl)
Fault-cases (mapper_fails what) = inr (what, inr refl)

-- The latest of the selected rows is one that was asked for.
pub latest-select {ℓ} :
    {A : Type ℓ}
    → (key : A → ℕ) (p : A → Bool) (rows : List A) (a : A) → latest key (select p rows) ≡ some a
    → p a ≡ true
unfolding latest
latest-select key p [] a e = cc
latest-select {A = A} key p (x ∷ rows) a e = elim (Bool-cases (p x)) [
  | inr miss ↦ latest-select key p rows a (rw miss at e)
  | inl hit ↦ newest (latest-select key p rows) (latest key (select p rows)) refl hit (rw hit at e)
]
  where
    newest :
        ((b : A) → latest key (select p rows) ≡ some b → p b ≡ true)
        → (rest : Option A) → latest key (select p rows) ≡ rest
        → p x ≡ true
        → elim rest [ none ↦ some x | some y ↦ if ltb (key x) (key y) then some y else some x ]
          ≡ some a
        → p a ≡ true
    newest ih none r hit q = cc
    newest ih (some y) r hit q = elim (Bool-cases (ltb (key x) (key y))) [
      | inl later ↦ ih a (ground (arith, r, q, later))
      | inr first ↦ ground (arith, q, first, hit)
    ]
