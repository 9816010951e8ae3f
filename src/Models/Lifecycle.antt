-- ===== src/Models/Lifecycle.antt =====
-- The life of a payment attempt and of a refund as diagrams, and tables whose rows follow them.
use drogon_pay.Common.{
  ◌≡◌, refl, sym, ◌∙◌, subst, ◌⊎◌, inl, inr, Bool, true, false, List, [], ◌∷◌, arith, Bool-cases,
}
use drogon_pay.Models.Status.{
  PaymentStatus, RefundStatus, is_open_attempt, is_unsettled, init, processing, success, fail,
  refunded_payment,
}
use drogon_pay.Models.Tables.{PaymentRow, RefundRow, update_where}

-- Of pay_payment.status: an attempt is open until it is collected or refused.
infix 40 ◌⟶◌ ◌⟶*◌
pub data ◌⟶◌ : PaymentStatus → PaymentStatus → Type 0 where
  begin : init ⟶ processing
  wait : processing ⟶ processing
  collect : {p : PaymentStatus} → is_open_attempt p ≡ true → p ⟶ success
  refuse : {p : PaymentStatus} → is_open_attempt p ≡ true → p ⟶ fail

pub data ◌⟶*◌ : PaymentStatus → PaymentStatus → Type 0 where
  here : {p : PaymentStatus} → p ⟶* p
  then : {p q r : PaymentStatus} → p ⟶ q → q ⟶* r → p ⟶* r

pub ⟶*_trans : {p q r : PaymentStatus} → p ⟶* q → q ⟶* r → p ⟶* r
⟶*_trans here w = w
⟶*_trans (then s v) w = then s (⟶*_trans v w)

-- An attempt that is collected or refused has come to its end.
pub closed_attempt_stays : {p q : PaymentStatus} → is_open_attempt p ≡ false → p ⟶* q → p ≡ q
closed_attempt_stays h here = refl
closed_attempt_stays h (then begin w) = absurd (ground (arith, h))
closed_attempt_stays h (then wait w) = absurd (ground (arith, h))
closed_attempt_stays h (then (collect o) w) = absurd (ground (arith, h, o))
closed_attempt_stays h (then (refuse o) w) = absurd (ground (arith, h, o))

-- An open attempt can go wherever a channel's answer sends it.
pub open_attempt_moves :
    (q : PaymentStatus)
    → (q ≡ success) ⊎ (q ≡ processing) ⊎ (q ≡ fail)
    → (p : PaymentStatus) → is_open_attempt p ≡ true
    → p ⟶* q
open_attempt_moves success k p o = then (collect o) here
open_attempt_moves fail k p o = then (refuse o) here
open_attempt_moves processing k init o = then begin here
open_attempt_moves processing k processing o = then wait here
open_attempt_moves processing k success o = absurd (ground (arith, o))
open_attempt_moves processing k fail o = absurd (ground (arith, o))
open_attempt_moves processing k refunded_payment o = absurd (ground (arith, o))
open_attempt_moves init k p o = absurd (ground (arith, k))
open_attempt_moves refunded_payment k p o = absurd (ground (arith, k))

-- The rows of one table later are those of before, each one moved on, and new ones between them.
pub data Grows {ℓ} {A : Type ℓ} (R : A → A → Type 0) : List A → List A → Type ℓ where
  done : Grows R [] []
  moved : {x y : A} {xs ys : List A} → R x y → Grows R xs ys → Grows R (x ∷ xs) (y ∷ ys)
  added : {y : A} {xs ys : List A} → Grows R xs ys → Grows R xs (y ∷ ys)

module _ {ℓ} {A : Type ℓ} (R : A → A → Type 0) where
  pub Grows-refl : ((x : A) → R x x) → (xs : List A) → Grows R xs xs
  Grows-refl same [] = done
  Grows-refl same (x ∷ xs) = moved (same x) (Grows-refl same xs)

  pub Grows-trans :
      ((x y z : A) → R x y → R y z → R x z)
      → (xs ys zs : List A) → Grows R xs ys
      → Grows R ys zs
      → Grows R xs zs
  Grows-trans both xs ys (z ∷ zs) v (added w) = added (Grows-trans both xs ys zs v w)
  Grows-trans both (x ∷ xs) (y ∷ ys) (z ∷ zs) (moved v vs) (moved w ws) =
      moved (both x y z v w) (Grows-trans both xs ys zs vs ws)
  Grows-trans both xs (y ∷ ys) (z ∷ zs) (added vs) (moved w ws) =
      added (Grows-trans both xs ys zs vs ws)
  Grows-trans both [] [] [] done done = done
  Grows-trans both [] (y ∷ ys) [] v w = elim w [ ]
  Grows-trans both (x ∷ xs) (y ∷ ys) [] v w = elim w [ ]
  Grows-trans both (x ∷ xs) [] [] v w = elim v [ ]

  pub Grows-update_where :
      (p : A → Bool) (f : A → A)
      → ((x : A) → R x x)
      → ((x : A) → p x ≡ true → R x (f x))
      → (xs : List A) → Grows R xs (update_where p f xs)
  Grows-update_where p f same step [] = done
  Grows-update_where p f same step (x ∷ xs) = elim (Bool-cases (p x)) [
    | inl hit ↦ rw hit (moved (step x hit) (Grows-update_where p f same step xs))
    | inr miss ↦ rw miss (moved (same x) (Grows-update_where p f same step xs))
  ]

-- A row of pay_payment keeps its numbers and its amount, its status follows the diagram, and one that
-- is collected or refused keeps every column.
pub record PaymentMoves (before after : PaymentRow) : Type 0 where
  pub payment_no : before.payment_no ≡ after.payment_no
  pub order_no : before.order_no ≡ after.order_no
  pub amount : before.amount ≡ after.amount
  pub status : before.status ⟶* after.status
  pub closed_row : is_open_attempt before.status ≡ false → after ≡ before

abbrev pub PaymentsEvolve : List PaymentRow → List PaymentRow → Type 0
PaymentsEvolve = Grows PaymentMoves

pub PaymentMoves-refl : (x : PaymentRow) → PaymentMoves x x
PaymentMoves-refl x = record {
  payment_no = refl;
  order_no = refl;
  amount = refl;
  status = here;
  closed_row = λ h. refl;
}

pub PaymentMoves-trans :
    (x y z : PaymentRow) → PaymentMoves x y → PaymentMoves y z → PaymentMoves x z
PaymentMoves-trans x y z v w = record {
  payment_no = v.payment_no ∙ w.payment_no;
  order_no = v.order_no ∙ w.order_no;
  amount = v.amount ∙ w.amount;
  status = ⟶*_trans v.status w.status;
  closed_row = λ h.
      w.closed_row (subst (λ row. is_open_attempt row.status ≡ false) (sym (v.closed_row h)) h)
      ∙ v.closed_row h;
}

pub PaymentsEvolve-trans :
    (xs ys zs : List PaymentRow)
    → PaymentsEvolve xs ys
    → PaymentsEvolve ys zs
    → PaymentsEvolve xs zs
PaymentsEvolve-trans = Grows-trans PaymentMoves PaymentMoves-trans

-- Of pay_refund.status: a refund is open until the channel has paid it or refused it.
infix 40 ◌↝◌
pub data ◌↝◌ : RefundStatus → RefundStatus → Type 0 where
  stays : {p : RefundStatus} → p ↝ p
  settles : {p q : RefundStatus} → is_unsettled p ≡ true → p ↝ q

pub ↝_trans : {p q r : RefundStatus} → p ↝ q → q ↝ r → p ↝ r
↝_trans stays w = w
↝_trans (settles o) w = settles o

-- A refund that is paid or refused has come to its end.
pub settled_refund_stays : {p q : RefundStatus} → is_unsettled p ≡ false → p ↝ q → p ≡ q
settled_refund_stays h stays = refl
settled_refund_stays h (settles o) = absurd (ground (arith, h, o))

-- A row of pay_refund keeps its numbers and its amount, and a settled one keeps every column.
pub record RefundMoves (before after : RefundRow) : Type 0 where
  pub refund_no : before.refund_no ≡ after.refund_no
  pub order_no : before.order_no ≡ after.order_no
  pub payment_no : before.payment_no ≡ after.payment_no
  pub amount : before.amount ≡ after.amount
  pub status : before.status ↝ after.status
  pub settled : is_unsettled before.status ≡ false → after ≡ before

pub RefundMoves-refl : (x : RefundRow) → RefundMoves x x
RefundMoves-refl x = record {
  refund_no = refl;
  order_no = refl;
  payment_no = refl;
  amount = refl;
  status = stays;
  settled = λ h. refl;
}

pub RefundMoves-trans : (x y z : RefundRow) → RefundMoves x y → RefundMoves y z → RefundMoves x z
RefundMoves-trans x y z v w = record {
  refund_no = v.refund_no ∙ w.refund_no;
  order_no = v.order_no ∙ w.order_no;
  payment_no = v.payment_no ∙ w.payment_no;
  amount = v.amount ∙ w.amount;
  status = ↝_trans v.status w.status;
  settled = λ h.
      w.settled (subst (λ row. is_unsettled row.status ≡ false) (sym (v.settled h)) h)
      ∙ v.settled h;
}

abbrev pub RefundsEvolve : List RefundRow → List RefundRow → Type 0
RefundsEvolve = Grows RefundMoves

pub RefundsEvolve-trans :
    (xs ys zs : List RefundRow) → RefundsEvolve xs ys → RefundsEvolve ys zs → RefundsEvolve xs zs
RefundsEvolve-trans = Grows-trans RefundMoves RefundMoves-trans
