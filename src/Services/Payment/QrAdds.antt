-- ===== src/Services/Payment/QrAdds.antt =====
-- About the payment row that `createQRPayment` adds, behind the channel's answer.
use drogon_pay.Common.{
  ℕ, ◌≡◌, refl, sym, ap, ◌∙◌, subst, ◌⊎◌, inl, inr, true, false, none, some, List, [], ◌∷◌, arith,
  Bool-cases, Option-cases, Bytes, any, bytes_eq, is_empty,
}
use drogon_pay.Common.Find.{bytes_eq_iff}
use drogon_pay.Models.Status.{
  PaymentStatus, is_paid, is_refunded, holds_money, init, processing, fail,
}
use drogon_pay.Utils.Amount.{parse_amount_to_fen}
use drogon_pay.Models.Members.{Among}
use drogon_pay.Models.Tables.{OrderRow, PaymentRow, Db, update_where, Fault-cases}
use drogon_pay.Services.Callback.Trade.{is_open_payment, is_order}
use drogon_pay.Services.Payment.Refusals.{
  QrResult, channel_result_error, attempt_certainly_not_created,
}
use drogon_pay.Services.Payment.QrOffer.{
  QrOrder, QrPoint, QrEnv, QrExtra, QrEnd, is_settled_payment, new_attempt, mark_qr_payment_failed,
  promote_order_row, promote_qr_rows, close_or_keep, on_offer, fail_payment, promote_payment,
  promote_order, behind_promotion, fail_qr,
}
use drogon_pay.Services.Payment.Qr.{is_same_amount, existing_problem}

-- Two texts of the same amount in fen, or the same text.
abbrev pub SameAmount : Bytes → Bytes → Type 0
SameAmount booked requested =
    ((fen : ℕ) × (parse_amount_to_fen booked ≡ some fen)
      × (parse_amount_to_fen requested ≡ some fen))
    ⊎ (booked ≡ requested)

is_same_amount-SameAmount :
    (booked requested : Bytes)
    → is_same_amount booked requested ≡ true
    → SameAmount booked requested
unfolding is_same_amount
is_same_amount-SameAmount booked requested e = elim (Option-cases (parse_amount_to_fen booked)) [
  | inl unread ↦ inr ((bytes_eq_iff booked requested).0 (ground (arith, e, unread)))
  | inr (fen, read) ↦ elim (Option-cases (parse_amount_to_fen requested)) [
    | inl unread ↦ inr ((bytes_eq_iff booked requested).0 (ground (arith, e, read, unread)))
    | inr (other, known) ↦ inl (fen, read, ground (arith, e, read, known))
  ]
]

-- An order may be offered again: it is neither paid nor refunded, it is the request's own, and no
-- attempt of it holds money.
pub record MayOfferAgain (q : QrOrder) (db : Db) (existing : OrderRow) : Type 0 where
  pub unpaid : is_paid existing.status ≡ false
  pub unrefunded : is_refunded existing.status ≡ false
  pub amount : SameAmount existing.amount q.amount
  pub currency : existing.currency ≡ q.currency
  pub channel : existing.channel ≡ q.channel
  pub user_id : existing.user_id ≡ q.user_id
  pub unsettled : any (is_settled_payment q.order_no) db.payments ≡ false

-- The order is a new one, or the table has it and it may be offered again.
abbrev pub MayOffer : QrOrder → Db → Type 0
MayOffer q db =
    (any (is_order q.order_no) db.orders ≡ false)
    ⊎ ((existing : OrderRow) × Among existing db.orders
        × (is_order q.order_no existing ≡ true)
        × MayOfferAgain q db existing)

-- One attempt more, for this order and its amount, that holds no money.
pub record AddsAttempt (env : QrEnv) (q : QrOrder) (before after : List PaymentRow) : Type 0 where
  pub status : PaymentStatus
  pub holds_none : holds_money status ≡ false
  pub is_new : any (λ (row : PaymentRow). bytes_eq row.payment_no env.payment_no) before ≡ false
  pub added : after ≡ record (new_attempt env q) { status = status } ∷ before

abbrev pub IsFailure : QrEnd → Type 0
IsFailure outcome =
    (code : ℕ) × (message : Bytes) × (extra : QrExtra) × (outcome ≡ fail_qr code message extra)

-- The payments stay and the call fails, or an attempt is added.
abbrev pub Books : QrEnv → QrOrder → Db → Db × QrEnd → Type 0
Books env q db r =
    ((r.0.payments ≡ db.payments) × IsFailure r.1)
    ⊎ (MayOffer q db × AddsAttempt env q db.payments r.0.payments)

pub existing_problem-none :
    (env : QrEnv) (q : QrOrder) (existing : OrderRow) (db : Db)
    → existing_problem env q existing ≡ none
    → any (is_settled_payment q.order_no) db.payments ≡ false
    → MayOfferAgain q db existing
unfolding existing_problem
existing_problem-none env q existing db e free = record {
  unpaid = ground (arith, e);
  unrefunded = ground (arith, e);
  amount = is_same_amount-SameAmount existing.amount q.amount (ground (arith, e));
  currency = (bytes_eq_iff existing.currency q.currency).0 (ground (arith, e));
  channel = (bytes_eq_iff existing.channel q.channel).0 (ground (arith, e));
  user_id = ground (arith, e);
  unsettled = free;
}

-- The rows of other payments stay, whatever is written to the open ones of this number.
untouched :
    (payment_no : Bytes) (f : PaymentRow → PaymentRow) (rows : List PaymentRow)
    → any (λ (row : PaymentRow). bytes_eq row.payment_no payment_no) rows ≡ false
    → update_where (is_open_payment payment_no) f rows ≡ rows
untouched payment_no f [] free = refl
untouched payment_no f (row ∷ rows) free = ground (arith, free, untouched payment_no f rows)

module _ (env : QrEnv) (q : QrOrder) (quiet : (p : QrPoint) (db : Db) → env.others p db ≡ db) where
  -- The new attempt is written once more, in one UPDATE of the open rows of its number.
  written-AddsAttempt :
      (status : PaymentStatus) (before : List PaymentRow)
      → holds_money status ≡ false
      → any (λ (row : PaymentRow). bytes_eq row.payment_no env.payment_no) before ≡ false
      → AddsAttempt env q before (
          update_where
            (is_open_payment env.payment_no)
            (λ row. record row { status = status })
            (new_attempt env q ∷ before))
  written-AddsAttempt status before none_held free = record {
    status = status;
    holds_none = none_held;
    is_new = free;
    added = ground (
      arith,
      none_held,
      (bytes_eq_iff env.payment_no env.payment_no).1 refl,
      untouched env.payment_no (λ row. record row { status = status }) before free,
    );
  }

  -- The payments behind an UPDATE of the new attempt that may have failed.
  abbrev Advances : PaymentStatus → List PaymentRow → List PaymentRow → Type 0
  Advances status payments after =
      (after ≡ payments)
      ⊎ (after
          ≡ update_where (is_open_payment env.payment_no) (λ row. record row { status = status })
              payments)

  Advances-AddsAttempt :
      (status : PaymentStatus) (before payments after : List PaymentRow)
      → holds_money status ≡ false
      → any (λ (row : PaymentRow). bytes_eq row.payment_no env.payment_no) before ≡ false
      → payments ≡ new_attempt env q ∷ before
      → Advances status payments after
      → AddsAttempt env q before after
  Advances-AddsAttempt status before payments after none_held free e (inl same) = record {
    status = init;
    holds_none = refl;
    is_new = free;
    added = same ∙ e;
  }
  Advances-AddsAttempt status before payments after none_held free e (inr wrote) =
      subst (AddsAttempt env q before)
        (sym (
          wrote
          ∙ ap
              (update_where (is_open_payment env.payment_no)
                (λ row. record row { status = status }))
              e))
        (written-AddsAttempt status before none_held free)

  mark_qr_payment_failed-Advances :
      (db : Db) → Advances fail db.payments (mark_qr_payment_failed env q db).payments
  unfolding mark_qr_payment_failed
  mark_qr_payment_failed-Advances db = elim (Fault-cases (env.faults fail_payment)) [
    | inl sent ↦ inr (rw (mark_qr_payment_failed, sent) refl)
    | inr (what, inl broken) ↦ inl (rw (mark_qr_payment_failed, broken) refl)
    | inr (what, inr broken) ↦ inl (rw (mark_qr_payment_failed, broken) refl)
  ]

  promote_order_row-payments :
      (order_no : Bytes) (db : Db) → (promote_order_row env q order_no db).payments ≡ db.payments
  unfolding promote_order_row
  promote_order_row-payments order_no db = elim (Fault-cases (env.faults promote_order)) [
    | inl sent ↦ rw (promote_order_row, sent) refl
    | inr (what, inl broken) ↦ rw (promote_order_row, broken) refl
    | inr (what, inr broken) ↦ rw (promote_order_row, broken) refl
  ]

  promote_qr_rows-Advances :
      (order : OrderRow) (db : Db)
      → Advances processing db.payments (promote_qr_rows env q order db).payments
  unfolding promote_qr_rows
  promote_qr_rows-Advances order db = elim (Fault-cases (env.faults promote_payment)) [
    | inr (what, inl broken) ↦ inl (rw (promote_qr_rows, broken) refl)
    | inr (what, inr broken) ↦ inl (rw (promote_qr_rows, broken) refl)
    | inl sent ↦ elim (Bool-cases (any (is_open_payment env.payment_no) db.payments)) [
      | inr gone ↦ inl (rw (promote_qr_rows, sent, gone) refl)
      | inl open_one ↦ inr (
          rw (promote_qr_rows, sent, open_one)
            (promote_order_row-payments order.order_no _
              ∙ ap (λ (x : Db). x.payments) (quiet behind_promotion _)))
    ]
  ]

  close_or_keep-Advances :
      (error : Bytes) (db : Db) → Advances fail db.payments (close_or_keep env q error db).payments
  unfolding close_or_keep
  close_or_keep-Advances error db = elim (Bool-cases (attempt_certainly_not_created error)) [
    | inl certain ↦ rw (close_or_keep, certain) (mark_qr_payment_failed-Advances db)
    | inr unknown ↦ rw (close_or_keep, unknown) (inl refl)
  ]

  pub on_offer-AddsAttempt :
      (order : OrderRow) (result : QrResult) (error : Bytes) (before : List PaymentRow) (db : Db)
      → any (λ (row : PaymentRow). bytes_eq row.payment_no env.payment_no) before ≡ false
      → db.payments ≡ new_attempt env q ∷ before
      → AddsAttempt env q before (on_offer env q order result error db).0.payments
  unfolding on_offer
  on_offer-AddsAttempt order result error before db free e = elim (Bool-cases (is_empty error)) [
    | inr spoken ↦
        rw (on_offer, spoken)
          (Advances-AddsAttempt fail before db.payments _ refl free e
            (close_or_keep-Advances error db))
    | inl silent ↦ elim (Option-cases (channel_result_error q.channel result)) [
      | inr (problem, wrong) ↦
          rw (on_offer, silent, wrong)
            (Advances-AddsAttempt fail before db.payments _ refl free e
              (close_or_keep-Advances problem db))
      | inl right ↦
          rw (on_offer, silent, right)
            (Advances-AddsAttempt processing before db.payments _ refl free e
              (promote_qr_rows-Advances order db))
    ]
  ]
