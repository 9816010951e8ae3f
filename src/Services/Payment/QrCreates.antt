-- ===== src/Services/Payment/QrCreates.antt =====
-- About what a call of `createQRPayment` leaves of the payments, and when it hands a code out.

use drogon_pay.Common.{◌≡◌, refl, ◌⊎◌, inl, inr, none, List, arith, Bytes}
use drogon_pay.Models.Tables.{PaymentRow, Db}
use drogon_pay.Services.Idempotency.{
  IdempotencyRow, CheckResult, check_database, started, replay, in_progress, conflict, check_error,
}
use drogon_pay.Services.Payment.QrOffer.{QrOrder, QrPoint, QrEnd, fail_qr, respond_qr}
use drogon_pay.Services.Payment.Qr.{offer_qr_payment}
use drogon_pay.Services.Payment.QrRequest.{
  QrRequest, QrResponse, QrOutcome, QrRequestEnv, qr_key, check_qr_request, end_qr,
  on_checked_request, on_qr_started, on_qr_check, qr_hash, create_qr_payment,
}
use drogon_pay.Services.Payment.QrAdds.{MayOffer, AddsAttempt, Books}
use drogon_pay.Services.Payment.QrBooks.{offer_qr_payment-Books}

-- The answer carries no code, or is the one that was stored with the key.
abbrev pub OffersNothingNew : QrRequestEnv → QrRequest → List IdempotencyRow → QrResponse → Type 0
OffersNothingNew env request keys response =
    (response.body ≡ none)
    ⊎ ((check_database env.idempotency (qr_key request) (qr_hash env request) keys).1
        ≡ replay response)

-- An attempt was added, for the order that the request's checks let through.
abbrev pub AddsForRequest : QrRequestEnv → QrRequest → Db → List PaymentRow → Type 0
AddsForRequest env request db payments =
    (q : QrOrder) × (check_qr_request env request ≡ inr q)
    × MayOffer q db
    × AddsAttempt env.service q db.payments payments

module _ (env : QrRequestEnv) (request : QrRequest) (keys : List IdempotencyRow)
    (quiet : (p : QrPoint) (db : Db) → env.service.others p db ≡ db) where
  abbrev Creates : Db → QrOutcome → Type 0
  Creates db outcome =
      ((outcome.tables.payments ≡ db.payments) × OffersNothingNew env request keys outcome.response)
      ⊎ AddsForRequest env request db outcome.tables.payments

  end_qr-Creates :
      (key hash : Bytes) (q : QrOrder) (left : List IdempotencyRow) (db : Db) (r : Db × QrEnd)
      → check_qr_request env request ≡ inr q
      → Books env.service q db r
      → Creates db (end_qr env key hash r.1 left r.0)
  unfolding end_qr
  end_qr-Creates key hash q left db (after, respond_qr body) checked (inr (may, adds)) =
      inr (q, checked, may, adds)
  end_qr-Creates key hash q left db (after, fail_qr code message extra) checked (inr (may, adds)) =
      inr (q, checked, may, adds)
  end_qr-Creates key hash q left db (after, fail_qr code message extra) checked
        (inl (same, fails)) =
      inl (same, inl refl)
  end_qr-Creates key hash q left db (after, respond_qr body) checked (inl (same, fails)) =
      absurd (ground (arith, fails.3))

  check_qr_request-refuses :
      (response : QrResponse) → check_qr_request env request ≡ inl response → response.body ≡ none
  unfolding check_qr_request
  check_qr_request-refuses response e = ground (arith, e)

  on_qr_started-Creates :
      (key hash : Bytes) (left : List IdempotencyRow) (db : Db)
      → Creates db (on_qr_started env key hash request left db)
  unfolding on_qr_started
  on_qr_started-Creates key hash left db = on_checks (check_qr_request env request) refl
    where
      on_checks :
          (checked : QrResponse ⊎ QrOrder)
          → check_qr_request env request ≡ checked
          → Creates db (on_checked_request env key hash checked left db)
      on_checks (inl response) e = inl (refl, inl (check_qr_request-refuses response e))
      on_checks (inr q) e =
          end_qr-Creates key hash q _ db (offer_qr_payment env.service q db) e
            (offer_qr_payment-Books env.service q quiet db)

  on_qr_check-Creates :
      (left : List IdempotencyRow) (db : Db) (result : CheckResult QrResponse)
      → (check_database env.idempotency (qr_key request) (qr_hash env request) keys).1 ≡ result
      → Creates db (on_qr_check env (qr_key request) (qr_hash env request) request left db result)
  unfolding on_qr_check
  on_qr_check-Creates left db started e =
      on_qr_started-Creates (qr_key request) (qr_hash env request) left db
  on_qr_check-Creates left db (replay response) e = inl (refl, inr e)
  on_qr_check-Creates left db (in_progress message) e = inl (refl, inl refl)
  on_qr_check-Creates left db (conflict message) e = inl (refl, inl refl)
  on_qr_check-Creates left db (check_error message) e = inl (refl, inl refl)

-- A call of `createQRPayment` adds one attempt at most, that holds no money, and it is for an order that is
-- new, or that is the request's own (amount, currency, channel, user), neither paid nor refunded, without
-- an attempt that holds money. Otherwise the payments stay, and the answer carries no code but one stored
-- with the key. This holds on every branch and whatever statements fail and the channel answers, if no
-- other writer touches the tables meanwhile.
pub create_qr_payment-adds :
    (env : QrRequestEnv) (request : QrRequest) (keys : List IdempotencyRow) (db : Db)
    → ((p : QrPoint) (db : Db) → env.service.others p db ≡ db)
    → (((create_qr_payment env request keys db).tables.payments ≡ db.payments)
        × OffersNothingNew env request keys (create_qr_payment env request keys db).response)
      ⊎ AddsForRequest env request db (create_qr_payment env request keys db).tables.payments
unfolding create_qr_payment
create_qr_payment-adds env request keys db quiet = ground (
  arith,
  on_qr_check-Creates env request keys quiet
      (check_database env.idempotency (qr_key request) (qr_hash env request) keys).0 db
      (check_database env.idempotency (qr_key request) (qr_hash env request) keys).1 refl,
)
