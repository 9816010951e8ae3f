-- ===== src/Services/Payment/QrRequest.antt =====
-- `createQRPayment`: its checks, and the idempotency key around them.
use drogon_pay.Common.{
  ℕ, ◌⊎◌, inl, inr, Bool, not, ◌&&◌, ◌||◌, Option, none, some, List, [], ◌++◌, ltb, leb, ◌==◌,
  if◌then◌else◌, Bytes, codes, bytes_eq, is_empty,
}
use drogon_pay.Common.Int.{ℤ, leb_ℤ, pos}
use drogon_pay.Models.Tables.{Db}
use drogon_pay.Utils.Amount.{parse_amount_to_fen}
use drogon_pay.Utils.NotifyUrl.{validate_notify_url}
use drogon_pay.Utils.OrderFields.{validate_wechat_order_fields}
use drogon_pay.Utils.Deadline.{
  DeadlineError, validate_time_expire, unreadable, in_the_past, beyond_seven_days,
}
use drogon_pay.Services.Idempotency.{
  IdempotencyRow, CheckResult, IdempotencyEnv, check_database, update_result, clear_reservation,
  started, replay, in_progress, conflict, check_error, after_refund, after_snapshot,
}
use drogon_pay.Services.Payment.Refusals.{QrResult, normalize_qr_currency}
use drogon_pay.Services.Payment.QrOffer.{
  QrOrder, QrEnv, QrExtra, QrData, QrEnd, nothing_more, fail_qr, respond_qr,
}
use drogon_pay.Services.Payment.Qr.{offer_qr_payment}

-- The members of the request, with the defaults of a missing one; `none` for a user_id that is no int64.
pub record QrRequest : Type 0 where
  pub order_no : Bytes
  pub amount : Bytes
  pub channel : Bytes
  pub subject : Bytes
  pub time_expire : Bytes
  pub user_id : Option ℤ
  pub currency : Bytes
  pub notify_url : Bytes
  pub buyer_id : Option Bytes
  pub idempotency_key : Option Bytes

pub data QrPayload : Type 0 where
  wechat_payload :
      (out_trade_no description : Bytes)
      → ℕ
      → (currency : Bytes) → (notify_url time_expire : Option Bytes) → QrPayload
  alipay_payload :
      (out_trade_no total_amount subject : Bytes) → (buyer_id : Option Bytes) → QrPayload

pub record QrResponse : Type 0 where
  pub code : ℕ
  pub message : Bytes
  pub extra : QrExtra
  pub body : Option QrData

-- The `std::error_code` of the callback.
pub data QrErrorCode : Type 0 where
  no_error io_error : QrErrorCode
  pay_error : ℕ → QrErrorCode

pub record QrOutcome : Type 0 where
  pub keys : List IdempotencyRow
  pub tables : Db
  pub response : QrResponse
  pub error_code : QrErrorCode

pub record QrRequestEnv : Type 0 where
  pub has_database : Bool
  pub service : QrEnv
  pub idempotency : IdempotencyEnv QrResponse
  pub now_seconds : ℤ
  -- `getSha256` of the JSON text of the request, its user and its currency
  pub request_hash : QrRequest → ℤ → Bytes → Bytes
  pub find_channel : Bytes → Option (QrPayload → QrResult × Bytes)

abbrev pub qr_response : ℕ → Bytes → QrResponse
qr_response code message = record {
  code = code;
  message = message;
  extra = nothing_more;
  body = none;
}

abbrev pub is_wechat : QrRequest → Bool
is_wechat request = bytes_eq request.channel (codes "wechat")

abbrev pub requested_currency : QrRequest → Bytes
requested_currency request = if is_wechat request then request.currency else codes "CNY"

abbrev pub user_of : QrRequest → ℤ
user_of request = elim request.user_id [ none ↦ pos 0 | some user_id ↦ user_id ]

abbrev pub qr_key : QrRequest → Bytes
qr_key request = elim request.idempotency_key [
  | none ↦ codes "QR_" ++ request.order_no ++ codes "_" ++ request.channel
  | some key ↦ key
]

abbrev pub unless_empty : Bytes → Option Bytes
unless_empty text = if is_empty text then none else some text

-- The currency in the hash: the one to be booked, or the text of one that is not valid.
abbrev pub hashed_currency : QrRequest → Bytes
hashed_currency request = elim (normalize_qr_currency (requested_currency request)) [
  | none ↦ requested_currency request
  | some currency ↦ currency
]

abbrev pub deadline_text : DeadlineError → Bytes
deadline_text (unreadable message) = codes "time_expire " ++ codes message
deadline_text in_the_past = codes "time_expire is already in the past"
deadline_text beyond_seven_days = codes "time_expire must be within 7 days for WeChat Pay"

-- The payload for a channel, or why WeChat would refuse it.
unfoldable pub qr_payload : QrRequest → Bytes → Bytes ⊎ QrPayload
qr_payload request currency =
    if not (is_wechat request)
    then inr (alipay_payload request.order_no request.amount request.subject request.buyer_id)
    else elim (parse_amount_to_fen request.amount) [
      | none ↦ inl (codes "Invalid amount for WeChat native payment")
      | some total_fen ↦
          if total_fen == 0
          then inl (codes "Invalid amount for WeChat native payment")
          else elim (validate_wechat_order_fields request.order_no request.subject []) [
            | some problem ↦ inl (codes problem)
            | none ↦
                elim (if is_empty request.notify_url
                  then none
                  else validate_notify_url request.notify_url) [
                    | some problem ↦ inl (codes problem)
                    | none ↦ inr (
                        wechat_payload request.order_no request.subject total_fen currency
                          (unless_empty request.notify_url) (unless_empty request.time_expire))
                  ]
          ]
    ]

module _ (env : QrRequestEnv) where
  abbrev pub with_channel : QrRequest → Bytes → QrPayload → QrResponse ⊎ QrOrder
  with_channel request currency payload = elim (env.find_channel request.channel) [
    | none ↦ inl (qr_response 1005 (codes "CHANNEL_NOT_AVAILABLE: " ++ request.channel))
    | some ask ↦ inr (record {
      order_no = request.order_no;
      amount = request.amount;
      channel = request.channel;
      user_id = user_of request;
      currency = currency;
      offer = ask payload;
    })
  ]

  -- The checks behind the reservation of the key.
  unfoldable pub check_qr_request : QrRequest → QrResponse ⊎ QrOrder
  check_qr_request request = elim (normalize_qr_currency (requested_currency request)) [
    | none ↦ inl (qr_response 400 (codes "Invalid currency: expected a three-letter ISO-4217 code"))
    | some currency ↦
        elim (if is_empty request.time_expire
          then none
          else validate_time_expire request.time_expire request.channel env.now_seconds) [
            | some problem ↦ inl (qr_response 400 (deadline_text problem))
            | none ↦ elim (qr_payload request currency) [
              | inl problem ↦ inl (qr_response 400 problem)
              | inr payload ↦ with_channel request currency payload
            ]
          ]
  ]

  abbrev pub answered_with : List IdempotencyRow → Db → QrResponse → QrErrorCode → QrOutcome
  answered_with keys db response error_code = record {
    keys = keys;
    tables = db;
    response = response;
    error_code = error_code;
  }

  abbrev pub qr_error : ℕ → QrErrorCode
  qr_error code = if leb 400 code && ltb code 500 then pay_error code else io_error

  abbrev pub created_response : QrData → QrResponse
  created_response body = record {
    code = 0;
    message = codes "QR code created successfully";
    extra = nothing_more;
    body = some body;
  }

  -- `failQr` releases the key; `respondQr` keeps the answer with it, and releases it where that fails.
  unfoldable pub end_qr : Bytes → Bytes → QrEnd → List IdempotencyRow → Db → QrOutcome
  end_qr key hash (fail_qr code message extra) keys db =
      answered_with (clear_reservation env.idempotency key hash keys).0 db
        (record { code = code; message = message; extra = extra; body = none }) (qr_error code)
  end_qr key hash (respond_qr body) keys db =
      let updated : List IdempotencyRow × Bool =
        update_result env.idempotency key hash (created_response body) keys in
      answered_with
        (if updated.1
          then updated.0
          else (clear_reservation env.idempotency key hash
              (env.idempotency.other_clients after_snapshot updated.0)).0)
        db (created_response body) no_error

  abbrev pub on_checked_request :
      Bytes → Bytes → QrResponse ⊎ QrOrder → List IdempotencyRow → Db → QrOutcome
  on_checked_request key hash (inl response) keys db =
      answered_with (clear_reservation env.idempotency key hash keys).0 db response
        (pay_error response.code)
  on_checked_request key hash (inr q) keys db =
      let done : Db × QrEnd = offer_qr_payment env.service q db in
      end_qr key hash done.1 (env.idempotency.other_clients after_refund keys) done.0

  unfoldable pub on_qr_started : Bytes → Bytes → QrRequest → List IdempotencyRow → Db → QrOutcome
  on_qr_started key hash request keys db =
      on_checked_request key hash (check_qr_request request) keys db

  -- The callback of `checkAndSetStatus`.
  unfoldable pub on_qr_check :
      Bytes → Bytes → QrRequest → List IdempotencyRow → Db → CheckResult QrResponse → QrOutcome
  on_qr_check key hash request keys db started = on_qr_started key hash request keys db
  on_qr_check key hash request keys db (replay response) = answered_with keys db response no_error
  on_qr_check key hash request keys db (in_progress message) =
      answered_with keys db (qr_response 1004 (codes "Idempotency request is already in progress"))
        (pay_error 1004)
  on_qr_check key hash request keys db (conflict message) =
      answered_with keys db
        (qr_response 1004 (codes "Idempotency conflict: different parameters for same key"))
        (pay_error 1004)
  on_qr_check key hash request keys db (check_error message) =
      answered_with keys db (qr_response 1003 (codes "Idempotency check failed")) (pay_error 1003)

  abbrev pub qr_hash : QrRequest → Bytes
  qr_hash request = env.request_hash request (user_of request) (hashed_currency request)

  unfoldable pub create_qr_payment : QrRequest → List IdempotencyRow → Db → QrOutcome
  create_qr_payment request keys db =
      let hash : Bytes = qr_hash request in
      let checked : List IdempotencyRow × CheckResult QrResponse =
        check_database env.idempotency (qr_key request) hash keys in
      if not env.has_database
      then answered_with keys db (qr_response 1003 (codes "Database client not available"))
          (pay_error 1003)
      else if is_empty request.order_no || is_empty request.amount
      then answered_with keys db
          (qr_response 400 (codes "Missing required parameters: order_no, amount")) (pay_error 400)
      else if leb_ℤ (user_of request) (pos 0)
      then answered_with keys db (qr_response 400 (codes "Missing or invalid user_id"))
          (pay_error 400)
      else on_qr_check (qr_key request) hash request checked.0 db checked.1
