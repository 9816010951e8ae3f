-- ===== src/Services/Refund/Request.antt =====
-- `createRefund`: `proceedRefund` behind the idempotency key of the request.
use drogon_pay.Common.{
  ℕ, Bool, true, false, not, ◌&&◌, Option, none, some, List, ltb, if◌then◌else◌, Bytes, codes,
  is_empty,
}
use drogon_pay.Models.Tables.{Db}
use drogon_pay.Services.Idempotency.{
  IdempotencyRow, CheckResult, IdempotencyEnv, check_database, may_proceed, update_result,
  clear_reservation, after_refund, after_snapshot,
}
use drogon_pay.Services.Refund.Types.{CreateRefundRequest, Response, failure, Env}
use drogon_pay.Services.Refund.Create.{proceed_refund}

pub record RequestEnv : Type 0 where
  pub service : Env
  pub idempotency : IdempotencyEnv Response
  -- `getSha256` of the JSON text of order_no, amount and reason
  pub request_hash : Bytes → Bytes → Bytes → Bytes

-- What a call leaves and answers: `error` is the `std::error_code` of the callback.
pub record Outcome : Type 0 where
  pub keys : List IdempotencyRow
  pub tables : Db
  pub response : Response
  pub error_code : ℕ

-- `response.isMember("data")`
abbrev pub has_data : Response → Bool
has_data response = elim response.body [ none ↦ false | some found ↦ true ]

abbrev pub conflict_response : Response
conflict_response = failure 1409 (codes "Idempotency conflict: different parameters for same key")

module _ (env : RequestEnv) where
  -- `wrappedCallback`: the snapshot is written before the caller is answered, and a reservation
  -- whose snapshot cannot be written is released.
  unfoldable pub answer_caller : Bytes → Bytes → Response → ℕ → List IdempotencyRow → Db → Outcome
  answer_caller key hash response code keys db =
      let updated : List IdempotencyRow × Bool =
        update_result env.idempotency key hash response keys in
      if not (is_empty key) && has_data response
      then (if updated.1
          then record { keys = updated.0; tables = db; response = response; error_code = code }
          else record {
            keys =
                (clear_reservation env.idempotency key hash
                  (env.idempotency.other_clients after_snapshot updated.0)).0;
            tables = db;
            response = response;
            error_code = code;
          })
      else record { keys = keys; tables = db; response = response; error_code = code }

  -- `proceedCb`: a failure without data releases the reservation.
  unfoldable pub after_proceed : Bytes → Bytes → Response → List IdempotencyRow → Db → Outcome
  after_proceed key hash response keys db =
      if not (is_empty key) && (ltb 0 response.code && not (has_data response))
      then answer_caller key hash response response.code
          (clear_reservation env.idempotency key hash keys).0 db
      else answer_caller key hash response response.code keys db

  -- The callback of `checkAndSet`.
  unfoldable pub on_check :
      CreateRefundRequest
      → Bytes
      → Bytes
      → List IdempotencyRow
      → Db
      → Bool × Option Response
      → Outcome
  on_check request key hash keys db (false, stored) =
      answer_caller key hash conflict_response 1409 keys db
  on_check request key hash keys db (true, some stored) = answer_caller key hash stored 0 keys db
  on_check request key hash keys db (true, none) =
      let done : Db × Response = proceed_refund env.service request db in
      after_proceed key hash done.1 (env.idempotency.other_clients after_refund keys) done.0

  unfoldable pub hash_of : CreateRefundRequest → Bytes
  hash_of request = env.request_hash request.order_no request.amount request.reason

  unfoldable pub create_refund : CreateRefundRequest → Bytes → List IdempotencyRow → Db → Outcome
  create_refund request key keys db =
      let hash : Bytes = hash_of request in
      let done : Db × Response = proceed_refund env.service request db in
      let checked : List IdempotencyRow × CheckResult Response =
        check_database env.idempotency key hash keys in
      if is_empty key
      then answer_caller key hash done.1 done.1.code
          (env.idempotency.other_clients after_refund keys) done.0
      else on_check request key hash checked.0 db (may_proceed env.idempotency checked.1)
