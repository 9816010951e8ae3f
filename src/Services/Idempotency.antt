-- ===== src/Services/Idempotency.antt =====
-- services/IdempotencyService.cc: the reservation of a key, the replay of a stored answer, and the
-- release of a reservation. The table is a list of rows. Redis is written only and has no part in
-- any answer.
pub mod Rows
pub mod Replay
use drogon_pay.Common.{
  ℕ, ◌+◌, ◌*◌, Bool, true, false, not, ◌&&◌, Option, none, some, List, [], ◌∷◌, ltb, if◌then◌else◌,
  Bytes, codes, any, bytes_eq, is_empty,
}
use drogon_pay.Models.Tables.{
  Fault, reply, select, update_where, succeeds, raises, mapper_fails, answered, exception,
  no_mapper,
}

pub record IdempotencyRow : Type 0 where
  pub idempotency_key : Bytes
  pub request_hash : Bytes
  pub response_snapshot : Option Bytes
  -- written by callback deliveries only
  pub owner_token : Option Bytes
  pub expire_at : Option ℕ

-- `CheckResult`: its status, with the member that belongs to it.
pub data CheckResult (J : Type 0) : Type 0 where
  started : CheckResult J
  replay : J → CheckResult J
  in_progress conflict check_error : Bytes → CheckResult J

-- The places where other clients of the table may run.
pub data TablePoint : Type 0 where
  after_reserve after_refund after_snapshot : TablePoint

-- `J` is the type of answers. `write` is the text of the object with the members request_hash and
-- response, and `read` the member response of a text, where the text is JSON and the member not null.
pub record IdempotencyEnv (J : Type 0) : Type 0 where
  pub write : Bytes → J → Bytes
  pub read : Bytes → Option J
  pub ttl_seconds : ℕ
  -- microseconds, at the INSERT and at the SELECT
  pub reserve_time : ℕ
  pub select_time : ℕ
  pub reserve_fault : Fault
  pub select_fault : Fault
  pub update_fault : Fault
  pub delete_fault : Fault
  pub other_clients : TablePoint → List IdempotencyRow → List IdempotencyRow

abbrev pub has_key : Bytes → IdempotencyRow → Bool
has_key key row = bytes_eq row.idempotency_key key

abbrev pub has_hash : Bytes → IdempotencyRow → Bool
has_hash hash row = bytes_eq row.request_hash hash

-- `expire_at IS NULL OR expire_at > now`
abbrev pub is_live : ℕ → IdempotencyRow → Bool
is_live now row = elim row.expire_at [ none ↦ true | some t ↦ ltb now t ]

-- The rows that `clearReservation` deletes: the request's own, while it has no answer.
abbrev pub is_reservation : Bytes → Bytes → IdempotencyRow → Bool
is_reservation key hash row =
    has_key key row
    && (has_hash hash row && (elim row.response_snapshot [ none ↦ true | some text ↦ false ]))

module _ {J : Type 0} (env : IdempotencyEnv J) where
  abbrev pub reservation : Bytes → Bytes → IdempotencyRow
  reservation key hash = record {
    idempotency_key = key;
    request_hash = hash;
    response_snapshot = none;
    owner_token = none;
    expire_at = some (env.reserve_time + env.ttl_seconds * 1000000);
  }

  -- A stored answer, or none yet.
  unfoldable pub judge_snapshot : Option Bytes → CheckResult J
  judge_snapshot none = in_progress (codes "idempotency request is already in progress")
  judge_snapshot (some text) = elim (env.read text) [
    | none ↦ in_progress (codes "idempotency response is not ready")
    | some response ↦ replay response
  ]

  -- The rows that the SELECT behind a refused INSERT answers.
  unfoldable pub judge_rows : Bytes → List IdempotencyRow → CheckResult J
  judge_rows hash [] = check_error (codes "idempotency key disappeared after conflict")
  judge_rows hash (row ∷ rest) =
      if bytes_eq row.request_hash hash
      then judge_snapshot row.response_snapshot
      else conflict (codes "idempotency key conflict")

  unfoldable pub select_key : Bytes → Bytes → List IdempotencyRow → CheckResult J
  select_key key hash rows =
      elim (reply env.select_fault
        (select (λ row. has_key key row && is_live env.select_time row) rows)) [
          | exception what ↦ check_error what
          | no_mapper what ↦ check_error what
          | answered found ↦ judge_rows hash found
        ]

  -- `checkAndSetStatus` and `checkDatabase`.
  unfoldable pub check_database :
      Bytes → Bytes → List IdempotencyRow → List IdempotencyRow × CheckResult J
  check_database key hash rows = if is_empty key then (rows, started) else elim env.reserve_fault [
    | raises what ↦ (rows, check_error what)
    | mapper_fails what ↦ (rows, check_error what)
    | succeeds ↦
        if any (has_key key) rows
        then (
          env.other_clients after_reserve rows,
          select_key key hash (env.other_clients after_reserve rows),
        )
        else (reservation key hash ∷ rows, started)
  ]

  -- The callback of `checkAndSet`: whether to go on, and the stored answer.
  unfoldable pub may_proceed : CheckResult J → Bool × Option J
  may_proceed started = (true, none)
  may_proceed (replay response) = (true, some response)
  may_proceed (in_progress message) = (false, none)
  may_proceed (conflict message) = (false, none)
  may_proceed (check_error message) = (false, none)

  unfoldable pub update_result :
      Bytes → Bytes → J → List IdempotencyRow → List IdempotencyRow × Bool
  update_result key hash response rows = elim env.update_fault [
    | raises what ↦ (rows, false)
    | mapper_fails what ↦ (rows, false)
    | succeeds ↦ (
      update_where (λ row. has_key key row && has_hash hash row)
          (λ row. record row { response_snapshot = some (env.write hash response) }) rows,
      any (λ row. has_key key row && has_hash hash row) rows,
    )
  ]

  unfoldable pub clear_reservation :
      Bytes → Bytes → List IdempotencyRow → List IdempotencyRow × Bool
  clear_reservation key hash rows = if is_empty key then (rows, false) else elim env.delete_fault [
    | raises what ↦ (rows, false)
    | mapper_fails what ↦ (rows, false)
    | succeeds ↦ (select (λ row. not (is_reservation key hash row)) rows, true)
  ]

-- `expire_at IS NOT NULL AND expire_at < NOW()`
abbrev pub is_expired : ℕ → IdempotencyRow → Bool
is_expired now row = elim row.expire_at [ none ↦ false | some t ↦ ltb t now ]

unfoldable pub purge_expired : Fault → ℕ → List IdempotencyRow → List IdempotencyRow × Bool
purge_expired fault now rows = elim fault [
  | raises what ↦ (rows, false)
  | mapper_fails what ↦ (rows, false)
  | succeeds ↦ (select (λ row. not (is_expired now row)) rows, true)
]
