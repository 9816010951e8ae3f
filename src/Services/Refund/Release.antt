-- ===== src/Services/Refund/Release.antt =====
-- About the release of a reservation: `proceedCb` in `createRefund`, and `clearReservation`.
use drogon_pay.Services.Idempotency.Rows.{select-delete, any-none}
use drogon_pay.Common.{
  ℕ, ◌≤◌, ◌≡◌, refl, true, false, not, ◌&&◌, none, some, List, ◌∷◌, arith, Bytes, any, is_empty,
}
use drogon_pay.Models.Tables.{Db, select, succeeds}
use drogon_pay.Services.Idempotency.{
  IdempotencyRow, IdempotencyEnv, has_key, has_hash, is_reservation, reservation, check_database,
  may_proceed, clear_reservation, started, after_refund,
}
use drogon_pay.Services.Idempotency.Replay.{
  KeepsKey, RunsClean, IsStored, bytes_eq_refl, check_database-fresh, other_clients-IsStored,
}
use drogon_pay.Services.Refund.Types.{CreateRefundRequest, Response}
use drogon_pay.Services.Refund.Create.{proceed_refund}
use drogon_pay.Services.Refund.Request.{
  RequestEnv, has_data, answer_caller, after_proceed, on_check, hash_of, create_refund,
}

-- The reservation of a key is deleted.
clear_reservation-frees :
    (env : IdempotencyEnv Response) (key hash : Bytes) (now : ℕ) (keys : List IdempotencyRow)
    → is_empty key ≡ false
    → env.delete_fault ≡ succeeds
    → IsStored key hash none now keys
    → any (has_key key) (clear_reservation env key hash keys).0 ≡ false
unfolding clear_reservation
clear_reservation-frees env key hash now keys named deletes s =
    rw (named, deletes)
      (any-none (has_key key) (select (λ row. not (is_reservation key hash row)) keys) (
        rw
          (
            select-delete (has_key key)
                (λ row.
                  has_hash hash row
                  && (elim row.response_snapshot [ none ↦ true | some text ↦ false ]))
                keys,
            s.only,
            s.hash_is,
            bytes_eq_refl hash,
            s.snapshot_is,
          )
          refl))

-- The caller of a failure without data is answered behind the release.
after_proceed-fails :
    (env : RequestEnv) (key hash : Bytes) (response : Response) (keys : List IdempotencyRow)
    (db : Db)
    → is_empty key ≡ false
    → has_data response ≡ false
    → 1 ≤ response.code
    → (after_proceed env key hash response keys db).keys
      ≡ (clear_reservation env.idempotency key hash keys).0
unfolding after_proceed answer_caller
after_proceed-fails env key hash response keys db named no_data fails =
    ground (arith, named, no_data, fails)

-- A first request on a key, whose refund fails without data, leaves no row of the key, so that the
-- next request of the key starts again. It needs the two statements to succeed and the other clients
-- to leave the key alone, and the clock is not at 0.
pub create_refund-releases :
    (env : RequestEnv) (request : CreateRefundRequest) (key : Bytes) (keys : List IdempotencyRow)
    (db : Db)
    → KeepsKey env.idempotency key
    → RunsClean env.idempotency
    → env.idempotency.delete_fault ≡ succeeds
    → is_empty key ≡ false
    → any (has_key key) keys ≡ false
    → 1 ≤ env.idempotency.reserve_time
    → has_data (proceed_refund env.service request db).1 ≡ false
    → 1 ≤ (proceed_refund env.service request db).1.code
    → any (has_key key) (create_refund env request key keys db).keys ≡ false
unfolding create_refund on_check may_proceed
create_refund-releases env request key keys db keeps clean deletes named fresh clock no_data fails =
    rw
      (
        named,
        reserved.0,
        after_proceed-fails env key hash (proceed_refund env.service request db).1
            (env.idempotency.other_clients after_refund
              (reservation env.idempotency key hash ∷ keys))
            (proceed_refund env.service request db).0 named no_data fails,
      )
      (clear_reservation-frees env.idempotency key hash 0 _ named deletes (
        other_clients-IsStored env.idempotency key hash keeps clean after_refund 0 none _
          reserved.1))
  where
    hash : Bytes
    hash = hash_of env request

    reserved :
        (check_database env.idempotency key hash keys
          ≡ (reservation env.idempotency key hash ∷ keys, started))
        × IsStored key hash none 0 (reservation env.idempotency key hash ∷ keys)
    reserved =
        check_database-fresh env.idempotency key hash keeps clean 0 keys named fresh
          (omega (arith, clock))
