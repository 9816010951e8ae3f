-- ===== src/Services/Refund/Twice.antt =====
-- About `createRefund`, called twice with one key.
use drogon_pay.Common.{
  ℕ, ◌+◌, ◌*◌, ◌<◌, ◌≡◌, refl, inl, inr, true, false, none, some, List, ◌∷◌, arith, if◌then◌else◌,
  Bool-cases, Bytes, codes, any, bytes_eq, is_empty,
}
use drogon_pay.Models.Tables.{Db}
use drogon_pay.Services.Idempotency.{
  IdempotencyRow, has_key, reservation, judge_snapshot, check_database, may_proceed, update_result,
  started, conflict, after_refund,
}
use drogon_pay.Services.Idempotency.Replay.{
  KeepsKey, RunsClean, IsStored, judge_snapshot-read, check_database-fresh, check_database-stored,
  update_result-IsStored, other_clients-IsStored,
}
use drogon_pay.Services.Refund.Types.{CreateRefundRequest, Response}
use drogon_pay.Services.Refund.Create.{proceed_refund}
use drogon_pay.Services.Refund.Request.{
  RequestEnv, Outcome, has_data, conflict_response, answer_caller, after_proceed, on_check, hash_of,
  create_refund,
}

-- An answer with data is stored, and the caller has it.
answer_caller-data :
    (env : RequestEnv) (key hash : Bytes) (response : Response) (code : ℕ)
    (keys : List IdempotencyRow) (db : Db)
    → is_empty key ≡ false
    → has_data response ≡ true
    → (update_result env.idempotency key hash response keys).1 ≡ true
    → answer_caller env key hash response code keys db ≡ record {
      keys = (update_result env.idempotency key hash response keys).0;
      tables = db;
      response = response;
      error_code = code;
    }
unfolding answer_caller
answer_caller-data env key hash response code keys db named data_is stored =
    rw named (rw data_is (rw stored refl))

-- Whatever becomes of the key, the caller has the answer and the tables stay.
answer_caller-answers :
    (env : RequestEnv) (key hash : Bytes) (response : Response) (code : ℕ)
    (keys : List IdempotencyRow) (db : Db)
    → ((answer_caller env key hash response code keys db).tables ≡ db)
      × (((answer_caller env key hash response code keys db).response ≡ response)
          × ((answer_caller env key hash response code keys db).error_code ≡ code))
unfolding answer_caller
answer_caller-answers env key hash response code keys db = ground arith

after_proceed-data :
    (env : RequestEnv) (key hash : Bytes) (response : Response) (keys : List IdempotencyRow)
    (db : Db)
    → has_data response ≡ true
    → after_proceed env key hash response keys db
      ≡ answer_caller env key hash response response.code keys db
unfolding after_proceed
after_proceed-data env key hash response keys db data_is = ground (arith, data_is)

-- The first request on a fresh key stores its answer, if the answer has data.
create_refund-stores :
    (env : RequestEnv) (request : CreateRefundRequest) (key : Bytes) (keys : List IdempotencyRow)
    (db : Db) (now : ℕ)
    → KeepsKey env.idempotency key
    → RunsClean env.idempotency
    → is_empty key ≡ false
    → any (has_key key) keys ≡ false
    → now < env.idempotency.reserve_time + env.idempotency.ttl_seconds * 1000000
    → has_data (proceed_refund env.service request db).1 ≡ true
    → ((create_refund env request key keys db).response ≡ (proceed_refund env.service request db).1)
      × IsStored key
          (hash_of env request)
          (some
            (env.idempotency.write (hash_of env request) (proceed_refund env.service request db).1))
          now
          (create_refund env request key keys db).keys
unfolding create_refund on_check may_proceed
create_refund-stores env request key keys db now keeps clean named fresh live data_is =
    (rw (named, reserved.0, answered_with) refl, rw (named, reserved.0, answered_with) stored.1)
  where
    hash : Bytes
    hash = hash_of env request

    reserved :
        (check_database env.idempotency key hash keys
          ≡ (reservation env.idempotency key hash ∷ keys, started))
        × IsStored key hash none now (reservation env.idempotency key hash ∷ keys)
    reserved = check_database-fresh env.idempotency key hash keeps clean now keys named fresh live

    before : List IdempotencyRow
    before =
        env.idempotency.other_clients after_refund (reservation env.idempotency key hash ∷ keys)

    stored :
        ((update_result env.idempotency key hash (proceed_refund env.service request db).1 before).1
          ≡ true)
        × IsStored key hash
            (some (env.idempotency.write hash (proceed_refund env.service request db).1))
            now
            (update_result env.idempotency key hash
              (proceed_refund env.service request db).1
              before).0
    stored =
        update_result-IsStored env.idempotency key hash keeps clean
          (proceed_refund env.service request db).1 now none before
          (other_clients-IsStored env.idempotency key hash keeps clean after_refund now none _
            reserved.1)

    answered_with :
        after_proceed env key hash
          (proceed_refund env.service request db).1
          before
          (proceed_refund env.service request db).0
        ≡ record {
          keys =
              (update_result env.idempotency key hash
                (proceed_refund env.service request db).1
                before).0;
          tables = (proceed_refund env.service request db).0;
          response = (proceed_refund env.service request db).1;
          error_code = (proceed_refund env.service request db).1.code;
        }
    answered_with =
        rw
          (after_proceed-data env key hash (proceed_refund env.service request db).1 before
            (proceed_refund env.service request db).0 data_is)
          (answer_caller-data env key hash (proceed_refund env.service request db).1
            (proceed_refund env.service request db).1.code before
            (proceed_refund env.service request db).0 named data_is stored.0)

-- A request on a key whose live row has an answer.
create_refund-stored :
    (env : RequestEnv) (request : CreateRefundRequest) (key stored text : Bytes) (answer : Response)
    (keys : List IdempotencyRow) (db : Db)
    → KeepsKey env.idempotency key
    → RunsClean env.idempotency
    → is_empty key ≡ false
    → env.idempotency.read text ≡ some answer
    → has_data answer ≡ true
    → IsStored key stored (some text) env.idempotency.select_time keys
    → ((create_refund env request key keys db).tables ≡ db)
      × (((create_refund env request key keys db).response
            ≡ (if bytes_eq stored (hash_of env request) then answer else conflict_response))
          × ((create_refund env request key keys db).error_code
              ≡ (if bytes_eq stored (hash_of env request) then 0 else 1409)))
unfolding create_refund on_check may_proceed
create_refund-stored env request key stored text answer keys db keeps clean named reads data_is s =
    elim (Bool-cases (bytes_eq stored (hash_of env request))) [
      | inl same ↦
          rw (named, judged, same, judge_snapshot-read env.idempotency text answer reads)
            (answer_caller-answers env key (hash_of env request) answer 0 _ db)
      | inr other ↦
          rw (named, judged, other)
            (answer_caller-answers env key (hash_of env request) conflict_response 1409 _ db)
    ]
  where
    judged : (check_database env.idempotency key (hash_of env request) keys).1 ≡ (
        if bytes_eq stored (hash_of env request)
        then judge_snapshot env.idempotency (some text)
        else conflict (codes "idempotency key conflict"))
    judged =
        check_database-stored env.idempotency key (hash_of env request) keeps clean stored
          (some text) keys named s

-- Two requests with one key. The first finds the key free and is answered with data; the second comes
-- before the key expires, whatever it asks for and whatever the tables have become. Then the second
-- writes no table: it is given the first one's answer, as a success of the call, if the hashes of
-- order number, amount and reason agree, and 1409 if they differ. It needs the statements on the keys
-- to succeed, the other clients to leave the key alone, and the stored text to be read back.
pub create_refund-create_refund :
    (first second : RequestEnv) (request again : CreateRefundRequest) (key : Bytes)
    (keys : List IdempotencyRow) (db later : Db)
    → KeepsKey first.idempotency key
    → KeepsKey second.idempotency key
    → RunsClean first.idempotency
    → RunsClean second.idempotency
    → is_empty key ≡ false
    → any (has_key key) keys ≡ false
    → second.idempotency.select_time
      < first.idempotency.reserve_time + first.idempotency.ttl_seconds * 1000000
    → second.idempotency.read (
        first.idempotency.write (hash_of first request) (proceed_refund first.service request db).1)
      ≡ some (proceed_refund first.service request db).1
    → has_data (proceed_refund first.service request db).1 ≡ true
    → let one : Outcome = create_refund first request key keys db in
      let two : Outcome = create_refund second again key one.keys later in
      (two.tables ≡ later)
      × ((two.response ≡ (
            if bytes_eq (hash_of first request) (hash_of second again)
            then one.response
            else conflict_response))
          × (two.error_code
              ≡ (if bytes_eq (hash_of first request) (hash_of second again) then 0 else 1409)))
create_refund-create_refund first second request again key keys db later keeps keeps' clean clean'
      named fresh live law data_is =
    rw (stores.0) (
      create_refund-stored second again key (hash_of first request) _ _ _ later keeps' clean' named
        law data_is stores.1)
  where
    stores :
        ((create_refund first request key keys db).response
          ≡ (proceed_refund first.service request db).1)
        × IsStored key
            (hash_of first request)
            (some (
              first.idempotency.write
                (hash_of first request)
                (proceed_refund first.service request db).1))
            second.idempotency.select_time
            (create_refund first request key keys db).keys
    stores =
        create_refund-stores first request key keys db second.idempotency.select_time keeps clean
          named fresh live data_is
