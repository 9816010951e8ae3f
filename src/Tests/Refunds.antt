-- ===== src/Tests/Refunds.antt =====
-- The theorems on refunds, at a run of the service: an order of 8.00 with 3.00 refunded, and a request
-- for 2.00 more.

use drogon_pay.Services.Idempotency.Replay.{RunsClean}
use drogon_pay.Services.Refund.Settle.{
  settled_amounts, refund_created, write_refunded_order, settle_on_sum, settle_order,
  update_refund_with_success,
}
use drogon_pay.Services.Refund.Covers.{settle_order-covers}
use drogon_pay.Services.Refund.Request.{
  RequestEnv, Outcome, has_data, conflict_response, hash_of, create_refund,
}
use drogon_pay.Services.Refund.Twice.{create_refund-create_refund}
use drogon_pay.Services.Refund.Release.{create_refund-releases}
use drogon_pay.Services.Idempotency.{IdempotencyEnv, has_key}
use drogon_pay.Services.Refund.Create.{
  refuse_request, add_int64, commit_and_invoke, insert_and_commit, check_sum, sum_under_lock,
  proceed_with_insert, proceed_with_in_progress_check, proceed_with_amount_check, check_amounts,
  proceed_order_flow, validate_payment, newest_attempt, answer_with, choose_payment, proceed_refund,
}
use drogon_pay.Services.Refund.NeverOver.{proceed_refund-Inv}
use drogon_pay.Services.Refund.FinalRows.{Has, proceed_refund-Has}
use drogon_pay.Common.{
  ℕ, ◌+◌, ◌/◌, ◌%◌, ◌≤◌, ◌<◌, ◌≡◌, refl, ap, ◌⊎◌, inl, inr, true, false, none, some, List, [], ◌∷◌,
  ◌++◌, arith, ltb, if◌then◌else◌, Bool-cases, Bytes, codes, any, find_first, bytes_eq,
}
use drogon_pay.Common.Int.{pos}
use drogon_pay.Models.Status.{is_refund_success, paid, success, refund_success}
use drogon_pay.Models.Tables.{
  OrderRow, PaymentRow, RefundRow, Db, reply, exactly_one, find_one, latest, succeeds,
}
use drogon_pay.Utils.Amount.{
  split_amount, default_yuan, pad_cents, scale, check_parts, parse_amount_to_fen,
}
use drogon_pay.Utils.Amount.Parse.{parse_amount_to_fen-Spells}
use drogon_pay.Services.Refund.Invoke.{on_wechat_status, on_wechat_reply, invoke_refund_channel}
use drogon_pay.Utils.Status.{map_refund_status, refunds_cover_order_amount}
use drogon_pay.Services.Refund.Types.{CreateRefundRequest, Response, failure, Channel, Env}
use drogon_pay.Services.Refund.Covered.{sum_fen}
use drogon_pay.Services.Refund.Invariant.{Inv, IsExactSum}

-- The sum as NUMERIC prints it, below 10.00.
abbrev print_fen : ℕ → Bytes
print_fen n = (48 + n / 100) ∷ b'.' ∷ (48 + n / 10 % 10) ∷ (48 + n % 10) ∷ []

abbrev pub numeric_sum_of : List Bytes → Bytes
numeric_sum_of amounts = elim (sum_fen amounts) [
  | none ↦ []
  | some n ↦ if ltb n 1000 then print_fen n else []
]

parse-print_fen : (n : ℕ) → n < 1000 → parse_amount_to_fen (print_fen n) ≡ some n
parse-print_fen n h = (parse_amount_to_fen-Spells (print_fen n) n).1 (record {
  yuan = (48 + n / 100) ∷ [];
  cents = (48 + n / 10 % 10) ∷ (48 + n % 10) ∷ [];
  non_empty = λ e. cc;
  shape = inr refl;
  yuan_digits = ground arith;
  cents_digits = ground arith;
  cents_short = ground arith;
  value = ground arith;
  yuan_fits = ground arith;
})

numeric_sum_of-IsExactSum : IsExactSum numeric_sum_of
numeric_sum_of-IsExactSum amounts n m e h = of_text (Bool-cases (ltb n 1000))
  where
    sum_text : numeric_sum_of amounts ≡ (if ltb n 1000 then print_fen n else [])
    sum_text = rw (numeric_sum_of, e) refl

    of_text : (ltb n 1000 ≡ true) ⊎ (ltb n 1000 ≡ false) → m ≡ n
    of_text (inl low) = cc (
      parse-print_fen n (ground arith),
      h,
      ap parse_amount_to_fen sum_text,
      ap (λ b. parse_amount_to_fen (if b then print_fen n else [])) low,
    )
    of_text (inr high) = absurd (
        ((parse_amount_to_fen-Spells [] m).0 (
            cc (
              h,
              ap parse_amount_to_fen sum_text,
              ap (λ b. parse_amount_to_fen (if b then print_fen n else [])) high,
            ))).non_empty
          refl)

abbrev pub wechat : Channel
wechat = record {
  refund = λ payload. record {
    status = "SUCCESS";
    refund_id = codes "W1";
    code = [];
    message = [];
    msg = [];
    error = [];
  };
}

abbrev pub service : Env
service = record {
  channels = λ name. if bytes_eq name (codes "wechat") then some wechat else none;
  new_uuid = codes "uuid";
  now = 7;
  numeric_sum = numeric_sum_of;
  faults = λ call. succeeds;
  commit_applied = false;
  others = λ p db. db;
}

abbrev pub order : OrderRow
order = record {
  order_no = codes "O1";
  user_id = pos 5;
  amount = codes "8.00";
  currency = codes "CNY";
  status = paid;
  channel = codes "wechat";
}

abbrev pub payment : PaymentRow
payment = record {
  payment_no = codes "P1";
  order_no = codes "O1";
  status = success;
  amount = codes "8.00";
  channel_trade_no = codes "T1";
  created_at = 1;
}

abbrev pub first_refund : RefundRow
first_refund = record {
  refund_no = codes "R1";
  order_no = codes "O1";
  payment_no = codes "P1";
  status = refund_success;
  amount = codes "3.00";
  channel_refund_no = some (codes "W0");
  updated_at = 2;
}

abbrev pub tables : Db
tables = record {
  orders = order ∷ [];
  payments = payment ∷ [];
  refunds = first_refund ∷ [];
  ledger = [];
}

abbrev pub request_of : Bytes → CreateRefundRequest
request_of amount = record {
  order_no = codes "O1";
  payment_no = [];
  refund_no = codes "R2";
  amount = amount;
  reason = [];
  notify_url = [];
  funds_account = [];
}

order_amount : parse_amount_to_fen (codes "8.00") ≡ some 800
order_amount = parse-print_fen 800 (ground arith)

pub refund_amount : parse_amount_to_fen (codes "3.00") ≡ some 300
refund_amount = parse-print_fen 300 (ground arith)

pub tables-Inv : Inv (codes "O1") 800 tables
unfolding sum_fen bytes_eq parse_amount_to_fen check_parts default_yuan split_amount find_first
    scale pad_cents
tables-Inv = record { amounts = (λ e. order_amount, tt); covered = ground arith }

proceed_refund-Inv_example :
    Inv (codes "O1") 800 (proceed_refund service (request_of (codes "2.00")) tables).0
proceed_refund-Inv_example =
    proceed_refund-Inv service (codes "O1") 800 (request_of (codes "2.00")) tables
      numeric_sum_of-IsExactSum (ground arith) (λ p other v. v) tables-Inv

proceed_refund-Has_example :
    Has first_refund (proceed_refund service (request_of (codes "2.00")) tables).0.refunds
proceed_refund-Has_example =
    proceed_refund-Has service first_refund (request_of (codes "2.00")) tables refl (λ p other h. h)
      (inl refl)

-- The request is granted and its refund is settled; one for 6.00 is refused.
granted : has_data (proceed_refund service (request_of (codes "2.00")) tables).1 ≡ true
unfolding proceed_refund refuse_request choose_payment reply newest_attempt latest bytes_eq
    answer_with validate_payment find_one exactly_one proceed_order_flow check_amounts
    parse_amount_to_fen check_parts default_yuan split_amount find_first proceed_with_amount_check
    proceed_with_in_progress_check proceed_with_insert sum_under_lock sum_fen check_sum add_int64
    insert_and_commit commit_and_invoke invoke_refund_channel on_wechat_reply on_wechat_status
    map_refund_status update_refund_with_success settle_order settle_on_sum
    refunds_cover_order_amount refund_created scale pad_cents
granted = refl

refused :
    (proceed_refund service (request_of (codes "6.00")) tables).1
    ≡ failure 1409 (codes "refund amount exceeds paid")
unfolding proceed_refund refuse_request choose_payment reply newest_attempt latest bytes_eq
    answer_with validate_payment find_one exactly_one proceed_order_flow check_amounts
    parse_amount_to_fen check_parts default_yuan split_amount find_first proceed_with_amount_check
    proceed_with_in_progress_check proceed_with_insert sum_under_lock sum_fen check_sum add_int64
    insert_and_commit commit_and_invoke invoke_refund_channel on_wechat_reply on_wechat_status
    map_refund_status update_refund_with_success settle_order settle_on_sum
    refunds_cover_order_amount refund_created scale pad_cents
refused = refl

settle_order-covers_example :
    ((settle_order service (codes "O1") 300 refund_success (failure 0 []) tables).0 ≡ tables)
    ⊎ ((is_refund_success refund_success ≡ true)
        × ((n : ℕ) × ((parse_amount_to_fen
                  (numeric_sum_of (settled_amounts (codes "O1") tables.refunds))
                ≡ some n)
              × ((300 ≤ n)
                  × ((1 ≤ 300)
                      × (settle_order service (codes "O1") 300 refund_success (failure 0 []) tables
                          ≡ write_refunded_order service (codes "O1") (failure 0 []) tables))))))
settle_order-covers_example =
    settle_order-covers service (codes "O1") 300 refund_success (failure 0 []) tables

abbrev pub answer : Response
answer = (proceed_refund service (request_of (codes "2.00")) tables).1

abbrev pub keys_env : IdempotencyEnv Response
keys_env = record {
  write = λ hash response. codes "{}";
  read = λ text. some answer;
  ttl_seconds = 3600;
  reserve_time = 1000000;
  select_time = 2000000;
  reserve_fault = succeeds;
  select_fault = succeeds;
  update_fault = succeeds;
  delete_fault = succeeds;
  other_clients = λ p keys. keys;
}

abbrev pub request_env : RequestEnv
request_env = record {
  service = service;
  idempotency = keys_env;
  request_hash = λ order_no amount reason. order_no ++ (amount ++ reason);
}

keys_env-RunsClean : RunsClean keys_env
keys_env-RunsClean = record { reserves = refl; selects = refl; updates = refl }

create_refund-create_refund_example :
    let one : Outcome =
      create_refund request_env (request_of (codes "2.00")) (codes "K") [] tables in
    let two : Outcome =
      create_refund request_env (request_of (codes "5.00")) (codes "K") one.keys one.tables in
    (two.tables ≡ one.tables)
    × ((two.response ≡ (
          if bytes_eq
            (hash_of request_env (request_of (codes "2.00")))
            (hash_of request_env (request_of (codes "5.00")))
          then one.response
          else conflict_response))
        × (two.error_code ≡ (
            if bytes_eq
              (hash_of request_env (request_of (codes "2.00")))
              (hash_of request_env (request_of (codes "5.00")))
            then 0
            else 1409)))
create_refund-create_refund_example =
    create_refund-create_refund request_env request_env (request_of (codes "2.00"))
      (request_of (codes "5.00")) (codes "K") [] tables
      (create_refund request_env (request_of (codes "2.00")) (codes "K") [] tables).tables
      (λ p keys. refl) (λ p keys. refl) keys_env-RunsClean keys_env-RunsClean refl refl
      (ground arith) refl granted

create_refund-releases_example :
    any
      (has_key (codes "K"))
      (create_refund request_env (request_of (codes "6.00")) (codes "K") [] tables).keys
    ≡ false
create_refund-releases_example =
    create_refund-releases request_env (request_of (codes "6.00")) (codes "K") [] tables
      (λ p keys. refl) keys_env-RunsClean refl refl refl (ground arith) (rw refused refl)
      (rw refused (ground arith))
