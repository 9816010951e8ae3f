-- ===== src/Tests/Callbacks.antt =====
-- The theorems on notifications, at given inputs.

use drogon_pay.Common.{
  ◌+◌, ◌^◌, ◌≤◌, ◌≡◌, refl, ◌↔◌, ◌⊎◌, inr, false, none, some, [], ◌∷◌, arith, Bytes, codes,
  find_first, bytes_eq, starts_with,
}
use drogon_pay.Common.Int.{◌-ℤ◌, pos}
use drogon_pay.Models.Status.{paying, processing, refunding}
use drogon_pay.Models.Tables.{exactly_one, find_one, latest, succeeds, raises}
use drogon_pay.Models.Lifecycle.{
  Grows-refl, PaymentMoves, PaymentsEvolve, PaymentMoves-refl, RefundMoves, RefundMoves-refl,
  RefundsEvolve,
}
use drogon_pay.Utils.Amount.{
  stoll, split_amount, default_yuan, pad_cents, scale, check_parts, parse_amount_to_fen,
}
use drogon_pay.Utils.Status.{map_trade_state, map_refund_status, refunds_cover_order_amount}
use drogon_pay.Services.Callback.Types.{
  Delivery, WechatClient, Notice, Trade, RefundTrade, Store, Env,
}
use drogon_pay.Services.Callback.Window.{read_positive, read_sign, stoll_signed, is_timestamp_fresh}
use drogon_pay.Services.Callback.Window.Fresh.{is_timestamp_fresh_iff}
use drogon_pay.Services.Callback.Reserve.{reserve_key, finalize_reservation}
use drogon_pay.Services.Callback.Verify.{
  check_resource, check_notice, decrypt, verify_signature, open_envelope, check_merchant,
  check_nonce,
}
use drogon_pay.Services.Callback.Trade.{
  Accepted, income_row, known_trade_state, check_members, trade_problem,
}
use drogon_pay.Services.Callback.Payment.{
  insert_income, resolve_status, commit_finalized, finish_income, write_order, advance_payment,
  write_payment, end_transaction, settle_payment, on_order, on_attempt, run_transaction,
}
use drogon_pay.Services.Callback.Deliver.{
  on_reserved, process_new, on_lookup, proceed_with_db, check_trade, read_transaction, accept,
  on_accepted, handle_payment_callback,
}
use drogon_pay.Services.Callback.Refund.{
  AcceptedRefund, check_refund_members, refund_amount_problem, refund_currency_problem, outgo_row,
  insert_outgo, commit_refund, finish_refund, cover_order, sum_refund, book_refund, write_payload,
  write_refund,
}
use drogon_pay.Services.Callback.RefundDeliver.{
  on_refund_order, on_refund_row, on_refund_status, on_refund_reserved, process_new_refund,
  on_refund_lookup, proceed_refund_db, check_refund_trade, read_refund_notice, accept_refund,
  on_accepted_refund, handle_refund_callback,
}
use drogon_pay.Services.Callback.Accepts.{Brings, BringsRefund}
use drogon_pay.Services.Callback.Settled.{Told, Settles}
use drogon_pay.Services.Callback.AllOrNothing.{handle_payment_callback-Settles}
use drogon_pay.Services.Callback.Lifecycle.{handle_payment_callback-PaymentsEvolve}
use drogon_pay.Services.Callback.Twice.{handle_payment_callback-handle_payment_callback}
use drogon_pay.Services.Callback.RefundSettled.{RefundSettles}
use drogon_pay.Services.Callback.RefundEnds.{
  handle_refund_callback-RefundSettles, handle_refund_callback-RefundsEvolve,
}
use drogon_pay.Services.Refund.Covered.{sum_fen}
use drogon_pay.Tests.Refunds.{numeric_sum_of, order, payment, first_refund, tables}

abbrev delivery : Delivery
delivery = record {
  body = codes "body";
  signature = codes "good";
  timestamp = codes "1000";
  nonce = codes "N1";
  serial_no = codes "S1";
}

abbrev client : WechatClient
client = record {
  verify_callback = λ timestamp nonce body signature serial_no. bytes_eq signature (codes "good");
  decrypt_resource = λ ciphertext nonce associated. inr ciphertext;
  app_id = codes "APP";
  mch_id = codes "MCH";
}

abbrev notice_of : Bytes → Bytes → Notice
notice_of event_type associated = record {
  id = codes "EV1";
  event_type = event_type;
  resource_type = codes "encrypt-resource";
  resource = some (record {
    algorithm = codes "AEAD_AES_256_GCM";
    ciphertext = codes "secret";
    resource_nonce = codes "RN";
    associated_data = associated;
  });
}

abbrev trade : Trade
trade = record {
  appid = codes "APP";
  mchid = codes "MCH";
  out_trade_no = codes "O1";
  transaction_id = codes "T9";
  trade_state = "SUCCESS";
  currency = codes "CNY";
  total = pos 800;
  payer_total = some (pos 700);
}

abbrev refund_trade : RefundTrade
refund_trade = record {
  appid = [];
  mchid = [];
  out_trade_no = codes "O1";
  out_refund_no = codes "R1";
  refund_status = "SUCCESS";
  refund_id = codes "W9";
  currency = [];
  refund = pos 300;
}

-- A channel that sends transactions.
abbrev paying_env : Env
paying_env = record {
  wechat_client = some client;
  redis = none;
  read_notice = λ body. some (notice_of (codes "TRANSACTION.SUCCESS") (codes "transaction"));
  read_trade = λ text. some trade;
  read_refund = λ text. none;
  md5 = λ text. text;
  now_sec = 1200;
  now = 1200000000;
  uuid = codes "1-2";
  numeric_sum = numeric_sum_of;
  faults = λ statement. succeeds;
  commit_applied = false;
  others = λ p s. s;
}

-- The same channel, an hour later.
abbrev later_env : Env
later_env = record paying_env {
  now_sec = 4800;
  uuid = codes "3-4";
  faults = λ statement. raises (codes "down");
}

abbrev refunding_env : Env
refunding_env = record paying_env {
  read_notice = λ body. some (notice_of (codes "REFUND.SUCCESS") (codes "refund"));
  read_refund = λ text. some refund_trade;
}

-- The order while its payment is open.
abbrev pub open_store : Store
open_store = record {
  tables = record {
    orders = record order { status = paying } ∷ [];
    payments = record payment { status = processing; channel_trade_no = [] } ∷ [];
    refunds = [];
    ledger = [];
  };
  reservations = [];
  callbacks = [];
}

-- The refund of 3.00 while it is in progress.
abbrev refund_store : Store
refund_store = record {
  tables = record tables { refunds = record first_refund { status = refunding } ∷ [] };
  reservations = [];
  callbacks = [];
}

handle_payment_callback-Settles_example :
    ((handle_payment_callback paying_env delivery open_store).0.tables ≡ open_store.tables)
    ⊎ (((accepted : Accepted) × Brings paying_env delivery accepted
          × Settles paying_env delivery accepted open_store.tables open_store.tables
              (handle_payment_callback paying_env delivery open_store).0.tables)
        × Told paying_env (handle_payment_callback paying_env delivery open_store).1)
handle_payment_callback-Settles_example =
    handle_payment_callback-Settles paying_env delivery open_store (λ p t. refl)

handle_payment_callback-PaymentsEvolve_example :
    PaymentsEvolve open_store.tables.payments
      (handle_payment_callback paying_env delivery open_store).0.tables.payments
handle_payment_callback-PaymentsEvolve_example =
    handle_payment_callback-PaymentsEvolve paying_env delivery open_store
      (λ p t. Grows-refl PaymentMoves PaymentMoves-refl t.tables.payments)

handle_payment_callback-handle_payment_callback_example :
    ((handle_payment_callback paying_env delivery open_store).0.tables ≡ open_store.tables)
    ⊎ ((handle_payment_callback later_env delivery
          (handle_payment_callback paying_env delivery open_store).0).0.tables
        ≡ (handle_payment_callback paying_env delivery open_store).0.tables)
handle_payment_callback-handle_payment_callback_example =
    handle_payment_callback-handle_payment_callback paying_env later_env delivery open_store
      (λ p t. refl) (λ p t. refl) refl refl refl

handle_refund_callback-RefundSettles_example :
    ((handle_refund_callback refunding_env delivery refund_store).0.tables ≡ refund_store.tables)
    ⊎ (((accepted : AcceptedRefund) × BringsRefund refunding_env delivery accepted
          × RefundSettles refunding_env delivery accepted refund_store.tables refund_store.tables
              (handle_refund_callback refunding_env delivery refund_store).0.tables)
        × Told refunding_env (handle_refund_callback refunding_env delivery refund_store).1)
handle_refund_callback-RefundSettles_example =
    handle_refund_callback-RefundSettles refunding_env delivery refund_store (λ p t. refl)

handle_refund_callback-RefundsEvolve_example :
    RefundsEvolve refund_store.tables.refunds
      (handle_refund_callback refunding_env delivery refund_store).0.tables.refunds
handle_refund_callback-RefundsEvolve_example =
    handle_refund_callback-RefundsEvolve refunding_env delivery refund_store
      (λ p t. Grows-refl RefundMoves RefundMoves-refl t.tables.refunds)

is_timestamp_fresh_iff_example :
    (is_timestamp_fresh 1200 (codes "1000") ≡ none)
    ↔ (((1200 + 0 ≤ 1000 + 300) × (1000 ≤ 1200 + 0 + 300)) ⊎ (1200 + 0 ≡ 2 ^ 63))
unfolding stoll_signed read_sign read_positive
is_timestamp_fresh_iff_example =
    is_timestamp_fresh_iff 1200 (codes "1000") (pos 1000) (ground arith) refl

-- The order of 8.00 is booked, once.
booked_once :
    (handle_payment_callback paying_env delivery open_store).0.tables.ledger
    ≡ income_row order (codes "O1") (codes "P1") ∷ []
unfolding handle_payment_callback accept open_envelope verify_signature bytes_eq is_timestamp_fresh
    stoll_signed read_sign read_positive ◌-ℤ◌ decrypt check_notice starts_with check_resource
    read_transaction check_trade check_merchant check_members known_trade_state on_accepted
    check_nonce proceed_with_db on_lookup process_new reserve_key on_reserved run_transaction latest
    on_attempt find_one exactly_one on_order settle_payment trade_problem parse_amount_to_fen
    check_parts default_yuan split_amount find_first scale pad_cents stoll resolve_status
    map_trade_state write_payment advance_payment write_order insert_income finish_income
    finalize_reservation commit_finalized end_transaction
booked_once = refl

paid_out_once :
    (handle_refund_callback refunding_env delivery refund_store).0.tables.ledger
    ≡ outgo_row order first_refund ∷ []
unfolding handle_refund_callback accept_refund open_envelope verify_signature bytes_eq
    is_timestamp_fresh stoll_signed read_sign read_positive ◌-ℤ◌ decrypt check_notice starts_with
    check_resource read_refund_notice check_refund_trade check_merchant check_refund_members
    on_accepted_refund check_nonce proceed_refund_db on_refund_lookup process_new_refund reserve_key
    on_refund_reserved on_refund_status map_refund_status on_refund_row find_one exactly_one
    refund_amount_problem on_refund_order refund_currency_problem parse_amount_to_fen check_parts
    default_yuan split_amount find_first scale pad_cents stoll write_refund write_payload
    insert_outgo book_refund sum_refund cover_order refunds_cover_order_amount finish_refund
    finalize_reservation commit_refund end_transaction sum_fen
paid_out_once = refl
