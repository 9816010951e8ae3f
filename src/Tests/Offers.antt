-- ===== src/Tests/Offers.antt =====
-- The theorem on `createQRPayment`, at a given request.
use drogon_pay.Common.{◌≡◌, refl, ◌⊎◌, true, none, some, [], ◌∷◌, codes, bytes_eq}
use drogon_pay.Common.Int.{pos}
use drogon_pay.Models.Status.{processing}
use drogon_pay.Models.Tables.{Db, reply, succeeds}
use drogon_pay.Services.Idempotency.{check_database, update_result}
use drogon_pay.Services.Payment.Refusals.{QrResult, channel_result_error, normalize_qr_currency}
use drogon_pay.Services.Payment.QrOffer.{promote_order_row, promote_qr_rows, on_offer}
use drogon_pay.Services.Payment.Qr.{book_qr_payment, insert_qr_order, offer_qr_payment}
use drogon_pay.Services.Payment.QrRequest.{
  QrRequest, QrRequestEnv, qr_payload, check_qr_request, end_qr, on_qr_started, on_qr_check,
  create_qr_payment,
}
use drogon_pay.Services.Payment.QrCreates.{OffersNothingNew, AddsForRequest, create_qr_payment-adds}

abbrev qr_env : QrRequestEnv
qr_env = record {
  has_database = true;
  service = record {
    payment_no = codes "P7";
    created_at = 7;
    faults = λ call. succeeds;
    others = λ p db. db;
  };
  idempotency = record {
    write = λ hash response. hash;
    read = λ text. none;
    ttl_seconds = 60;
    reserve_time = 1;
    select_time = 2;
    reserve_fault = succeeds;
    select_fault = succeeds;
    update_fault = succeeds;
    delete_fault = succeeds;
    other_clients = λ p rows. rows;
  };
  now_seconds = pos 0;
  request_hash = λ request user_id currency. codes "H";
  find_channel = λ channel. some (λ payload. (created_code, []));
}
  where
    created_code : QrResult
    created_code = record {
      code = codes "10000";
      sub_code = [];
      sub_msg = [];
      msg = [];
      message = [];
      code_url = none;
      prepay_id = none;
      qr_code = some (codes "https://qr");
      out_trade_no = some (codes "O7");
    }

abbrev qr_request : QrRequest
qr_request = record {
  order_no = codes "O7";
  amount = codes "8.00";
  channel = codes "alipay";
  subject = codes "Payment";
  time_expire = [];
  user_id = some (pos 5);
  currency = codes "CNY";
  notify_url = [];
  buyer_id = none;
  idempotency_key = none;
}

abbrev no_tables : Db
no_tables = record { orders = []; payments = []; refunds = []; ledger = [] }

create_qr_payment-adds_example :
    (((create_qr_payment qr_env qr_request [] no_tables).tables.payments ≡ [])
      × OffersNothingNew qr_env qr_request []
          (create_qr_payment qr_env qr_request [] no_tables).response)
    ⊎ AddsForRequest qr_env qr_request no_tables
        (create_qr_payment qr_env qr_request [] no_tables).tables.payments
create_qr_payment-adds_example =
    create_qr_payment-adds qr_env qr_request [] no_tables (λ p db. refl)

-- The attempt is there and waits for its payment.
offered :
    (create_qr_payment qr_env qr_request [] no_tables).tables.payments
    ≡ record {
      payment_no = codes "P7";
      order_no = codes "O7";
      status = processing;
      amount = codes "8.00";
      channel_trade_no = [];
      created_at = 7;
    }
      ∷ []
unfolding create_qr_payment check_database on_qr_check on_qr_started check_qr_request
    normalize_qr_currency qr_payload bytes_eq offer_qr_payment reply insert_qr_order book_qr_payment
    on_offer channel_result_error promote_qr_rows promote_order_row end_qr update_result
offered = refl
