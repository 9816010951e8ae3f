-- ===== src/Tests/Payments.antt =====
-- The theorems on the syncs of payments, at given inputs.

use drogon_pay.Common.{◌≡◌, refl, true, [], ◌∷◌, codes, find_first, bytes_eq}
use drogon_pay.Common.Int.{pos}
use drogon_pay.Models.Status.{paid}
use drogon_pay.Models.Tables.{exactly_one, find_one, latest, succeeds}
use drogon_pay.Utils.Amount.{
  stoll, split_amount, default_yuan, pad_cents, scale, check_parts, parse_amount_to_fen,
  amount_equals_fen,
}
use drogon_pay.Services.Refund.Ledger.{is_same_entry, ledger_row, insert_ledger_entry}
use drogon_pay.Services.Payment.Sync.{
  PaymentSyncEnv, reconcile_amount_problem, write_synced_order, judge_order, on_synced_order,
  find_synced_order, advance_synced_payment, sync_attempt, end_payment_sync, on_synced_attempt,
  sync_claim,
}
use drogon_pay.Services.Payment.Answers.{
  WechatAnswer, AlipayAnswer, sync_order_status_from_wechat, map_alipay_status, notified_fen,
  sync_order_status_from_alipay,
}
use drogon_pay.Utils.Status.Settles.{IsCollected}
use drogon_pay.Services.Payment.Verdicts.{IsPaidTrade}
use drogon_pay.Services.Payment.Pays.{
  LedgerPays, sync_order_status_from_wechat-LedgerPays, sync_order_status_from_alipay-LedgerPays,
}
use drogon_pay.Tests.Refunds.{numeric_sum_of}
use drogon_pay.Tests.Callbacks.{open_store}

abbrev pub sync_env : PaymentSyncEnv
sync_env = record {
  numeric_sum = numeric_sum_of;
  find_attempt_fault = succeeds;
  sum_fault = succeeds;
  find_order_fault = succeeds;
  update_payment_fault = succeeds;
  update_order_fault = succeeds;
  lookup_ledger_fault = succeeds;
  insert_ledger_fault = succeeds;
  commit_applied = true;
  between = λ db. db;
}

abbrev pub wechat_answer : WechatAnswer
wechat_answer = record { trade_state = "SUCCESS"; transaction_id = codes "T9"; total = pos 800 }

abbrev alipay_answer : AlipayAnswer
alipay_answer = record {
  code = codes "10000";
  trade_status_text = "TRADE_SUCCESS";
  trade_no = codes "A9";
  total_amount = codes "8.00";
}

sync_order_status_from_wechat-LedgerPays_example :
    LedgerPays sync_env
      (codes "O1")
      (IsCollected wechat_answer.trade_state)
      (pos 800)
      open_store.tables
      (sync_order_status_from_wechat sync_env (codes "O1") wechat_answer open_store.tables).0.ledger
sync_order_status_from_wechat-LedgerPays_example =
    sync_order_status_from_wechat-LedgerPays sync_env (codes "O1") wechat_answer open_store.tables

sync_order_status_from_alipay-LedgerPays_example :
    LedgerPays sync_env
      (codes "O1")
      (IsPaidTrade alipay_answer)
      (notified_fen paid (codes "8.00"))
      open_store.tables
      (sync_order_status_from_alipay sync_env (codes "O1") alipay_answer open_store.tables).0.ledger
sync_order_status_from_alipay-LedgerPays_example =
    sync_order_status_from_alipay-LedgerPays sync_env (codes "O1") alipay_answer open_store.tables

-- The payment is booked; a second answer changes nothing.
booked :
    (sync_order_status_from_alipay sync_env (codes "O1") alipay_answer open_store.tables).0.ledger
    ≡ ledger_row (pos 5) (codes "O1") (codes "P1") (codes "PAYMENT") (codes "8.00") ∷ []
unfolding sync_order_status_from_alipay bytes_eq map_alipay_status sync_claim latest
    on_synced_attempt reconcile_amount_problem parse_amount_to_fen check_parts default_yuan
    split_amount find_first scale pad_cents stoll sync_attempt advance_synced_payment
    find_synced_order find_one exactly_one on_synced_order judge_order amount_equals_fen
    write_synced_order insert_ledger_entry is_same_entry end_payment_sync
booked = refl
