-- ===== src/Tests/Sync.antt =====
-- The theorems on the channel's answers, at given inputs.

use drogon_pay.Common.{◌≤◌, ◌≡◌, refl, ◌⊎◌, true, none, some, [], ◌∷◌, arith, codes}
use drogon_pay.Common.Int.{pos}
use drogon_pay.Models.Status.{RefundStatus, refunding, refund_fail}
use drogon_pay.Models.Tables.{Db, succeeds}
use drogon_pay.Services.Refund.Types.{ChannelReply}
use drogon_pay.Services.Refund.Invoke.{Refund, on_wechat_reply}
use drogon_pay.Services.Refund.Covered.{IsCovered}
use drogon_pay.Services.Refund.Ledger.{insert_ledger_entry}
use drogon_pay.Services.Refund.Sync.{RefundResult, SyncEnv, sync_refund_status_from_wechat}
use drogon_pay.Services.Refund.SyncCovered.{sync_refund_status_from_wechat-IsCovered}
use drogon_pay.Services.Refund.LedgerOnce.{
  count_entries, count_entries-none, insert_ledger_entry-twice, sync_refund_status_from_wechat-once,
}
use drogon_pay.Services.Refund.ReplyCases.{status_of}
use drogon_pay.Services.Refund.Outcomes.{DidNotHappen, IsClosed, IsBooked, on_wechat_reply-ends}
use drogon_pay.Services.Refund.Refusals.{Means}
use drogon_pay.Tests.Refunds.{numeric_sum_of, service, first_refund, tables, tables-Inv}

abbrev pub sync_env : SyncEnv
sync_env = record {
  numeric_sum = numeric_sum_of;
  find_refund_fault = succeeds;
  update_refund_fault = succeeds;
  payload_fault = succeeds;
  find_order_fault = succeeds;
  lookup_ledger_fault = succeeds;
  insert_ledger_fault = succeeds;
  sum_fault = succeeds;
  update_order_fault = succeeds;
  commit_applied = true;
  between = λ db. db;
  query_fault = succeeds;
  query = none;
  during_query = λ db. db;
}

abbrev settled_result : RefundResult
settled_result = record { status = "SUCCESS"; refund_id = codes "W9" }

-- The refund of 3.00 while it is in progress.
abbrev open_tables : Db
open_tables = record tables { refunds = record first_refund { status = refunding } ∷ [] }

sync_refund_status_from_wechat-IsCovered_example :
    IsCovered
      (codes "O1")
      800
      (sync_refund_status_from_wechat sync_env (codes "R1") settled_result open_tables).0.refunds
sync_refund_status_from_wechat-IsCovered_example =
    sync_refund_status_from_wechat-IsCovered sync_env (codes "O1") 800 (codes "R1") settled_result
      open_tables (λ e. refl, tt) tables-Inv.covered tables-Inv.covered

sync_refund_status_from_wechat-once_example :
    count_entries
      (codes "O1")
      (codes "P1")
      (codes "REFUND")
      (sync_refund_status_from_wechat sync_env (codes "R1") settled_result open_tables).0.ledger
    ≤ 1
sync_refund_status_from_wechat-once_example =
    sync_refund_status_from_wechat-once sync_env (codes "O1") (codes "P1") (codes "R1")
      settled_result open_tables refl no_entry no_entry
  where
    no_entry : count_entries (codes "O1") (codes "P1") (codes "REFUND") [] ≤ 1
    no_entry = ground (arith, count_entries-none (codes "O1") (codes "P1") (codes "REFUND") [] refl)

insert_ledger_entry-twice_example :
    insert_ledger_entry succeeds succeeds
      (pos 5)
      (codes "O1")
      (codes "P1")
      (codes "REFUND")
      (codes "2.00")
      (insert_ledger_entry succeeds succeeds
        (pos 5)
        (codes "O1")
        (codes "P1")
        (codes "REFUND")
        (codes "3.00")
        [])
    ≡ insert_ledger_entry succeeds succeeds
        (pos 5)
        (codes "O1")
        (codes "P1")
        (codes "REFUND")
        (codes "3.00")
        []
insert_ledger_entry-twice_example =
    insert_ledger_entry-twice (pos 5) (pos 5) (codes "O1") (codes "P1") (codes "REFUND")
      (codes "3.00") (codes "2.00") [] refl refl

abbrev refund : Refund
refund = record {
  refund_no = codes "R2";
  order_no = codes "O1";
  payment_no = codes "P1";
  amount = codes "2.00";
  refund_fen = 200;
  total_fen = 800;
  currency = codes "CNY";
}

abbrev timed_out : ChannelReply
timed_out = record {
  status = "";
  refund_id = [];
  code = [];
  message = [];
  msg = [];
  error = codes "http request failed";
}

on_wechat_reply-ends_example :
    (DidNotHappen timed_out
      × IsClosed service (codes "R2") tables (on_wechat_reply service refund timed_out tables).0
      × ((on_wechat_reply service refund timed_out tables).1.code ≡ 1502)
      × (status_of (on_wechat_reply service refund timed_out tables).1 ≡ some refund_fail))
    ⊎ (((¬ DidNotHappen timed_out)
          × ((on_wechat_reply service refund timed_out tables).0 ≡ tables)
          × ((on_wechat_reply service refund timed_out tables).1.code ≡ 1502)
          × (status_of (on_wechat_reply service refund timed_out tables).1 ≡ some refunding))
        ⊎ ((s : RefundStatus) × (timed_out.error ≡ [])
            × Means timed_out.status s
            × IsBooked service refund s [] tables
                (on_wechat_reply service refund timed_out tables)))
on_wechat_reply-ends_example = on_wechat_reply-ends service refund timed_out tables
