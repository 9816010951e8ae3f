-- ===== src/Tests/Sweeps.antt =====
-- The theorems on the reconciliation sweeps, at given inputs.

use drogon_pay.Common.{refl, inl, true, none, some, [], ◌∷◌, codes}
use drogon_pay.Models.Status.{paying}
use drogon_pay.Models.Tables.{OrderRow, Db, succeeds}
use drogon_pay.Models.Lifecycle.{Grows-refl, PaymentMoves, PaymentsEvolve, PaymentMoves-refl}
use drogon_pay.Services.Reconciliation.{
  WechatView, AlipayView, ReconcileEnv, before_sweep, sync_pending_wechat_orders,
  sync_pending_alipay_orders, reconcile,
}
use drogon_pay.Services.Reconciliation.Asks.{
  AskedFor, sync_pending_wechat_orders-AskedFor, sync_pending_alipay_orders-AskedFor,
}
use drogon_pay.Services.Reconciliation.Payments.{OthersEvolve, reconcile-PaymentsEvolve}
use drogon_pay.Tests.Callbacks.{open_store}
use drogon_pay.Tests.Refunds.{order}
use drogon_pay.Tests.Sync.{sync_env as refund_sync_env}
use drogon_pay.Tests.Payments.{sync_env, wechat_answer}

abbrev wechat_view : WechatView
wechat_view = record {
  is_configured = true;
  query_payment = λ order_no. some wechat_answer;
  query_refund = λ refund_no. none;
}

abbrev reconcile_env : ReconcileEnv
reconcile_env = record {
  wechat = some wechat_view;
  alipay = none;
  batch_size = 50;
  now = 900000000;
  times = λ row. record { created_at = 0; updated_at = 0; expire_at = none };
  find_wechat_fault = succeeds;
  find_alipay_fault = succeeds;
  find_refunds_fault = succeeds;
  purge_fault = succeeds;
  payment_env = λ order_no. sync_env;
  refund_env = λ refund_no. refund_sync_env;
  meanwhile = λ key db. db;
}

abbrev waiting_order : OrderRow
waiting_order = record order { status = paying; channel = codes "wechat" }

abbrev waiting_tables : Db
waiting_tables = record open_store.tables { orders = waiting_order ∷ [] }

alone : OthersEvolve reconcile_env
alone = record {
  before_sync = λ key db. Grows-refl PaymentMoves PaymentMoves-refl db.payments;
  in_payment = λ key db. Grows-refl PaymentMoves PaymentMoves-refl db.payments;
  in_refund = λ key db. Grows-refl PaymentMoves PaymentMoves-refl db.payments;
}

reconcile-PaymentsEvolve_example :
    PaymentsEvolve waiting_tables.payments
      (reconcile reconcile_env waiting_tables []).0.0.tables.payments
reconcile-PaymentsEvolve_example = reconcile-PaymentsEvolve reconcile_env alone waiting_tables []

abbrev alipay_view : AlipayView
alipay_view = record { is_configured = true; query_payment = λ order_no. none }

abbrev alipay_order : OrderRow
alipay_order = record order { status = paying; channel = codes "alipay" }

abbrev alipay_tables : Db
alipay_tables = record open_store.tables { orders = alipay_order ∷ [] }

sync_pending_wechat_orders-AskedFor_example :
    AskedFor reconcile_env
      (codes "wechat")
      waiting_order
      waiting_tables
      (sync_pending_wechat_orders reconcile_env wechat_view (before_sweep waiting_tables)).queried
sync_pending_wechat_orders-AskedFor_example =
    sync_pending_wechat_orders-AskedFor reconcile_env wechat_view waiting_order waiting_tables refl
      (refl, inl refl) (inl refl)

sync_pending_alipay_orders-AskedFor_example :
    AskedFor reconcile_env
      (codes "alipay")
      alipay_order
      alipay_tables
      (sync_pending_alipay_orders reconcile_env alipay_view (before_sweep alipay_tables)).queried
sync_pending_alipay_orders-AskedFor_example =
    sync_pending_alipay_orders-AskedFor reconcile_env alipay_view alipay_order alipay_tables refl
      (refl, inl refl) (inl refl)
