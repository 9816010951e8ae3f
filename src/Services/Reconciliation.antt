-- ===== src/Services/Reconciliation.antt =====
-- services/ReconciliationService.cc: the sweeps over pending orders and refunds, each a sequence of
-- syncs. The channel answers in any order; the sequence is that of the rows, and the other writers,
-- other answers among them, run before each sync and inside it.
pub mod Asks
pub mod Newest
pub mod Payments
use drogon_pay.Common.{
  ℕ, suc, ◌-◌, ◌*◌, Bool, true, false, ◌&&◌, Option, none, some, List, [], ◌∷◌, str_eq, ltb,
  if◌then◌else◌, Bytes, codes, take, bytes_eq,
}
use drogon_pay.Common.Int.{ℤ, pos_part, ltb_ℤ, pos}
use drogon_pay.Models.Status.{
  OrderStatus, is_unsettled, created, paying, paid, refunded, closed, failed,
}
use drogon_pay.Models.Tables.{
  OrderRow, RefundRow, Db, Fault, select, succeeds, raises, mapper_fails,
}
use drogon_pay.Services.Idempotency.{IdempotencyRow, purge_expired}
use drogon_pay.Services.Refund.Sync.{RefundResult, SyncEnv, sync_refund_status_from_wechat}
use drogon_pay.Services.Payment.Sync.{PaymentSyncEnv}
use drogon_pay.Services.Payment.Answers.{
  WechatAnswer, AlipayAnswer, sync_order_status_from_wechat, sync_order_status_from_alipay,
}

-- A channel, as far as a sweep calls it; a query without an answer is an error.
pub record WechatView : Type 0 where
  pub is_configured : Bool
  pub query_payment : Bytes → Option WechatAnswer
  pub query_refund : Bytes → Option RefundResult

pub record AlipayView : Type 0 where
  pub is_configured : Bool
  pub query_payment : Bytes → Option AlipayAnswer

-- The columns of an order that the database keeps, and its deadline, in microseconds.
pub record OrderTimes : Type 0 where
  pub created_at : ℕ
  pub updated_at : ℕ
  pub expire_at : Option ℕ

pub record ReconcileEnv : Type 0 where
  pub wechat : Option WechatView
  pub alipay : Option AlipayView
  pub batch_size : ℕ
  pub now : ℕ
  pub times : OrderRow → OrderTimes
  pub find_wechat_fault : Fault
  pub find_alipay_fault : Fault
  pub find_refunds_fault : Fault
  pub purge_fault : Fault
  pub payment_env : Bytes → PaymentSyncEnv
  pub refund_env : Bytes → SyncEnv
  pub meanwhile : Bytes → Db → Db

-- `setReconcileOptions`: a number that is not positive leaves the option as it was.
pub record ReconcileOptions : Type 0 where
  pub interval_seconds : ℕ
  pub batch_size : ℕ

abbrev pub default_options : ReconcileOptions
default_options = record { interval_seconds = 300; batch_size = 50 }

unfoldable pub set_reconcile_options : ℤ → ℤ → ReconcileOptions → ReconcileOptions
set_reconcile_options interval_seconds batch_size options = record {
  interval_seconds =
      if ltb_ℤ (pos 0) interval_seconds
      then pos_part interval_seconds
      else options.interval_seconds;
  batch_size = if ltb_ℤ (pos 0) batch_size then pos_part batch_size else options.batch_size;
}

module _ {ℓ} {A : Type ℓ} (key : A → ℕ) where
  -- `ORDER BY key DESC`
  abbrev pub place_newest : A → List A → List A
  place_newest x [] = x ∷ []
  place_newest x (y ∷ ys) = if ltb (key x) (key y) then y ∷ place_newest x ys else x ∷ y ∷ ys

  abbrev pub newest_first : List A → List A
  newest_first [] = []
  newest_first (x ∷ xs) = place_newest x (newest_first xs)

-- What a sweep leaves, the orders that it asked the channel for, and those that it closed there.
pub record Swept : Type 0 where
  pub tables : Db
  pub queried : List Bytes
  pub closed_orders : List Bytes
  pub failures : ℕ

abbrev pub before_sweep : Db → Swept
before_sweep db = record { tables = db; queried = []; closed_orders = []; failures = 0 }

-- The query goes out, whatever the channel answers.
abbrev pub note_query : Bytes → Swept → Swept
note_query order_no swept = record swept { queried = order_no ∷ swept.queried }

module _ (env : ReconcileEnv) where
  abbrev pub is_waiting : OrderRow → OrderStatus → Bool
  is_waiting row paying = true
  is_waiting row created = ltb (env.times row).created_at (env.now - 300 * 1000000)
  is_waiting row paid = false
  is_waiting row refunded = false
  is_waiting row closed = false
  is_waiting row failed = false

  -- PAYING, or CREATED more than five minutes ago.
  abbrev pub is_pending : Bytes → OrderRow → Bool
  is_pending channel row = bytes_eq row.channel channel && is_waiting row row.status

  abbrev pub pending_orders : Bytes → Db → List OrderRow
  pending_orders channel db = take env.batch_size (
      newest_first (λ (row : OrderRow). (env.times row).updated_at)
        (select (is_pending channel) db.orders))

  abbrev pub pending_refunds : Db → List RefundRow
  pending_refunds db = take env.batch_size (
      newest_first (λ (row : RefundRow). row.updated_at)
        (select (λ (row : RefundRow). is_unsettled row.status) db.refunds))

  abbrev pub is_past : Option ℕ → Bool
  is_past none = false
  is_past (some deadline) = ltb deadline env.now

  -- Only an order that is unpaid on the channel and past its deadline is closed there.
  abbrev pub closes : WechatAnswer → OrderRow → Bool
  closes answer row = str_eq answer.trade_state "NOTPAY" && is_past (env.times row).expire_at

  abbrev pub on_wechat_answer : OrderRow → WechatAnswer → Swept → Swept
  on_wechat_answer row answer swept = record swept {
    tables =
        (sync_order_status_from_wechat (env.payment_env row.order_no) row.order_no answer
          (env.meanwhile row.order_no swept.tables)).0;
    closed_orders =
        if closes answer row then row.order_no ∷ swept.closed_orders else swept.closed_orders;
  }

  abbrev pub on_alipay_answer : OrderRow → AlipayAnswer → Swept → Swept
  on_alipay_answer row answer swept = record swept {
    tables =
        (sync_order_status_from_alipay (env.payment_env row.order_no) row.order_no answer
          (env.meanwhile row.order_no swept.tables)).0;
  }

  abbrev pub on_refund_answer : RefundRow → RefundResult → Swept → Swept
  on_refund_answer row result swept = record swept {
    tables =
        (sync_refund_status_from_wechat (env.refund_env row.refund_no) row.refund_no result
          (env.meanwhile row.refund_no swept.tables)).0;
  }

  unfoldable pub sweep_wechat_orders : WechatView → List OrderRow → Swept → Swept
  sweep_wechat_orders channel [] swept = swept
  sweep_wechat_orders channel (row ∷ rows) swept = elim (channel.query_payment row.order_no) [
    | none ↦ sweep_wechat_orders channel rows (note_query row.order_no swept)
    | some answer ↦
        sweep_wechat_orders channel rows
          (on_wechat_answer row answer (note_query row.order_no swept))
  ]

  unfoldable pub sweep_alipay_orders : AlipayView → List OrderRow → Swept → Swept
  sweep_alipay_orders channel [] swept = swept
  sweep_alipay_orders channel (row ∷ rows) swept = elim (channel.query_payment row.order_no) [
    | none ↦ sweep_alipay_orders channel rows (note_query row.order_no swept)
    | some answer ↦
        sweep_alipay_orders channel rows
          (on_alipay_answer row answer (note_query row.order_no swept))
  ]

  unfoldable pub sweep_refunds : WechatView → List RefundRow → Swept → Swept
  sweep_refunds channel [] swept = swept
  sweep_refunds channel (row ∷ rows) swept = elim (channel.query_refund row.refund_no) [
    | none ↦ sweep_refunds channel rows swept
    | some result ↦ sweep_refunds channel rows (on_refund_answer row result swept)
  ]

  -- A Mapper that cannot be made is counted, an exception is logged only.
  abbrev pub count_failure : Fault → Swept → Swept
  count_failure succeeds swept = swept
  count_failure (raises what) swept = swept
  count_failure (mapper_fails what) swept = record swept { failures = suc swept.failures }

  abbrev pub unless_fault : Fault → (Swept → Swept) → Swept → Swept
  unless_fault succeeds sweep swept = sweep swept
  unless_fault (raises what) sweep swept = count_failure (raises what) swept
  unless_fault (mapper_fails what) sweep swept = count_failure (mapper_fails what) swept

  unfoldable pub sync_pending_wechat_orders : WechatView → Swept → Swept
  sync_pending_wechat_orders channel =
      unless_fault env.find_wechat_fault
        (λ swept. sweep_wechat_orders channel (pending_orders (codes "wechat") swept.tables) swept)

  unfoldable pub sync_pending_alipay_orders : AlipayView → Swept → Swept
  sync_pending_alipay_orders channel =
      unless_fault env.find_alipay_fault
        (λ swept. sweep_alipay_orders channel (pending_orders (codes "alipay") swept.tables) swept)

  unfoldable pub sync_pending_refunds : WechatView → Swept → Swept
  sync_pending_refunds channel =
      unless_fault env.find_refunds_fault
        (λ swept. sweep_refunds channel (pending_refunds swept.tables) swept)

  -- A channel that is there and configured.
  abbrev pub when_wechat {ℓ} : {A : Type ℓ} → (WechatView → A → A) → A → A
  when_wechat sweep a = elim env.wechat [
    | none ↦ a
    | some channel ↦ if channel.is_configured then sweep channel a else a
  ]

  abbrev pub when_alipay {ℓ} : {A : Type ℓ} → (AlipayView → A → A) → A → A
  when_alipay sweep a = elim env.alipay [
    | none ↦ a
    | some channel ↦ if channel.is_configured then sweep channel a else a
  ]

  -- The sweeps, one behind the other; how many there are, and what the purge leaves of the keys.
  unfoldable pub reconcile : Db → List IdempotencyRow → (Swept × ℕ) × List IdempotencyRow
  reconcile db keys = (
    (
      when_wechat sync_pending_refunds (
          when_alipay sync_pending_alipay_orders
            (when_wechat sync_pending_wechat_orders (before_sweep db))),
      when_wechat (λ channel n. suc n)
          (when_alipay (λ channel n. suc n) (when_wechat (λ channel n. suc n) 0)),
    ),
    (purge_expired env.purge_fault env.now keys).0,
  )
