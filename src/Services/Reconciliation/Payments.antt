-- ===== src/Services/Reconciliation/Payments.antt =====
-- About what `reconcile` leaves of the payments.

use drogon_pay.Services.Payment.SyncEnds.{
  sync_order_status_from_wechat-PaymentsEvolve, sync_order_status_from_alipay-PaymentsEvolve,
}
use drogon_pay.Common.{
  inl, inr, Bool, true, false, Option, none, some, List, [], ◌∷◌, if◌then◌else◌, Option-cases,
  Bytes,
}
use drogon_pay.Models.Tables.{
  OrderRow, PaymentRow, RefundRow, Db, Fault, succeeds, raises, mapper_fails,
}
use drogon_pay.Models.Lifecycle.{
  Grows-refl, PaymentMoves, PaymentsEvolve, PaymentMoves-refl, PaymentsEvolve-trans,
}
use drogon_pay.Services.Refund.Sync.{RefundResult, sync_refund_status_from_wechat}
use drogon_pay.Services.Refund.SyncWalk.{sync_refund_status_from_wechat-keeps}
use drogon_pay.Services.Idempotency.{IdempotencyRow}
use drogon_pay.Services.Reconciliation.{
  WechatView, AlipayView, ReconcileEnv, Swept, before_sweep, note_query, on_wechat_answer,
  on_alipay_answer, on_refund_answer, sweep_wechat_orders, sweep_alipay_orders, sweep_refunds,
  unless_fault, sync_pending_wechat_orders, sync_pending_alipay_orders, sync_pending_refunds,
  when_wechat, when_alipay, reconcile,
}

-- The other writers, between two syncs and inside each one, take payments along their diagram.
pub record OthersEvolve (env : ReconcileEnv) : Type 0 where
  pub before_sync :
      (key : Bytes) (db : Db) → PaymentsEvolve db.payments (env.meanwhile key db).payments
  pub in_payment :
      (key : Bytes) (db : Db)
      → PaymentsEvolve db.payments ((env.payment_env key).between db).payments
  pub in_refund :
      (key : Bytes) (db : Db)
      → PaymentsEvolve db.payments ((env.refund_env key).between db).payments

module _ (env : ReconcileEnv) (others : OthersEvolve env) where
  unchanged : (db : Db) → PaymentsEvolve db.payments db.payments
  unchanged db = Grows-refl PaymentMoves PaymentMoves-refl db.payments

  sync_refund-PaymentsEvolve :
      (refund_no : Bytes) (result : RefundResult) (db : Db)
      → PaymentsEvolve db.payments
          (sync_refund_status_from_wechat (env.refund_env refund_no) refund_no result db).0.payments
  sync_refund-PaymentsEvolve refund_no result db =
      sync_refund_status_from_wechat-keeps (env.refund_env refund_no)
        (λ other. PaymentsEvolve db.payments other.payments) (λ a b c d e f other evolved. evolved)
        (λ a other evolved. evolved) refund_no result db (unchanged db)
        (others.in_refund refund_no db)
        (λ refund refund_status refund_id found. others.in_refund refund_no db)

  -- A sync, behind what the other writers do before it.
  after_others :
      (key : Bytes) (db r : Db)
      → PaymentsEvolve (env.meanwhile key db).payments r.payments
      → PaymentsEvolve db.payments r.payments
  after_others key db r e =
      PaymentsEvolve-trans db.payments (env.meanwhile key db).payments r.payments
        (others.before_sync key db) e

  then_rest :
      (key : Bytes) (before after : Db) (rest : List PaymentRow)
      → PaymentsEvolve (env.meanwhile key before).payments after.payments
      → PaymentsEvolve after.payments rest
      → PaymentsEvolve before.payments rest
  then_rest key before after rest synced evolved =
      PaymentsEvolve-trans before.payments after.payments rest
        (after_others key before after synced) evolved

  sweep_wechat_orders-PaymentsEvolve :
      (channel : WechatView) (rows : List OrderRow) (swept : Swept)
      → PaymentsEvolve swept.tables.payments
          (sweep_wechat_orders env channel rows swept).tables.payments
  unfolding sweep_wechat_orders
  sweep_wechat_orders-PaymentsEvolve channel [] swept = unchanged swept.tables
  sweep_wechat_orders-PaymentsEvolve channel (row ∷ rows) swept =
      elim (Option-cases (channel.query_payment row.order_no)) [
        | inl silent ↦
            rw (sweep_wechat_orders, silent)
              (sweep_wechat_orders-PaymentsEvolve channel rows (note_query row.order_no swept))
        | inr (answer, answers) ↦
            rw (sweep_wechat_orders, answers)
              (then_rest row.order_no swept.tables
                (on_wechat_answer env row answer (note_query row.order_no swept)).tables _
                (sync_order_status_from_wechat-PaymentsEvolve (env.payment_env row.order_no)
                  row.order_no answer (env.meanwhile row.order_no swept.tables)
                  (others.in_payment row.order_no (env.meanwhile row.order_no swept.tables)))
                (sweep_wechat_orders-PaymentsEvolve channel rows
                  (on_wechat_answer env row answer (note_query row.order_no swept))))
      ]

  sweep_alipay_orders-PaymentsEvolve :
      (channel : AlipayView) (rows : List OrderRow) (swept : Swept)
      → PaymentsEvolve swept.tables.payments
          (sweep_alipay_orders env channel rows swept).tables.payments
  unfolding sweep_alipay_orders
  sweep_alipay_orders-PaymentsEvolve channel [] swept = unchanged swept.tables
  sweep_alipay_orders-PaymentsEvolve channel (row ∷ rows) swept =
      elim (Option-cases (channel.query_payment row.order_no)) [
        | inl silent ↦
            rw (sweep_alipay_orders, silent)
              (sweep_alipay_orders-PaymentsEvolve channel rows (note_query row.order_no swept))
        | inr (answer, answers) ↦
            rw (sweep_alipay_orders, answers)
              (then_rest row.order_no swept.tables
                (on_alipay_answer env row answer (note_query row.order_no swept)).tables _
                (sync_order_status_from_alipay-PaymentsEvolve (env.payment_env row.order_no)
                  row.order_no answer (env.meanwhile row.order_no swept.tables)
                  (others.in_payment row.order_no (env.meanwhile row.order_no swept.tables)))
                (sweep_alipay_orders-PaymentsEvolve channel rows
                  (on_alipay_answer env row answer (note_query row.order_no swept))))
      ]

  sweep_refunds-PaymentsEvolve :
      (channel : WechatView) (rows : List RefundRow) (swept : Swept)
      → PaymentsEvolve swept.tables.payments (sweep_refunds env channel rows swept).tables.payments
  unfolding sweep_refunds
  sweep_refunds-PaymentsEvolve channel [] swept = unchanged swept.tables
  sweep_refunds-PaymentsEvolve channel (row ∷ rows) swept =
      elim (Option-cases (channel.query_refund row.refund_no)) [
        | inl silent ↦ rw (sweep_refunds, silent) (sweep_refunds-PaymentsEvolve channel rows swept)
        | inr (result, answers) ↦
            rw (sweep_refunds, answers)
              (then_rest row.refund_no swept.tables (on_refund_answer env row result swept).tables _
                (sync_refund-PaymentsEvolve row.refund_no result
                  (env.meanwhile row.refund_no swept.tables))
                (sweep_refunds-PaymentsEvolve channel rows (on_refund_answer env row result swept)))
      ]

  -- A sweep runs behind what came before it, or the search for its rows fails.
  unless_fault-PaymentsEvolve :
      (payments : List PaymentRow) (fault : Fault) (sweep : Swept → Swept) (swept : Swept)
      → PaymentsEvolve payments swept.tables.payments
      → PaymentsEvolve swept.tables.payments (sweep swept).tables.payments
      → PaymentsEvolve payments (unless_fault env fault sweep swept).tables.payments
  unless_fault-PaymentsEvolve payments succeeds sweep swept before evolved =
      PaymentsEvolve-trans payments swept.tables.payments (sweep swept).tables.payments before
        evolved
  unless_fault-PaymentsEvolve payments (raises what) sweep swept before evolved = before
  unless_fault-PaymentsEvolve payments (mapper_fails what) sweep swept before evolved = before

when-keeps :
    {View : Type 0} (P : Swept → Type 0) (configured : View → Bool) (sweep : View → Swept → Swept)
    (swept : Swept)
    → P swept
    → ((channel : View) → P (sweep channel swept))
    → (view : Option View)
    → P (elim view [
      | none ↦ swept
      | some channel ↦ if configured channel then sweep channel swept else swept
    ])
when-keeps P configured sweep swept before after none = before
when-keeps P configured sweep swept before after (some channel) = choose (configured channel)
  where
    choose : (b : Bool) → P (if b then sweep channel swept else swept)
    choose true = after channel
    choose false = before

-- A run of `reconcile`, whatever the channels answer and the database does, takes every payment along
-- the diagram of its states, if the other writers do so between its syncs and inside them.
pub reconcile-PaymentsEvolve :
    (env : ReconcileEnv) (others : OthersEvolve env) (db : Db) (keys : List IdempotencyRow)
    → PaymentsEvolve db.payments (reconcile env db keys).0.0.tables.payments
unfolding reconcile sync_pending_wechat_orders sync_pending_alipay_orders sync_pending_refunds
reconcile-PaymentsEvolve env others db keys =
    when-keeps Along (λ view. view.is_configured) (sync_pending_refunds env) after_alipay
      alipay_along
      (λ channel.
        unless_fault-PaymentsEvolve env others db.payments env.find_refunds_fault _ after_alipay
          alipay_along (sweep_refunds-PaymentsEvolve env others channel _ after_alipay))
      env.wechat
  where
    Along : Swept → Type 0
    Along swept = PaymentsEvolve db.payments swept.tables.payments

    start : Swept
    start = before_sweep db

    after_wechat : Swept
    after_wechat = when_wechat env (sync_pending_wechat_orders env) start

    after_alipay : Swept
    after_alipay = when_alipay env (sync_pending_alipay_orders env) after_wechat

    wechat_along : Along after_wechat
    wechat_along =
        when-keeps Along (λ view. view.is_configured) (sync_pending_wechat_orders env) start
          (Grows-refl PaymentMoves PaymentMoves-refl db.payments)
          (λ channel.
            unless_fault-PaymentsEvolve env others db.payments env.find_wechat_fault _ start
              (Grows-refl PaymentMoves PaymentMoves-refl db.payments)
              (sweep_wechat_orders-PaymentsEvolve env others channel _ start))
          env.wechat

    alipay_along : Along after_alipay
    alipay_along =
        when-keeps Along (λ view. view.is_configured) (sync_pending_alipay_orders env) after_wechat
          wechat_along
          (λ channel.
            unless_fault-PaymentsEvolve env others db.payments env.find_alipay_fault _ after_wechat
              wechat_along (sweep_alipay_orders-PaymentsEvolve env others channel _ after_wechat))
          env.alipay
