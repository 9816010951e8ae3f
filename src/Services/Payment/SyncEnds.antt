-- ===== src/Services/Payment/SyncEnds.antt =====
-- About what `syncOrderStatusFromWechat` and `syncOrderStatusFromAlipay` leave in the tables.

use drogon_pay.Utils.Status.{TradeStatus}
use drogon_pay.Services.Callback.Lifecycle.{map_trade_state-moves}
use drogon_pay.Services.Payment.Answers.{
  WechatAnswer, AlipayAnswer, wechat_claim, wechat_verdict, sync_order_status_from_wechat,
  map_alipay_status, alipay_claim, alipay_verdict, sync_order_status_from_alipay,
}
use drogon_pay.Common.{
  String, ◌≡◌, refl, sym, ap, subst, ◌⊎◌, inl, inr, true, not, ◌||◌, Option, some, arith, str_eq,
  Bool-cases, Option-cases, Bytes, codes, bytes_eq,
}
use drogon_pay.Models.Status.{PaymentStatus, is_open_attempt}
use drogon_pay.Models.Tables.{Db, update_where}
use drogon_pay.Models.Lifecycle.{
  ◌⟶*◌, open_attempt_moves, Grows-refl, Grows-update_where, PaymentMoves, PaymentsEvolve,
  PaymentMoves-refl, PaymentsEvolve-trans,
}
use drogon_pay.Services.Callback.Trade.{is_open_payment}
use drogon_pay.Services.Payment.Sync.{PaymentSyncEnv, Claim, Verdict, synced_row, sync_claim}
use drogon_pay.Services.Payment.Synced.{WritesOrder, Synced, Leaves, sync_claim-Leaves}

module _ (env : PaymentSyncEnv) (order_no : Bytes) where
  -- A sync takes payments along their diagram, if its claim does.
  sync_claim-PaymentsEvolve :
      (claim : Claim) (verdict : Db → Option Verdict) (db : Db)
      → ((p : PaymentStatus) → is_open_attempt p ≡ true → p ⟶* claim.payment_status)
      → PaymentsEvolve db.payments (env.between db).payments
      → PaymentsEvolve db.payments (sync_claim env order_no claim verdict db).0.payments
  sync_claim-PaymentsEvolve claim verdict db moves others =
      of (sync_claim env order_no claim verdict db).0
        (sync_claim-Leaves env order_no claim verdict db)
    where
      advanced :
          {r : Db}
          → (s : Synced env order_no claim (verdict (env.between db)) db (env.between db) r)
          → (s.middle ≡ env.between db)
            ⊎ (s.middle ≡ record (env.between db) {
              payments =
                  update_where
                    (is_open_payment s.payment.payment_no)
                    (synced_row env claim)
                    (env.between db).payments;
            })
          → PaymentsEvolve (env.between db).payments s.middle.payments
      advanced s (inl same) =
          subst (λ other. PaymentsEvolve (env.between db).payments other.payments) (sym same)
            (Grows-refl PaymentMoves PaymentMoves-refl (env.between db).payments)
      advanced s (inr wrote) =
          subst (λ other. PaymentsEvolve (env.between db).payments other.payments) (sym wrote)
            (Grows-update_where PaymentMoves (is_open_payment s.payment.payment_no)
              (synced_row env claim) PaymentMoves-refl
              (λ x open_row. record {
                payment_no = refl;
                order_no = refl;
                amount = refl;
                status = moves x.status (ground (arith, open_row));
                closed_row = λ closed. absurd (ground (arith, open_row, closed));
              })
              (env.between db).payments)

      after_order :
          {r : Db}
          → (s : Synced env order_no claim (verdict (env.between db)) db (env.between db) r)
          → (r ≡ s.middle)
            ⊎ ((v : Verdict) × (verdict (env.between db) ≡ some v)
                × WritesOrder env order_no s.payment.payment_no v s.middle r)
          → r.payments ≡ s.middle.payments
      after_order s (inl same) = ap (λ (x : Db). x.payments) same
      after_order s (inr writes) = writes.2.payments

      of : (r : Db) → Leaves env order_no claim verdict db r → PaymentsEvolve db.payments r.payments
      of r (inl same) =
          subst (λ other. PaymentsEvolve db.payments other.payments) (sym same)
            (Grows-refl PaymentMoves PaymentMoves-refl db.payments)
      of r (inr (inl same)) =
          subst (λ other. PaymentsEvolve db.payments other.payments) (sym same) others
      of r (inr (inr synced)) =
          PaymentsEvolve-trans db.payments (env.between db).payments r.payments others (
            subst (PaymentsEvolve (env.between db).payments) (sym (after_order synced synced.order))
              (advanced synced synced.advanced))

-- `syncOrderStatusFromWechat` takes every payment along the diagram of its states, on every branch and
-- whatever the channel answers and the database does, if the writers between its read and its
-- transaction do so too.
pub sync_order_status_from_wechat-PaymentsEvolve :
    (env : PaymentSyncEnv) (order_no : Bytes) (answer : WechatAnswer) (db : Db)
    → PaymentsEvolve db.payments (env.between db).payments
    → PaymentsEvolve db.payments (sync_order_status_from_wechat env order_no answer db).0.payments
unfolding sync_order_status_from_wechat
sync_order_status_from_wechat-PaymentsEvolve env order_no answer db others =
    elim (Bool-cases (str_eq answer.trade_state "")) [
      | inl silent ↦
          rw (sync_order_status_from_wechat, silent)
            (Grows-refl PaymentMoves PaymentMoves-refl db.payments)
      | inr speaks ↦
          rw (sync_order_status_from_wechat, speaks)
            (sync_claim-PaymentsEvolve env order_no (wechat_claim answer)
              (wechat_verdict env order_no (wechat_claim answer).order_status) db
              (map_trade_state-moves answer.trade_state) others)
    ]

map_alipay_status-moves :
    (text : String) (mapped : TradeStatus)
    → map_alipay_status text ≡ some mapped
    → (p : PaymentStatus) → is_open_attempt p ≡ true
    → p ⟶* mapped.payment_status
unfolding map_alipay_status
map_alipay_status-moves text mapped e p o =
    open_attempt_moves mapped.payment_status (ground (arith, e)) p o

-- `syncOrderStatusFromAlipay` takes every payment along the same diagram, on every branch, if the
-- writers between its read and its transaction do so too.
pub sync_order_status_from_alipay-PaymentsEvolve :
    (env : PaymentSyncEnv) (order_no : Bytes) (answer : AlipayAnswer) (db : Db)
    → PaymentsEvolve db.payments (env.between db).payments
    → PaymentsEvolve db.payments (sync_order_status_from_alipay env order_no answer db).0.payments
unfolding sync_order_status_from_alipay
sync_order_status_from_alipay-PaymentsEvolve env order_no answer db others =
    elim (Bool-cases
      (not (bytes_eq answer.code (codes "10000")) || str_eq answer.trade_status_text "")) [
        | inl silent ↦ rw (sync_order_status_from_alipay, silent) unchanged
        | inr speaks ↦ elim (Option-cases (map_alipay_status answer.trade_status_text)) [
          | inl unknown ↦ rw (sync_order_status_from_alipay, speaks, unknown) unchanged
          | inr (mapped, known) ↦
              rw (sync_order_status_from_alipay, speaks, known)
                (sync_claim-PaymentsEvolve env order_no (alipay_claim mapped answer)
                  (λ other. some (alipay_verdict (alipay_claim mapped answer))) db
                  (map_alipay_status-moves answer.trade_status_text mapped known) others)
        ]
      ]
  where
    unchanged : PaymentsEvolve db.payments db.payments
    unchanged = Grows-refl PaymentMoves PaymentMoves-refl db.payments
