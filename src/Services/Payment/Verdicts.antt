-- ===== src/Services/Payment/Verdicts.antt =====
-- About what the answers of the channels make of an order, in the two syncs.
use drogon_pay.Utils.Status.Settles.{IsCollected}
use drogon_pay.Common.Find.{bytes_eq_iff}
use drogon_pay.Utils.Status.{TradeStatus, map_trade_state, resolve_refunded_order_status}
use drogon_pay.Services.Payment.Answers.{
  AlipayAnswer, order_status_after_refund_coverage, coverage_verdict, wechat_verdict,
  map_alipay_status, alipay_verdict,
}
use drogon_pay.Common.{
  ℕ, String, ◌≡◌, refl, ap, ◌∙◌, subst, ◌⊎◌, inl, inr, true, not, ◌&&◌, Option, none, some, arith,
  eq_iff, if◌then◌else◌, Bool-cases, Bytes, codes, bytes_eq,
}
use drogon_pay.Models.Status.{OrderStatus, is_paid, is_refunded}
use drogon_pay.Models.Tables.{OrderRow, Db, Fault-cases}
use drogon_pay.Utils.Amount.{amount_equals_fen}
use drogon_pay.Services.Callback.Trade.{takes_money}
use drogon_pay.Services.Refund.Settle.{settled_amounts}
use drogon_pay.Services.Refund.Sync.{fen_or_zero}
use drogon_pay.Services.Payment.Sync.{PaymentSyncEnv, Claim, Verdict}

-- A verdict makes an order hold money only where the claim does.
abbrev pub KeepsToClaim : Claim → Option Verdict → Type 0
KeepsToClaim claim verdict =
    (v : Verdict) (order : OrderRow) (order_status : OrderStatus)
    → verdict ≡ some v
    → v.to_write order ≡ some order_status
    → takes_money order_status ≡ true
    → takes_money claim.order_status ≡ true

-- The answers of Alipay that a trade was paid.
abbrev pub IsPaidTrade : AlipayAnswer → Type 0
IsPaidTrade answer =
    (answer.code ≡ codes "10000")
    × ((answer.trade_status_text ≡ "TRADE_SUCCESS") ⊎ (answer.trade_status_text ≡ "TRADE_FINISHED"))

pub money-IsCollected :
    (t : String) → takes_money (map_trade_state t).order_status ≡ true → IsCollected t
unfolding map_trade_state
money-IsCollected t h = ground (
  arith,
  h,
  eq_iff t "SUCCESS",
  eq_iff t "USERPAYING",
  eq_iff t "NOTPAY",
  eq_iff t "REFUND",
  eq_iff t "CLOSED",
  eq_iff t "REVOKED",
)

pub money-IsPaidTrade :
    (answer : AlipayAnswer) (mapped : TradeStatus)
    → bytes_eq answer.code (codes "10000") ≡ true
    → map_alipay_status answer.trade_status_text ≡ some mapped
    → takes_money mapped.order_status ≡ true
    → IsPaidTrade answer
unfolding map_alipay_status
money-IsPaidTrade answer mapped code known money = (
  (bytes_eq_iff answer.code (codes "10000")).0 code,
  ground (
    arith,
    known,
    money,
    eq_iff answer.trade_status_text "TRADE_SUCCESS",
    eq_iff answer.trade_status_text "TRADE_FINISHED",
    eq_iff answer.trade_status_text "WAIT_BUYER_PAY",
    eq_iff answer.trade_status_text "TRADE_CLOSED",
  ),
)

takes_money-coverage :
    (mapped : OrderStatus) (amount : Bytes) (n : ℕ)
    → takes_money (order_status_after_refund_coverage mapped amount n) ≡ true
    → takes_money mapped ≡ true
unfolding order_status_after_refund_coverage resolve_refunded_order_status
takes_money-coverage mapped amount n h = ground (arith, h)

written_by : OrderRow → Option Verdict → Option OrderStatus
written_by order none = none
written_by order (some v) = v.to_write order

coverage_verdict-keeps :
    (claim : Claim) (n : ℕ) → KeepsToClaim claim (some (coverage_verdict claim.order_status n))
unfolding written_by
coverage_verdict-keeps claim n v order order_status its written money =
    takes_money-coverage claim.order_status order.amount n (ground (arith, money, same))
  where
    same :
        some (order_status_after_refund_coverage claim.order_status order.amount n)
        ≡ some order_status
    same = ap (written_by order) its ∙ written

pub wechat_verdict-keeps :
    (env : PaymentSyncEnv) (order_no : Bytes) (claim : Claim) (db : Db)
    → KeepsToClaim claim (wechat_verdict env order_no claim.order_status db)
unfolding wechat_verdict
wechat_verdict-keeps env order_no claim db = elim (Bool-cases (is_refunded claim.order_status)) [
  | inr certain ↦
      subst (KeepsToClaim claim) (rw (wechat_verdict, certain) refl)
        (coverage_verdict-keeps claim 0)
  | inl asks ↦ elim (Fault-cases env.sum_fault) [
    | inl sent ↦ subst (KeepsToClaim claim) (rw (wechat_verdict, asks, sent) refl) (
        coverage_verdict-keeps claim
          (fen_or_zero (env.numeric_sum (settled_amounts order_no db.refunds))))
    | inr (what, inl broken) ↦
        subst (KeepsToClaim claim) (rw (wechat_verdict, asks, broken) refl) nothing
    | inr (what, inr broken) ↦
        subst (KeepsToClaim claim) (rw (wechat_verdict, asks, broken) refl) nothing
  ]
]
  where
    nothing : KeepsToClaim claim none
    nothing v order order_status its written money = absurd (ground (arith, its))

pub alipay_verdict-keeps : (claim : Claim) → KeepsToClaim claim (some (alipay_verdict claim))
unfolding written_by
alipay_verdict-keeps claim v order order_status its written money = ground (arith, money, same)
  where
    same :
        (if is_paid claim.order_status && not (amount_equals_fen order.amount claim.answer_fen)
          then none
          else some claim.order_status)
        ≡ some order_status
    same = ap (written_by order) its ∙ written
