-- ===== src/Services/Payment/Pays.antt =====
-- About the ledger entries that the two syncs make.
use drogon_pay.Utils.Status.Settles.{IsCollected}
use drogon_pay.Utils.Status.{TradeStatus}
use drogon_pay.Services.Payment.Answers.{
  WechatAnswer, AlipayAnswer, wechat_claim, wechat_verdict, sync_order_status_from_wechat,
  map_alipay_status, notified_fen, alipay_claim, alipay_verdict, sync_order_status_from_alipay,
}
use drogon_pay.Common.{
  ℕ, ◌≤◌, ◌≡◌, ap, ◌∙◌, subst, ◌⊎◌, inl, inr, true, false, not, ◌||◌, Option, none, some, List,
  arith, str_eq, if◌then◌else◌, Bool-cases, Option-cases, Bytes, codes, bytes_eq,
}
use drogon_pay.Common.Int.{ℤ, pos, negsuc}
use drogon_pay.Models.Status.{is_paid, paid}
use drogon_pay.Models.Members.{Among}
use drogon_pay.Models.Tables.{OrderRow, PaymentRow, LedgerRow, Db}
use drogon_pay.Utils.Amount.{parse_amount_to_fen}
use drogon_pay.Services.Refund.Ledger.{insert_ledger_entry}
use drogon_pay.Services.Callback.Trade.{is_attempt, is_order, takes_money}
use drogon_pay.Services.Payment.Sync.{PaymentSyncEnv, Claim, Verdict, sync_claim}
use drogon_pay.Services.Payment.Synced.{
  WritesOrder, Synced, reconcile_amount_problem-none, Leaves, sync_claim-Leaves,
}
use drogon_pay.Services.Payment.Verdicts.{
  KeepsToClaim, IsPaidTrade, money-IsCollected, money-IsPaidTrade, wechat_verdict-keeps,
  alipay_verdict-keeps,
}

-- The entry of an attempt of the order, as it was read, for the row of the order that the transaction
-- found unpaid; the channel has answered the attempt's amount in fen.
pub record PaysIn (env : PaymentSyncEnv) (order_no : Bytes) (Collected : Type 0) (answer_fen : ℤ)
    (read before : Db) (after : List LedgerRow) : Type 0 where
  pub collected : Collected
  pub payment : PaymentRow
  pub order : OrderRow
  pub fen : ℕ
  pub its_payment : Among payment read.payments
  pub its_order : Among order before.orders
  pub order_no_of : is_order order_no order ≡ true
  pub attempt : is_attempt order_no payment ≡ true
  pub amount : parse_amount_to_fen payment.amount ≡ some fen
  pub answered_fen : answer_fen ≡ pos fen
  pub positive : 1 ≤ fen
  pub not_paid : is_paid order.status ≡ false
  pub entry :
      after
      ≡ insert_ledger_entry env.lookup_ledger_fault env.insert_ledger_fault order.user_id
          order.order_no payment.payment_no
          (codes "PAYMENT")
          order.amount
          before.ledger

-- The ledger is one of before, or has such an entry.
abbrev pub LedgerPays : PaymentSyncEnv → Bytes → Type 0 → ℤ → Db → List LedgerRow → Type 0
LedgerPays env order_no Collected answer_fen db ledger =
    (ledger ≡ db.ledger)
    ⊎ (ledger ≡ (env.between db).ledger)
    ⊎ PaysIn env order_no Collected answer_fen db (env.between db) ledger

module _ (env : PaymentSyncEnv) (order_no : Bytes) (claim : Claim) (verdict : Db → Option Verdict)
    (db : Db) (keeps : KeepsToClaim claim (verdict (env.between db))) (Collected : Type 0)
    (collects : takes_money claim.order_status ≡ true → Collected) where
  middle_ledger :
      {r : Db}
      → (s : Synced env order_no claim (verdict (env.between db)) db (env.between db) r)
      → s.middle.ledger ≡ (env.between db).ledger
  middle_ledger s = elim s.advanced [
    | inl same ↦ ap (λ (x : Db). x.ledger) same
    | inr wrote ↦ ap (λ (x : Db). x.ledger) wrote
  ]

  middle_orders :
      {r : Db}
      → (s : Synced env order_no claim (verdict (env.between db)) db (env.between db) r)
      → s.middle.orders ≡ (env.between db).orders
  middle_orders s = elim s.advanced [
    | inl same ↦ ap (λ (x : Db). x.orders) same
    | inr wrote ↦ ap (λ (x : Db). x.orders) wrote
  ]

  write-LedgerPays :
      {r : Db}
      → (s : Synced env order_no claim (verdict (env.between db)) db (env.between db) r)
      → (v : Verdict) → verdict (env.between db) ≡ some v
      → WritesOrder env order_no s.payment.payment_no v s.middle r
      → LedgerPays env order_no Collected claim.answer_fen db r.ledger
  write-LedgerPays {r = r} s v its writes = elim (Bool-cases (takes_money writes.order_status)) [
    | inr free ↦ inr (inl (rw free at writes.ledger ∙ middle_ledger s))
    | inl money ↦
        let holds = keeps v writes.order writes.order_status its writes.written money in
        let agrees =
          reconcile_amount_problem-none claim.answer_fen s.payment.amount (elim s.amount [
            | inl free ↦ absurd (ground (arith, free, holds))
            | inr agreed ↦ agreed
          ]) in
        inr (
          inr (record {
            collected = collects holds;
            payment = s.payment;
            order = writes.order;
            fen = agrees.0;
            its_payment = s.its_row;
            its_order =
                subst (λ orders. Among writes.order orders) (middle_orders s) writes.its_row;
            order_no_of = writes.its_order;
            attempt = s.attempt;
            amount = agrees.1;
            answered_fen = agrees.2;
            positive = agrees.3;
            not_paid = writes.not_paid;
            entry =
                subst
                  (λ ledger.
                    r.ledger
                    ≡ insert_ledger_entry env.lookup_ledger_fault env.insert_ledger_fault
                        writes.order.user_id writes.order.order_no s.payment.payment_no
                        (codes "PAYMENT") writes.order.amount ledger)
                  (middle_ledger s) (rw money at writes.ledger);
          }))
  ]

  pub sync_claim-LedgerPays :
      LedgerPays env order_no Collected claim.answer_fen db
        (sync_claim env order_no claim verdict db).0.ledger
  sync_claim-LedgerPays =
      of (sync_claim env order_no claim verdict db).0
        (sync_claim-Leaves env order_no claim verdict db)
    where
      of :
          (r : Db)
          → Leaves env order_no claim verdict db r
          → LedgerPays env order_no Collected claim.answer_fen db r.ledger
      of r (inl same) = inl (ap (λ (x : Db). x.ledger) same)
      of r (inr (inl same)) = inr (inl (ap (λ (x : Db). x.ledger) same))
      of r (inr (inr synced)) = elim synced.order [
        | inl same ↦ inr (inl (ap (λ (x : Db). x.ledger) same ∙ middle_ledger synced))
        | inr (v, its, writes) ↦ write-LedgerPays synced v its writes
      ]

-- The ledger entry that `syncOrderStatusFromWechat` makes is that of an attempt of the order whose
-- amount in fen WeChat's answer names, for a trade that it calls SUCCESS or REFUND, and there is none
-- where the order already reads PAID; otherwise the ledger is as it was, or as the other writers left
-- it. This holds whatever the database does.
pub sync_order_status_from_wechat-LedgerPays :
    (env : PaymentSyncEnv) (order_no : Bytes) (answer : WechatAnswer) (db : Db)
    → LedgerPays env order_no
        (IsCollected answer.trade_state)
        answer.total
        db
        (sync_order_status_from_wechat env order_no answer db).0.ledger
unfolding sync_order_status_from_wechat
sync_order_status_from_wechat-LedgerPays env order_no answer db =
    elim (Bool-cases (str_eq answer.trade_state "")) [
      | inl silent ↦ inl (ground (arith, silent))
      | inr speaks ↦
          subst (LedgerPays env order_no (IsCollected answer.trade_state) answer.total db)
            (ground (arith, speaks))
            (sync_claim-LedgerPays env order_no (wechat_claim answer)
              (wechat_verdict env order_no (wechat_claim answer).order_status) db
              (wechat_verdict-keeps env order_no (wechat_claim answer) (env.between db))
              (IsCollected answer.trade_state) (money-IsCollected answer.trade_state))
    ]

-- The ledger entry that `syncOrderStatusFromAlipay` makes is that of an attempt of the order whose amount
-- in fen Alipay's answer names, for a trade that it calls successful or finished, and there is none where
-- the order already reads PAID; otherwise the ledger is as it was, or as the other writers left it.
pub sync_order_status_from_alipay-LedgerPays :
    (env : PaymentSyncEnv) (order_no : Bytes) (answer : AlipayAnswer) (db : Db)
    → LedgerPays env order_no
        (IsPaidTrade answer)
        (notified_fen paid answer.total_amount)
        db
        (sync_order_status_from_alipay env order_no answer db).0.ledger
unfolding sync_order_status_from_alipay
sync_order_status_from_alipay-LedgerPays env order_no answer db =
    elim (Bool-cases
      (not (bytes_eq answer.code (codes "10000")) || str_eq answer.trade_status_text "")) [
        | inl silent ↦ inl (ground (arith, silent))
        | inr speaks ↦ elim (Option-cases (map_alipay_status answer.trade_status_text)) [
          | inl unknown ↦ inl (ground (arith, speaks, unknown))
          | inr (mapped, known) ↦
              subst
                (LedgerPays env order_no (IsPaidTrade answer)
                  (notified_fen paid answer.total_amount) db)
                (ground (arith, speaks, known))
                (on_claim mapped (Bool-cases (is_paid mapped.order_status)) (
                  sync_claim-LedgerPays env order_no (alipay_claim mapped answer)
                    (λ other. some (alipay_verdict (alipay_claim mapped answer))) db
                    (alipay_verdict-keeps (alipay_claim mapped answer)) (IsPaidTrade answer)
                    (money-IsPaidTrade answer mapped (ground (arith, speaks)) known)))
        ]
      ]
  where
    on_claim :
        (mapped : TradeStatus)
        → (is_paid mapped.order_status ≡ true) ⊎ (is_paid mapped.order_status ≡ false)
        → LedgerPays env order_no
            (IsPaidTrade answer)
            (notified_fen mapped.order_status answer.total_amount)
            db
            (sync_claim env order_no
              (alipay_claim mapped answer)
              (λ other. some (alipay_verdict (alipay_claim mapped answer)))
              db).0.ledger
        → LedgerPays env order_no
            (IsPaidTrade answer)
            (notified_fen paid answer.total_amount)
            db
            (sync_claim env order_no
              (alipay_claim mapped answer)
              (λ other. some (alipay_verdict (alipay_claim mapped answer)))
              db).0.ledger
    on_claim mapped (inl money) v =
        subst
          (λ b.
            LedgerPays env order_no (IsPaidTrade answer)
              (if b
                then (elim (parse_amount_to_fen answer.total_amount) [
                  | none ↦ negsuc 0
                  | some n ↦ pos n
                ])
                else negsuc 0)
              db
              (sync_claim env order_no (alipay_claim mapped answer)
                (λ other. some (alipay_verdict (alipay_claim mapped answer))) db).0.ledger)
          money v
    on_claim mapped (inr free) (inl same) = inl same
    on_claim mapped (inr free) (inr (inl same)) = inr (inl same)
    on_claim mapped (inr free) (inr (inr pays)) = absurd (ground (arith, free, pays.answered_fen))
