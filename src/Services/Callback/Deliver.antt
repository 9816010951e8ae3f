-- ===== src/Services/Callback/Deliver.antt =====
-- `handlePaymentCallback` around its transaction: the checks, the key of the notification and the
-- answers to a notification that was handled before.

use drogon_pay.Common.{
  ◌⊎◌, inl, inr, Option, none, some, List, [], ◌∷◌, if◌then◌else◌, Bytes, codes,
}
use drogon_pay.Models.Tables.{PaymentRow, select, latest, succeeds, raises, mapper_fails}
use drogon_pay.Services.Idempotency.{IdempotencyRow, has_key}
use drogon_pay.Services.Callback.Types.{
  Delivery, WechatClient, Trade, Store, Answer, answer_ok, answer_fail, retry_later, internal_error,
  Env, callback_row, find_reservation, drop_reservation, find_attempt, insert_audit, reserve,
  behind_lookup, behind_reserve,
}
use drogon_pay.Services.Callback.Reserve.{drop_unfinalized_reservation, reserve_key}
use drogon_pay.Services.Callback.Verify.{
  transaction_event, respond, Opened, open_envelope, check_merchant, check_nonce,
}
use drogon_pay.Services.Callback.Trade.{Accepted, is_attempt, check_members, notice_key}
use drogon_pay.Services.Callback.Payment.{token, run_transaction}

module _ (env : Env) (delivery : Delivery) where
  -- The audit row of a notification that was handled before.
  unfoldable pub audit_attempt : Option PaymentRow → Store → Store × Answer
  audit_attempt none s = (s, internal_error)
  audit_attempt (some payment) s = elim (env.faults insert_audit) [
    | raises what ↦ (s, internal_error)
    | mapper_fails what ↦ (s, internal_error)
    | succeeds ↦
        (record s { callbacks = callback_row delivery payment.payment_no ∷ s.callbacks }, answer_ok)
  ]

  unfoldable pub answer_again : Bytes → Store → Store × Answer
  answer_again order_no s = elim (env.faults find_attempt) [
    | raises what ↦ (s, internal_error)
    | mapper_fails what ↦ (s, internal_error)
    | succeeds ↦
        audit_attempt
          (latest (λ (row : PaymentRow). row.created_at)
            (select (is_attempt order_no) s.tables.payments))
          s
  ]

  -- The row of the key: a snapshot is proof that the notification was handled.
  unfoldable pub on_reservation : Bytes → Bytes → IdempotencyRow → Store → Store × Answer
  on_reservation key order_no row s = elim row.response_snapshot [
    | some text ↦ answer_again order_no s
    | none ↦ (
      record s {
        reservations =
            drop_unfinalized_reservation (env.faults drop_reservation) key s.reservations;
      },
      retry_later,
    )
  ]

  unfoldable pub on_reserved : Accepted → Option (List IdempotencyRow) → Store → Store × Answer
  on_reserved accepted none s = (s, retry_later)
  on_reserved accepted (some rows) s =
      run_transaction env delivery accepted
        (env.others behind_reserve (record s { reservations = rows }))

  unfoldable pub process_new : Accepted → Store → Store × Answer
  process_new accepted s = elim (env.faults reserve) [
    | raises what ↦ (s, internal_error)
    | mapper_fails what ↦ (s, internal_error)
    | succeeds ↦
        on_reserved accepted
          (reserve_key accepted.key (env.md5 delivery.body) (token env delivery) env.now
            s.reservations)
          s
  ]

  -- The rows that `findOne` finds; anything but one row is `UnexpectedRows`, a new notification.
  unfoldable pub on_lookup : Accepted → List IdempotencyRow → Store → Store × Answer
  on_lookup accepted [] s = process_new accepted (env.others behind_lookup s)
  on_lookup accepted (row ∷ []) s =
      on_reservation accepted.key accepted.trade.out_trade_no row (env.others behind_lookup s)
  on_lookup accepted (row ∷ again ∷ rows) s = process_new accepted (env.others behind_lookup s)

  unfoldable pub proceed_with_db : Accepted → Store → Store × Answer
  proceed_with_db accepted s = elim (env.faults find_reservation) [
    | raises what ↦ (s, internal_error)
    | mapper_fails what ↦ (s, internal_error)
    | succeeds ↦ on_lookup accepted (select (has_key accepted.key) s.reservations) s
  ]

  -- The checks on the decrypted transaction.
  unfoldable pub check_trade : WechatClient → Opened → Trade → Answer ⊎ Accepted
  check_trade client opened trade = elim (check_merchant client trade.appid trade.mchid) [
    | some answer ↦ inl answer
    | none ↦ elim (check_members trade) [
      | some answer ↦ inl answer
      | none ↦
          inr (record {
            key = notice_key opened.id trade;
            plaintext = opened.plaintext;
            trade = trade;
          })
    ]
  ]

  unfoldable pub read_transaction : WechatClient → Answer ⊎ Opened → Answer ⊎ Accepted
  read_transaction client (inl answer) = inl answer
  read_transaction client (inr opened) = elim (env.read_trade opened.plaintext) [
    | none ↦ inl (respond (codes "invalid resource json"))
    | some trade ↦ check_trade client opened trade
  ]

  -- All the checks but that of the nonce; none of them reads a table.
  unfoldable pub accept : Answer ⊎ Accepted
  accept = elim env.wechat_client [
    | none ↦ inl (answer_fail 1400 (codes "wechat client not ready"))
    | some client ↦ read_transaction client (open_envelope env transaction_event client delivery)
  ]

  -- The nonce is the last check.
  unfoldable pub on_accepted : Answer ⊎ Accepted → Store → Store × Answer
  on_accepted (inl answer) s = (s, answer)
  on_accepted (inr accepted) s =
      if check_nonce env.redis delivery.nonce
      then proceed_with_db accepted s
      else (s, respond (codes "replay detected"))

  unfoldable pub handle_payment_callback : Store → Store × Answer
  handle_payment_callback s = on_accepted accept s
