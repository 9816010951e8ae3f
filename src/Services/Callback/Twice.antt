-- ===== src/Services/Callback/Twice.antt =====
-- About a payment notification that is delivered twice.

use drogon_pay.Common.{
  ◌≡◌, refl, sym, ap, ◌∙◌, subst, ◌⊎◌, inl, inr, some, List, [], ◌∷◌, arith, if◌then◌else◌,
  Bool-cases, Bytes, any,
}
use drogon_pay.Models.Tables.{select, update_where, Fault-cases}
use drogon_pay.Services.Idempotency.{IdempotencyRow, has_key}
use drogon_pay.Services.Idempotency.Rows.{select-update_where, select-none}
use drogon_pay.Common.Find.{bytes_eq_iff}
use drogon_pay.Services.Callback.Accepts.{Brings, accept-Brings}
use drogon_pay.Services.Callback.Verify.{check_nonce}
use drogon_pay.Services.Callback.Types.{
  Delivery, Store, Answer, Point, Env, find_reservation, reserve, behind_lookup, behind_reserve,
}
use drogon_pay.Services.Callback.Reserve.{callback_reservation, reserve_key, is_owned}
use drogon_pay.Services.Callback.Trade.{Accepted}
use drogon_pay.Services.Callback.Payment.{token}
use drogon_pay.Services.Callback.Deliver.{
  audit_attempt, answer_again, on_reservation, on_reserved, process_new, on_lookup, proceed_with_db,
  accept, on_accepted, handle_payment_callback,
}
use drogon_pay.Services.Callback.Reserved.{run_transaction-keeps}

-- One row has the key.
abbrev pub HasOne : Bytes → List IdempotencyRow → Type 0
HasOne key rows = (row : IdempotencyRow) × (select (has_key key) rows ≡ row ∷ [])

stamps-HasOne :
    (key token snapshot : Bytes) (rows : List IdempotencyRow)
    → HasOne key rows
    → HasOne key (
        update_where
          (is_owned key token)
          (λ row. record row { response_snapshot = some snapshot })
          rows)
stamps-HasOne key token snapshot rows (row, one) = (
  (if is_owned key token row then record row { response_snapshot = some snapshot } else row),
  select-update_where (has_key key) (is_owned key token)
        (λ row. record row { response_snapshot = some snapshot }) (λ row. refl) rows
      ∙ ap
          (update_where (is_owned key token)
            (λ row. record row { response_snapshot = some snapshot }))
          one,
)

module _ (env : Env) (delivery : Delivery)
    (quiet : (p : Point) (s : Store) → env.others p s ≡ s) where
  -- A known key: its notification is answered and the tables stay.
  answer_again-tables :
      (order_no : Bytes) (s : Store) → (answer_again env delivery order_no s).0.tables ≡ s.tables
  unfolding answer_again audit_attempt
  answer_again-tables order_no s = ground arith

  on_reservation-tables :
      (key order_no : Bytes) (row : IdempotencyRow) (s : Store)
      → (on_reservation env delivery key order_no row s).0.tables ≡ s.tables
  unfolding on_reservation
  on_reservation-tables key order_no row s = ground (arith, answer_again-tables order_no s)

  proceed_with_db-known :
      (accepted : Accepted) (s : Store)
      → HasOne accepted.key s.reservations
      → (proceed_with_db env delivery accepted s).0.tables ≡ s.tables
  unfolding proceed_with_db on_lookup
  proceed_with_db-known accepted s (row, one) = elim (Fault-cases (env.faults find_reservation)) [
    | inr (what, broken) ↦ ground arith
    | inl sent ↦
        rw (proceed_with_db, sent, one)
          (rw (quiet behind_lookup s)
            (on_reservation-tables accepted.key accepted.trade.out_trade_no row s))
  ]

  -- A new key is taken before anything else is written.
  process_new-HasOne :
      (accepted : Accepted) (s : Store)
      → ((process_new env delivery accepted s).0.tables ≡ s.tables)
        ⊎ HasOne accepted.key (process_new env delivery accepted s).0.reservations
  unfolding process_new on_reserved reserve_key
  process_new-HasOne accepted s = elim (Fault-cases (env.faults reserve)) [
    | inr (what, broken) ↦ inl (ground arith)
    | inl sent ↦ elim (Bool-cases (any (has_key accepted.key) s.reservations)) [
      | inl taken ↦ inl (ground arith)
      | inr free ↦ inr (
          rw (process_new, sent, reserve_key, free)
            (run_transaction-keeps env delivery accepted (HasOne accepted.key)
              (stamps-HasOne accepted.key (token env delivery) accepted.plaintext)
              (λ p t v. subst (λ u. HasOne accepted.key u.reservations) (sym (quiet p t)) v) _
              (subst (λ u. HasOne accepted.key u.reservations) (sym (quiet behind_reserve _))
                (
                  callback_reservation accepted.key (env.md5 delivery.body) (token env delivery)
                      env.now,
                  ground (
                    arith,
                    (bytes_eq_iff accepted.key accepted.key).1 refl,
                    select-none (has_key accepted.key) s.reservations free,
                  ),
                ))))
    ]
  ]

  -- Either the tables stay, or the key of the notification is there behind it.
  proceed_with_db-HasOne :
      (accepted : Accepted) (s : Store)
      → ((proceed_with_db env delivery accepted s).0.tables ≡ s.tables)
        ⊎ HasOne accepted.key (proceed_with_db env delivery accepted s).0.reservations
  unfolding proceed_with_db
  proceed_with_db-HasOne accepted s = elim (Fault-cases (env.faults find_reservation)) [
    | inr (what, broken) ↦ inl (ground arith)
    | inl sent ↦ rw (proceed_with_db, sent) (on_rows (select (has_key accepted.key) s.reservations))
  ]
    where
      new :
          (t : Store)
          → t ≡ s
          → ((process_new env delivery accepted t).0.tables ≡ s.tables)
            ⊎ HasOne accepted.key (process_new env delivery accepted t).0.reservations
      new t e =
          subst
            (λ u.
              ((process_new env delivery accepted u).0.tables ≡ s.tables)
              ⊎ HasOne accepted.key (process_new env delivery accepted u).0.reservations)
            (sym e) (process_new-HasOne accepted s)

      on_rows :
          (rows : List IdempotencyRow)
          → ((on_lookup env delivery accepted rows s).0.tables ≡ s.tables)
            ⊎ HasOne accepted.key (on_lookup env delivery accepted rows s).0.reservations
      on_rows [] = unfold on_lookup in new (env.others behind_lookup s) (quiet behind_lookup s)
      on_rows (row ∷ again ∷ rows) =
          unfold on_lookup in new (env.others behind_lookup s) (quiet behind_lookup s)
      on_rows (row ∷ []) =
          unfold on_lookup in
          inl (
            on_reservation-tables accepted.key accepted.trade.out_trade_no row
              (env.others behind_lookup s)
            ∙ ap (λ (t : Store). t.tables) (quiet behind_lookup s))

  handle_payment_callback-HasOne :
      (s : Store)
      → ((handle_payment_callback env delivery s).0.tables ≡ s.tables)
        ⊎ ((accepted : Accepted) × Brings env delivery accepted
            × HasOne accepted.key (handle_payment_callback env delivery s).0.reservations)
  unfolding handle_payment_callback on_accepted
  handle_payment_callback-HasOne s = on_checks (accept env delivery) refl
    where
      on_checks :
          (checked : Answer ⊎ Accepted)
          → accept env delivery ≡ checked
          → ((on_accepted env delivery checked s).0.tables ≡ s.tables)
            ⊎ ((accepted : Accepted) × Brings env delivery accepted
                × HasOne accepted.key (on_accepted env delivery checked s).0.reservations)
      on_checks (inl answer) e = inl refl
      on_checks (inr accepted) e = elim (Bool-cases (check_nonce env.redis delivery.nonce)) [
        | inr again ↦ rw (on_accepted, again) (inl refl)
        | inl first ↦
            rw (on_accepted, first)
              (elim (proceed_with_db-HasOne accepted s) [
                | inl same ↦ inl same
                | inr one ↦ inr (accepted, accept-Brings env delivery accepted e first, one)
              ])
      ]

  handle_payment_callback-known :
      (s : Store)
      → ((accepted : Accepted) → Brings env delivery accepted → HasOne accepted.key s.reservations)
      → (handle_payment_callback env delivery s).0.tables ≡ s.tables
  unfolding handle_payment_callback on_accepted
  handle_payment_callback-known s known = on_checks (accept env delivery) refl
    where
      on_checks :
          (checked : Answer ⊎ Accepted)
          → accept env delivery ≡ checked
          → (on_accepted env delivery checked s).0.tables ≡ s.tables
      on_checks (inl answer) e = refl
      on_checks (inr accepted) e = elim (Bool-cases (check_nonce env.redis delivery.nonce)) [
        | inr again ↦ rw (on_accepted, again) refl
        | inl first ↦
            rw (on_accepted, first)
              (proceed_with_db-known accepted s
                (known accepted (accept-Brings env delivery accepted e first)))
      ]

-- What a delivery brings is in its body alone.
Brings-same :
    (env again : Env) (delivery : Delivery) (a b : Accepted)
    → again.wechat_client ≡ env.wechat_client
    → again.read_notice ≡ env.read_notice
    → again.read_trade ≡ env.read_trade
    → Brings env delivery a
    → Brings again delivery b
    → a.key ≡ b.key
Brings-same env again delivery a b same_client same_notice same_trade v w = cc

-- Of two deliveries of one payment notification at most one writes orders, payments, refunds or ledger:
-- the first leaves these tables alone, or the second does. Each may meet other failures, and another
-- Redis, time and token, and the first may have failed at any statement; no other writer runs
-- meanwhile, and the channel's client and the readers of its texts are the same.
pub handle_payment_callback-handle_payment_callback :
    (env again : Env) (delivery : Delivery) (s : Store)
    → ((p : Point) (t : Store) → env.others p t ≡ t)
    → ((p : Point) (t : Store) → again.others p t ≡ t)
    → again.wechat_client ≡ env.wechat_client
    → again.read_notice ≡ env.read_notice
    → again.read_trade ≡ env.read_trade
    → ((handle_payment_callback env delivery s).0.tables ≡ s.tables)
      ⊎ ((handle_payment_callback again delivery
            (handle_payment_callback env delivery s).0).0.tables
          ≡ (handle_payment_callback env delivery s).0.tables)
handle_payment_callback-handle_payment_callback env again delivery s quiet still same_client
      same_notice same_trade =
    elim (handle_payment_callback-HasOne env delivery quiet s) [
      | inl same ↦ inl same
      | inr (accepted, brings, one) ↦ inr (
          handle_payment_callback-known again delivery still _ (λ other brings_again.
            subst (λ key. HasOne key (handle_payment_callback env delivery s).0.reservations)
              (Brings-same env again delivery accepted other same_client same_notice same_trade
                brings brings_again)
              one))
    ]
