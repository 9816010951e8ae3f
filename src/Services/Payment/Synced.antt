-- ===== src/Services/Payment/Synced.antt =====
-- About the transaction of the two syncs: what it keeps.
use drogon_pay.Common.{
  ℕ, ◌≤◌, ◌≡◌, refl, subst, ◌⊎◌, inl, inr, true, false, Option, none, some, arith, if◌then◌else◌,
  Bool-cases, Option-cases, Bytes, codes,
}
use drogon_pay.Common.Int.{ℤ, pos}
use drogon_pay.Models.Status.{OrderStatus, is_paid, is_success}
use drogon_pay.Models.Members.{Among, latest_selected-Among, find_one-Among}
use drogon_pay.Models.Tables.{
  OrderRow, PaymentRow, Db, select, update_where, find_one, latest, Reply-cases, find_one-holds,
  Fault-cases, latest-select,
}
use drogon_pay.Utils.Amount.{parse_amount_to_fen}
use drogon_pay.Services.Refund.Ledger.{insert_ledger_entry}
use drogon_pay.Services.Callback.Trade.{is_attempt, is_open_payment, is_order, takes_money}
use drogon_pay.Services.Payment.Sync.{
  PaymentSyncEnv, Claim, reconcile_amount_problem, Verdict, SyncEnd, write_synced_order,
  judge_order, on_synced_order, find_synced_order, synced_row, advance_synced_payment, sync_attempt,
  end_payment_sync, on_synced_attempt, sync_claim,
}

-- One order is written as the verdict says, and its payment is in the ledger where it holds money then.
pub record WritesOrder (env : PaymentSyncEnv) (order_no payment_no : Bytes) (verdict : Verdict)
    (before after : Db) : Type 0 where
  pub order : OrderRow
  pub order_status : OrderStatus
  pub its_row : Among order before.orders
  pub its_order : is_order order_no order ≡ true
  pub not_paid : is_paid order.status ≡ false
  pub written : verdict.to_write order ≡ some order_status
  pub payments : after.payments ≡ before.payments
  pub refunds : after.refunds ≡ before.refunds
  pub orders :
      after.orders
      ≡ update_where
          (is_order order.order_no)
          (λ row. record row { status = order_status })
          before.orders
  pub ledger : after.ledger ≡ (
      if takes_money order_status
      then insert_ledger_entry env.lookup_ledger_fault env.insert_ledger_fault order.user_id
          order.order_no payment_no
          (codes "PAYMENT")
          order.amount
          before.ledger
      else before.ledger)

-- The attempt that a claim of money names has its amount in fen, and it is positive.
abbrev pub AmountAgrees : Claim → PaymentRow → Type 0
AmountAgrees claim payment =
    (takes_money claim.order_status ≡ false)
    ⊎ (reconcile_amount_problem claim.answer_fen payment.amount ≡ none)

pub record Synced (env : PaymentSyncEnv) (order_no : Bytes) (claim : Claim)
    (verdict : Option Verdict) (read before after : Db) : Type 0 where
  pub payment : PaymentRow
  pub middle : Db
  pub its_row : Among payment read.payments
  pub attempt : is_attempt order_no payment ≡ true
  pub amount : AmountAgrees claim payment
  pub advanced :
      (middle ≡ before)
      ⊎ (middle ≡ record before {
        payments =
            update_where
              (is_open_payment payment.payment_no)
              (synced_row env claim)
              before.payments;
      })
  pub order :
      (after ≡ middle)
      ⊎ ((v : Verdict) × (verdict ≡ some v)
          × WritesOrder env order_no payment.payment_no v middle after)

pub reconcile_amount_problem-none :
    (answer_fen : ℤ) (amount : Bytes)
    → reconcile_amount_problem answer_fen amount ≡ none
    → (n : ℕ) × (parse_amount_to_fen amount ≡ some n) × (answer_fen ≡ pos n) × (1 ≤ n)
unfolding reconcile_amount_problem
reconcile_amount_problem-none answer_fen amount e =
    elim (Option-cases (parse_amount_to_fen amount)) [
      | inl unread ↦ absurd (ground (arith, e))
      | inr (n, read) ↦ (n, read, ground (arith, e, read), ground (arith, e, read))
    ]

module _ (env : PaymentSyncEnv) (order_no : Bytes) where
  write_synced_order-kept :
      (payment_no : Bytes) (verdict : Verdict) (order : OrderRow) (order_status : OrderStatus)
      (db after : Db)
      → Among order db.orders
      → is_order order_no order ≡ true
      → is_paid order.status ≡ false
      → verdict.to_write order ≡ some order_status
      → (write_synced_order env payment_no order order_status db).kept ≡ some after
      → WritesOrder env order_no payment_no verdict db after
  unfolding write_synced_order
  write_synced_order-kept payment_no verdict order order_status db after its_row its_order not_paid
        written e =
      record {
        order = order;
        order_status = order_status;
        its_row = its_row;
        its_order = its_order;
        not_paid = not_paid;
        written = written;
        payments = ground (arith, e);
        refunds = ground (arith, e);
        orders = ground (arith, e);
        ledger = ground (arith, e);
      }

  judge_order-kept :
      (payment_no : Bytes) (verdict : Verdict) (order : OrderRow) (db after : Db)
      → Among order db.orders
      → is_order order_no order ≡ true
      → (judge_order env payment_no verdict order db).kept ≡ some after
      → (after ≡ db) ⊎ WritesOrder env order_no payment_no verdict db after
  unfolding judge_order
  judge_order-kept payment_no verdict order db after its_row its_order e =
      elim (Bool-cases (is_paid order.status)) [
        | inl paid_already ↦ inl (ground (arith, e))
        | inr not_paid ↦ elim (Option-cases (verdict.to_write order)) [
          | inl refused ↦ absurd (ground (arith, e))
          | inr (order_status, written) ↦ inr (
              write_synced_order-kept payment_no verdict order order_status db after its_row
                its_order not_paid written (ground (arith, e)))
        ]
      ]

  find_synced_order-kept :
      (payment_no : Bytes) (verdict : Verdict) (db after : Db)
      → (find_synced_order env order_no payment_no verdict db).kept ≡ some after
      → (after ≡ db) ⊎ WritesOrder env order_no payment_no verdict db after
  unfolding find_synced_order on_synced_order
  find_synced_order-kept payment_no verdict db after e =
      elim (Reply-cases (find_one env.find_order_fault (is_order order_no) db.orders)) [
        | inr (what, none_found) ↦ absurd (ground (arith, e))
        | inl (order, found) ↦
            judge_order-kept payment_no verdict order db after
              (find_one-Among env.find_order_fault (is_order order_no) order db.orders found)
              (find_one-holds env.find_order_fault (is_order order_no) db.orders order found)
              (rw (find_synced_order, found) at e)
      ]

  sync_attempt-kept :
      (claim : Claim) (payment : PaymentRow) (verdict : Option Verdict) (read db after : Db)
      → Among payment read.payments
      → is_attempt order_no payment ≡ true
      → AmountAgrees claim payment
      → (sync_attempt env order_no claim payment verdict db).kept ≡ some after
      → Synced env order_no claim verdict read db after
  unfolding sync_attempt advance_synced_payment
  sync_attempt-kept claim payment none read db after its_row attempt amount e =
      absurd (ground (arith, e))
  sync_attempt-kept claim payment (some verdict) read db after its_row attempt amount e =
      elim (Bool-cases (is_success payment.status)) [
        | inl collected ↦
            from db (inl refl)
              (find_synced_order-kept payment.payment_no verdict db after (ground (arith, e)))
        | inr open_still ↦
            from
              (record db {
                payments =
                    update_where (is_open_payment payment.payment_no) (synced_row env claim)
                      db.payments;
              })
              (inr refl)
              (find_synced_order-kept payment.payment_no verdict
                (record db {
                  payments =
                      update_where (is_open_payment payment.payment_no) (synced_row env claim)
                        db.payments;
                })
                after (ground (arith, e)))
      ]
    where
      from :
          (middle : Db)
          → ((middle ≡ db)
              ⊎ (middle ≡ record db {
                payments =
                    update_where
                      (is_open_payment payment.payment_no)
                      (synced_row env claim)
                      db.payments;
              }))
          → (after ≡ middle) ⊎ WritesOrder env order_no payment.payment_no verdict middle after
          → Synced env order_no claim (some verdict) read db after
      from middle advanced order = record {
        payment = payment;
        middle = middle;
        its_row = its_row;
        attempt = attempt;
        amount = amount;
        advanced = advanced;
        order = elim order [ inl same ↦ inl same | inr writes ↦ inr (verdict, refl, writes) ];
      }

  -- What the caller's tables become.
  abbrev pub Leaves : Claim → (Db → Option Verdict) → Db → Db → Type 0
  Leaves claim verdict db r =
      (r ≡ db)
      ⊎ (r ≡ env.between db)
      ⊎ Synced env order_no claim (verdict (env.between db)) db (env.between db) r

  end_payment_sync-Leaves :
      (claim : Claim) (verdict : Db → Option Verdict) (db : Db) (outcome : SyncEnd)
      → ((after : Db)
          → outcome.kept ≡ some after
          → Synced env order_no claim (verdict (env.between db)) db (env.between db) after)
      → Leaves claim verdict db (end_payment_sync env (env.between db) outcome).0
  unfolding end_payment_sync
  end_payment_sync-Leaves claim verdict db outcome kept = elim (Option-cases outcome.kept) [
    | inl gone ↦ inr (inl (ground (arith, gone)))
    | inr (after, there) ↦ elim (Bool-cases env.commit_applied) [
      | inl applied ↦
          subst (Leaves claim verdict db) (ground (arith, there, applied))
            (inr (inr (kept after there)))
      | inr dropped ↦ inr (inl (ground (arith, there, dropped)))
    ]
  ]

  on_synced_attempt-Leaves :
      (claim : Claim) (verdict : Db → Option Verdict) (found : Option PaymentRow) (db : Db)
      → ((payment : PaymentRow) → found ≡ some payment → Among payment db.payments)
      → ((payment : PaymentRow) → found ≡ some payment → is_attempt order_no payment ≡ true)
      → Leaves claim verdict db (on_synced_attempt env order_no claim verdict found db).0
  unfolding on_synced_attempt
  on_synced_attempt-Leaves claim verdict none db its_row attempt = inl refl
  on_synced_attempt-Leaves claim verdict (some payment) db its_row attempt =
      elim (Bool-cases (takes_money claim.order_status)) [
        | inr free ↦ rw (on_synced_attempt, free) (ends (inl free))
        | inl money ↦
            elim (Option-cases (reconcile_amount_problem claim.answer_fen payment.amount)) [
              | inr (problem, wrong) ↦ rw (on_synced_attempt, money, wrong) (inl refl)
              | inl agrees ↦ rw (on_synced_attempt, money, agrees) (ends (inr agrees))
            ]
      ]
    where
      ends :
          AmountAgrees claim payment
          → Leaves claim verdict db
              (end_payment_sync env (env.between db) (
                sync_attempt env order_no claim payment
                  (verdict (env.between db))
                  (env.between db))).0
      ends agrees = end_payment_sync-Leaves claim verdict db _ (λ after.
          sync_attempt-kept claim payment (verdict (env.between db)) db (env.between db) after
            (its_row payment refl) (attempt payment refl) agrees)

  pub sync_claim-Leaves :
      (claim : Claim) (verdict : Db → Option Verdict) (db : Db)
      → Leaves claim verdict db (sync_claim env order_no claim verdict db).0
  unfolding sync_claim
  sync_claim-Leaves claim verdict db = elim (Fault-cases env.find_attempt_fault) [
    | inr (what, broken) ↦ inl (ground arith)
    | inl sent ↦ subst (Leaves claim verdict db) (ground (arith, sent)) (
        on_synced_attempt-Leaves claim verdict
          (latest (λ (row : PaymentRow). row.created_at) (select (is_attempt order_no) db.payments))
          db
          (λ payment e.
            latest_selected-Among (λ (row : PaymentRow). row.created_at) (is_attempt order_no)
              payment db.payments e)
          (λ payment e.
            latest-select (λ (row : PaymentRow). row.created_at) (is_attempt order_no) db.payments
              payment e))
  ]
