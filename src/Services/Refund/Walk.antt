-- ===== src/Services/Refund/Walk.antt =====
-- The walk through `proceedRefund` up to the channel call, for every predicate that the single writes
-- keep.
use drogon_pay.Common.{
  ℕ, ◌≡◌, refl, inl, inr, ◌||◌, Option, none, some, ◌∷◌, arith, ltb, leb, if◌then◌else◌, Bool-cases,
  Bytes, bytes_eq, is_empty,
}
use drogon_pay.Common.Int.{ltb_ℤ, pos}
use drogon_pay.Models.Status.{holds_money, is_open_attempt}
use drogon_pay.Models.Tables.{OrderRow, PaymentRow, Db, reply, find_one, Reply-cases, answered}
use drogon_pay.Utils.Amount.{parse_amount_to_fen}
use drogon_pay.Services.Refund.Types.{
  CreateRefundRequest, Env, find_settled_attempt, find_open_attempt, find_order, find_order_channel,
  after_attempt, after_payment, after_order, after_success_check, after_count,
}
use drogon_pay.Services.Refund.Invoke.{Refund}
use drogon_pay.Services.Refund.Create.{
  refunded_amounts, add_int64, refund_row, commit_and_invoke, insert_and_commit, check_sum,
  sum_under_lock, proceed_with_insert, proceed_with_in_progress_check, proceed_with_amount_check,
  check_amounts, proceed_order_flow, validate_payment, newest_attempt, answer_with,
  ask_open_attempts, choose_payment, proceed_refund,
}
use drogon_pay.Services.Refund.Stages.{WasRead, IsStable, invoke_refund_channel-keeps}

module _ (env : Env) (request : CreateRefundRequest) (P : Db → Type 0)
    (stable : IsStable env P) where
  commit_and_invoke-keeps :
      (r : Refund) (channel : Bytes) (before after : Db)
      → P before
      → P after
      → P (commit_and_invoke env request r channel before after).0
  unfolding commit_and_invoke
  commit_and_invoke-keeps r channel before after v w =
      ground (arith, invoke_refund_channel-keeps env P stable request r channel after w)

  insert_and_commit-keeps :
      (r : Refund) (db : Db)
      → P db
      → P (record db { refunds = refund_row env r ∷ db.refunds })
      → P (insert_and_commit env request r db).0
  unfolding insert_and_commit
  insert_and_commit-keeps r db v w =
      elim (Reply-cases (
        find_one (env.faults find_order_channel)
          (λ (row : OrderRow). bytes_eq row.order_no r.order_no) db.orders)) [
            | inr (what, none_found) ↦ ground arith
            | inl (order, e) ↦ ground (
              arith,
              commit_and_invoke-keeps r order.channel db
                  (record db { refunds = refund_row env r ∷ db.refunds }) v w,
            )
          ]

  check_sum-keeps :
      (r : Refund) (sum : Option ℕ) (db : Db)
      → parse_amount_to_fen (env.numeric_sum (refunded_amounts r.order_no db.refunds)) ≡ sum
      → WasRead env P r
      → P db
      → P (check_sum env request r sum db).0
  unfolding check_sum
  check_sum-keeps r none db e checked v = v
  check_sum-keeps r (some m) db e checked v =
      elim (Bool-cases (ltb_ℤ (pos r.total_fen) (add_int64 m r.refund_fen))) [
        | inl over ↦ rw over v
        | inr fits ↦ rw fits (
            insert_and_commit-keeps r db v (
              stable.insert r db checked (record { refunded_fen = m; sum_read = e; fits = fits })
                v))
      ]

  sum_under_lock-keeps :
      (r : Refund) (db : Db) → WasRead env P r → P db → P (sum_under_lock env request r db).0
  unfolding sum_under_lock
  sum_under_lock-keeps r db checked v = ground (arith, check_sum-keeps r _ db refl checked v)

  proceed_with_insert-keeps :
      (r : Refund) (db : Db) → WasRead env P r → P db → P (proceed_with_insert env request r db).0
  unfolding proceed_with_insert
  proceed_with_insert-keeps r db checked v = ground (arith, sum_under_lock-keeps r db checked v)

  proceed_with_in_progress_check-keeps :
      (r : Refund) (db : Db)
      → WasRead env P r
      → P db
      → P (proceed_with_in_progress_check env request r db).0
  unfolding proceed_with_in_progress_check
  proceed_with_in_progress_check-keeps r db checked v = ground (
    arith,
    proceed_with_insert-keeps r (env.others after_count db) checked
        (stable.others after_count db v),
  )

  proceed_with_amount_check-keeps :
      (r : Refund) (db : Db)
      → WasRead env P r
      → P db
      → P (proceed_with_amount_check env request r db).0
  unfolding proceed_with_amount_check
  proceed_with_amount_check-keeps r db checked v = ground (
    arith,
    proceed_with_in_progress_check-keeps r (env.others after_success_check db) checked
        (stable.others after_success_check db v),
  )

  -- The order as `proceed_order_flow` FindsOrder it.
  abbrev FindsOrder : OrderRow → Db → Type 0
  FindsOrder order db =
      find_one (env.faults find_order) (λ (row : OrderRow). bytes_eq row.order_no request.order_no)
        db.orders
      ≡ answered order

  check_amounts-keeps :
      (refund_no : Bytes) (order : OrderRow) (refund_fen total_fen : Option ℕ) (db : Db)
      → parse_amount_to_fen request.amount ≡ refund_fen
      → parse_amount_to_fen order.amount ≡ total_fen
      → FindsOrder order db
      → P db
      → P (check_amounts env request refund_no order refund_fen total_fen db).0
  unfolding check_amounts
  check_amounts-keeps refund_no order none t db e te found v = v
  check_amounts-keeps refund_no order (some n) none db e te found v = v
  check_amounts-keeps refund_no order (some n) (some t) db e te found v =
      elim (Bool-cases (leb n 0 || ltb t n)) [
        | inl bad ↦ rw bad v
        | inr good ↦ rw good (
            proceed_with_amount_check-keeps
              (record {
                refund_no = refund_no;
                order_no = request.order_no;
                payment_no = request.payment_no;
                amount = request.amount;
                refund_fen = n;
                total_fen = t;
                currency = order.currency;
              })
              (env.others after_order db)
              (record {
                amount_read = e;
                positive = ground arith;
                within = ground arith;
                before = db;
                before_holds = v;
                order = order;
                order_found = found;
                total_read = te;
              })
              (stable.others after_order db v))
      ]

  proceed_order_flow-keeps :
      (refund_no : Bytes) (db : Db) → P db → P (proceed_order_flow env request refund_no db).0
  unfolding proceed_order_flow
  proceed_order_flow-keeps refund_no db v =
      elim (Reply-cases (
        find_one (env.faults find_order)
          (λ (row : OrderRow). bytes_eq row.order_no request.order_no) db.orders)) [
            | inr (what, none_found) ↦ ground arith
            | inl (order, e) ↦ ground (
              arith,
              check_amounts-keeps refund_no order (parse_amount_to_fen request.amount)
                  (parse_amount_to_fen order.amount) db refl refl e v,
            )
          ]

  pub validate_payment-keeps : (db : Db) → P db → P (validate_payment env request db).0
  unfolding validate_payment
  validate_payment-keeps db v = ground (
    arith,
    proceed_order_flow-keeps
        (if is_empty request.refund_no then env.new_uuid else request.refund_no)
        (env.others after_payment db) (stable.others after_payment db v),
  )

module _ (env : Env) (P : Db → Type 0) (stable : IsStable env P)
    (request : CreateRefundRequest) where
  answer_with-keeps :
      (payment : PaymentRow) (db : Db) → P db → P (answer_with env request payment db).0
  unfolding answer_with
  answer_with-keeps payment db v =
      validate_payment-keeps env (record request { payment_no = payment.payment_no }) P stable
        (env.others after_attempt db) (stable.others after_attempt db v)

  ask_open_attempts-keeps : (db : Db) → P db → P (ask_open_attempts env request db).0
  unfolding ask_open_attempts
  ask_open_attempts-keeps db v =
      elim (Reply-cases (
        reply (env.faults find_open_attempt)
          (newest_attempt is_open_attempt request.order_no db))) [
            | inl (none, e) ↦ ground arith
            | inl (some payment, e) ↦ ground (arith, answer_with-keeps payment db v)
            | inr (what, no_answer) ↦ ground arith
          ]

  choose_payment-keeps : (db : Db) → P db → P (choose_payment env request db).0
  unfolding choose_payment
  choose_payment-keeps db v =
      elim (Reply-cases (
        reply (env.faults find_settled_attempt) (newest_attempt holds_money request.order_no db))) [
          | inl (none, e) ↦ ground (
            arith,
            ask_open_attempts-keeps (env.others after_attempt db)
                (stable.others after_attempt db v),
          )
          | inl (some payment, e) ↦ ground (arith, answer_with-keeps payment db v)
          | inr (what, no_answer) ↦ ground arith
        ]

  pub proceed_refund-keeps : (db : Db) → P db → P (proceed_refund env request db).0
  unfolding proceed_refund
  proceed_refund-keeps db v =
      ground (arith, choose_payment-keeps db v, validate_payment-keeps env request P stable db v)
