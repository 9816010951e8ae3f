-- ===== src/Services/Callback/Audit.antt =====
-- About the audit rows of the two handlers.
use drogon_pay.Common.{inl, inr, Option, none, some, Bytes}
use drogon_pay.Models.Tables.{PaymentRow, Db, Fault, Fault-cases, succeeds, raises, mapper_fails}
use drogon_pay.Services.Callback.Types.{
  Delivery, Store, Answer, answer_ok, Env, find_attempt, insert_audit,
}
use drogon_pay.Services.Callback.Payment.{insert_audit_row}
use drogon_pay.Services.Callback.Deliver.{audit_attempt, answer_again}

-- `P` holds of the tables, and `Q` is about the end.
module _ (env : Env) (delivery : Delivery) (P : Db → Type 0) (Q : Store × Answer → Type 0)
    (ends : (s : Store) (answer : Answer) → P s.tables → Q (s, answer)) where
  pub insert_audit_row-ends :
      (f : Fault) (payment_no : Bytes) (s : Store)
      → P s.tables
      → Q (insert_audit_row env delivery f payment_no s, answer_ok)
  unfolding insert_audit_row
  insert_audit_row-ends succeeds payment_no s v = ends _ answer_ok v
  insert_audit_row-ends (raises what) payment_no s v = ends _ answer_ok v
  insert_audit_row-ends (mapper_fails what) payment_no s v = ends _ answer_ok v

  audit_attempt-ends :
      (found : Option PaymentRow) (s : Store) → P s.tables → Q (audit_attempt env delivery found s)
  unfolding audit_attempt
  audit_attempt-ends none s v = ends s _ v
  audit_attempt-ends (some payment) s v = elim (Fault-cases (env.faults insert_audit)) [
    | inr (what, inl broken) ↦ rw (audit_attempt, broken) (ends s _ v)
    | inr (what, inr broken) ↦ rw (audit_attempt, broken) (ends s _ v)
    | inl sent ↦ rw (audit_attempt, sent) (ends _ _ v)
  ]

  pub answer_again-ends :
      (order_no : Bytes) (s : Store) → P s.tables → Q (answer_again env delivery order_no s)
  unfolding answer_again
  answer_again-ends order_no s v = elim (Fault-cases (env.faults find_attempt)) [
    | inr (what, inl broken) ↦ rw (answer_again, broken) (ends s _ v)
    | inr (what, inr broken) ↦ rw (answer_again, broken) (ends s _ v)
    | inl sent ↦ rw (answer_again, sent) (audit_attempt-ends _ s v)
  ]
