-- ===== src/Services/Refund/LedgerOnce.antt =====
-- About `insertLedgerEntry` and the number of entries of one order, type and payment.

use drogon_pay.Common.Find.{bytes_eq_iff}
use drogon_pay.Services.Refund.Sync.{RefundResult, SyncEnv, sync_refund_status_from_wechat}
use drogon_pay.Services.Refund.SyncWalk.{sync_refund_status_from_wechat-keeps}
use drogon_pay.Common.{
  ℕ, suc, ◌≤◌, ◌≡◌, refl, inl, inr, true, false, List, [], ◌∷◌, arith, if◌then◌else◌, Bool-cases,
  Bytes, codes, any, is_empty,
}
use drogon_pay.Services.Idempotency.Replay.{bytes_eq_refl}
use drogon_pay.Common.Int.{ℤ}
use drogon_pay.Models.Tables.{LedgerRow, Db, Fault, succeeds}
use drogon_pay.Services.Refund.Ledger.{is_same_entry, ledger_row, insert_ledger_entry}

-- How many entries of the kind the ledger has.
pub count_entries : Bytes → Bytes → Bytes → List LedgerRow → ℕ
count_entries order_no payment_no entry_type [] = 0
count_entries order_no payment_no entry_type (row ∷ rows) =
    if is_same_entry order_no payment_no entry_type row
    then suc (count_entries order_no payment_no entry_type rows)
    else count_entries order_no payment_no entry_type rows

pub count_entries-none :
    (order_no payment_no entry_type : Bytes) (rows : List LedgerRow)
    → any (is_same_entry order_no payment_no entry_type) rows ≡ false
    → count_entries order_no payment_no entry_type rows ≡ 0
unfolding count_entries
count_entries-none order_no payment_no entry_type [] h = refl
count_entries-none order_no payment_no entry_type (row ∷ rows) h =
    ground (arith, count_entries-none order_no payment_no entry_type rows)

-- The entry that is made is one of its kind.
is_same_entry-ledger_row :
    (user_id : ℤ) (order_no payment_no entry_type amount : Bytes)
    → is_same_entry order_no payment_no entry_type
        (ledger_row user_id order_no payment_no entry_type amount)
      ≡ true
unfolding is_same_entry
is_same_entry-ledger_row user_id order_no [] entry_type amount =
    ground (arith, bytes_eq_refl order_no, bytes_eq_refl entry_type)
is_same_entry-ledger_row user_id order_no (c ∷ s) entry_type amount =
    ground (arith, bytes_eq_refl order_no, bytes_eq_refl entry_type, bytes_eq_refl (c ∷ s))

-- An entry counts for one kind only.
is_same_entry-other :
    (user_id : ℤ) (order_no payment_no entry_type other_order other_payment amount : Bytes)
    → is_same_entry order_no payment_no entry_type
        (ledger_row user_id other_order other_payment entry_type amount)
      ≡ true
    → (other_order ≡ order_no) × (other_payment ≡ payment_no)
unfolding is_same_entry
is_same_entry-other user_id order_no [] entry_type other_order [] amount h =
    ((bytes_eq_iff other_order order_no).0 (ground (arith, h)), refl)
is_same_entry-other user_id order_no (d ∷ t) entry_type other_order [] amount h =
    absurd (ground (arith, h))
is_same_entry-other user_id order_no [] entry_type other_order (c ∷ s) amount h =
    absurd (ground (arith, h))
is_same_entry-other user_id order_no (d ∷ t) entry_type other_order (c ∷ s) amount h = (
  (bytes_eq_iff other_order order_no).0 (ground (arith, h)),
  (bytes_eq_iff (c ∷ s) (d ∷ t)).0 (ground (arith, h)),
)

-- The same entry a second time changes nothing, whatever its amount and its user: with an order
-- number, an entry type, and statements that succeed. So the second partial refund of a payment has
-- no entry.
pub insert_ledger_entry-twice :
    (user_id again : ℤ) (order_no payment_no entry_type amount other : Bytes)
    (ledger : List LedgerRow)
    → is_empty order_no ≡ false
    → is_empty entry_type ≡ false
    → insert_ledger_entry succeeds succeeds again order_no payment_no entry_type other
        (insert_ledger_entry succeeds succeeds user_id order_no payment_no entry_type amount ledger)
      ≡ insert_ledger_entry succeeds succeeds user_id order_no payment_no entry_type amount ledger
unfolding insert_ledger_entry
insert_ledger_entry-twice user_id again order_no payment_no entry_type amount other ledger n m =
    ground (arith, n, m, is_same_entry-ledger_row user_id order_no payment_no entry_type amount)

insert_ledger_entry-once :
    (lookup insert : Fault) (user_id : ℤ)
    (order_no payment_no entry_type other_order other_payment amount : Bytes)
    (ledger : List LedgerRow)
    → is_empty order_no ≡ false
    → is_empty entry_type ≡ false
    → count_entries order_no payment_no entry_type ledger ≤ 1
    → count_entries order_no payment_no entry_type (
        insert_ledger_entry lookup insert user_id other_order other_payment entry_type amount
          ledger)
      ≤ 1
unfolding insert_ledger_entry count_entries
insert_ledger_entry-once lookup insert user_id order_no payment_no entry_type other_order
      other_payment amount ledger n m h =
    elim (Bool-cases (
      is_same_entry order_no payment_no entry_type
        (ledger_row user_id other_order other_payment entry_type amount))) [
          | inr unlike ↦ ground (arith, h, unlike)
          | inl alike ↦ ground (
            arith,
            n,
            m,
            h,
            alike,
            is_same_entry-other user_id order_no payment_no entry_type other_order other_payment
                amount alike,
            count_entries-none order_no payment_no entry_type ledger,
          )
        ]

-- `syncRefundStatusFromWechat` keeps the REFUND entries of every order and payment at one at most, if
-- the other writers do, whatever the channel answers and the database does.
pub sync_refund_status_from_wechat-once :
    (env : SyncEnv) (order_no payment_no refund_no : Bytes) (result : RefundResult) (db : Db)
    → is_empty order_no ≡ false
    → count_entries order_no payment_no (codes "REFUND") (env.between db).ledger ≤ 1
    → count_entries order_no payment_no (codes "REFUND") db.ledger ≤ 1
    → count_entries order_no payment_no
        (codes "REFUND")
        (sync_refund_status_from_wechat env refund_no result db).0.ledger
      ≤ 1
sync_refund_status_from_wechat-once env order_no payment_no refund_no result db n w v =
    sync_refund_status_from_wechat-keeps env
      (λ other. count_entries order_no payment_no (codes "REFUND") other.ledger ≤ 1)
      (λ lookup insert user_id other_order other_payment amount other.
        insert_ledger_entry-once lookup insert user_id order_no payment_no (codes "REFUND")
          other_order other_payment amount other.ledger n refl)
      (λ other_order other h. h) refund_no result db v w (λ refund refund_status refund_id found. w)
