-- ===== src/Services/Refund/Ledger.antt =====
-- `insertLedgerEntry`: the entry of a payment or a refund in the ledger.
use drogon_pay.Common.{
  Bool, not, ◌&&◌, ◌||◌, none, some, List, ◌∷◌, if◌then◌else◌, Bytes, any, bytes_eq, is_empty,
}
use drogon_pay.Common.Int.{ℤ}
use drogon_pay.Models.Tables.{LedgerRow, Fault, succeeds, raises, mapper_fails}

-- `order_no = $1 AND entry_type = $2 AND payment_no = $3`, or `payment_no IS NULL` for an empty one.
unfoldable pub is_same_entry : Bytes → Bytes → Bytes → LedgerRow → Bool
is_same_entry order_no payment_no entry_type row =
    bytes_eq row.order_no order_no
    && (bytes_eq row.entry_type entry_type && (elim row.payment_no [
      | none ↦ is_empty payment_no
      | some p ↦ not (is_empty payment_no) && bytes_eq p payment_no
    ]))

abbrev pub ledger_row : ℤ → Bytes → Bytes → Bytes → Bytes → LedgerRow
ledger_row user_id order_no payment_no entry_type amount = record {
  user_id = user_id;
  order_no = order_no;
  payment_no = if is_empty payment_no then none else some payment_no;
  entry_type = entry_type;
  amount = amount;
}

-- What the entry does to the ledger, and whether one of its two statements raised. An exception of
-- the Mapper is logged and no statement is sent.
unfoldable pub insert_ledger_entry :
    Fault → Fault → ℤ → Bytes → Bytes → Bytes → Bytes → List LedgerRow → List LedgerRow
insert_ledger_entry lookup insert user_id order_no payment_no entry_type amount ledger =
    if is_empty order_no || is_empty entry_type then inserted else elim lookup [
      | raises what ↦ ledger
      | mapper_fails what ↦ ledger
      | succeeds ↦
          if any (is_same_entry order_no payment_no entry_type) ledger then ledger else inserted
    ]
  where
    inserted : List LedgerRow
    inserted = elim insert [
      | succeeds ↦ ledger_row user_id order_no payment_no entry_type amount ∷ ledger
      | raises what ↦ ledger
      | mapper_fails what ↦ ledger
    ]
