-- ===== src/Services/Callback/Types.antt =====
-- What a delivery brings, what the channel and the JSON reader make of it, the tables that a
-- notification may write, and the answers.
use drogon_pay.Common.{ℕ, String, ◌⊎◌, Bool, Option, List, Bytes, codes}
use drogon_pay.Common.Int.{ℤ}
use drogon_pay.Models.Tables.{Db, Fault}
use drogon_pay.Services.Idempotency.{IdempotencyRow}

pub record Delivery : Type 0 where
  pub body : Bytes
  pub signature : Bytes
  pub timestamp : Bytes
  pub nonce : Bytes
  pub serial_no : Bytes

-- `WechatPayClient`, as far as the service calls it.
pub record WechatClient : Type 0 where
  -- timestamp, nonce, body, signature, serial number
  pub verify_callback : Bytes → Bytes → Bytes → Bytes → Bytes → Bool
  -- ciphertext, nonce, associated data: an error or the plain text
  pub decrypt_resource : Bytes → Bytes → Bytes → Bytes ⊎ Bytes
  pub app_id : Bytes
  pub mch_id : Bytes

-- The members `algorithm`, `ciphertext`, `nonce`, `associated_data` of `resource`.
pub record Resource : Type 0 where
  pub algorithm : Bytes
  pub ciphertext : Bytes
  pub resource_nonce : Bytes
  pub associated_data : Bytes

-- The members that the service reads of a body; a missing text is empty.
pub record Notice : Type 0 where
  pub id : Bytes
  pub event_type : Bytes
  pub resource_type : Bytes
  pub resource : Option Resource

-- The members of a decrypted transaction. A missing number is 0; `payer_total` is missing or a number.
pub record Trade : Type 0 where
  pub appid : Bytes
  pub mchid : Bytes
  pub out_trade_no : Bytes
  pub transaction_id : Bytes
  pub trade_state : String
  pub currency : Bytes
  pub total : ℤ
  pub payer_total : Option ℤ

-- The members of a decrypted refund.
pub record RefundTrade : Type 0 where
  pub appid : Bytes
  pub mchid : Bytes
  pub out_trade_no : Bytes
  pub out_refund_no : Bytes
  pub refund_status : String
  pub refund_id : Bytes
  pub currency : Bytes
  pub refund : ℤ

-- A row of pay_callback; `verified` and `processed` are always true.
pub record CallbackRow : Type 0 where
  pub payment_no : Bytes
  pub raw_body : Bytes
  pub signature : Bytes
  pub serial_no : Bytes

pub record Store : Type 0 where
  pub tables : Db
  pub reservations : List IdempotencyRow
  pub callbacks : List CallbackRow

-- The object that the channel reads, and the value of the error code.
pub record Answer : Type 0 where
  pub code : Bytes
  pub message : Bytes
  pub error : ℕ

abbrev pub answer_ok : Answer
answer_ok = record { code = codes "SUCCESS"; message = codes "OK"; error = 0 }

abbrev pub answer_fail : ℕ → Bytes → Answer
answer_fail error message = record { code = codes "FAIL"; message = message; error = error }

abbrev pub retry_later : Answer
retry_later = answer_fail 1400 (codes "callback still in progress")

abbrev pub internal_error : Answer
internal_error = answer_fail 1400 (codes "internal error")

-- The statements of the two handlers.
pub data Statement : Type 0 where
  find_reservation drop_reservation find_attempt insert_audit reserve select_attempt find_order
        sum_refunds insert_record update_payment insert_duplicate update_order insert_ledger
        finalize commit find_refund update_refund update_payload :
      Statement

-- The places where other deliveries and services may run: behind the lookup of the key, behind the
-- reservation, and between the reads and the writes of the transaction, whose writes are one step.
pub data Point : Type 0 where
  behind_lookup behind_reserve behind_reads : Point

-- What Redis answers to the `SET NX` of a nonce.
pub data NonceReply : Type 0 where
  stored seen redis_error : NonceReply

pub record Env : Type 0 where
  pub wechat_client : Option WechatClient
  pub redis : Option (Bytes → NonceReply)
  pub read_notice : Bytes → Option Notice
  pub read_trade : Bytes → Option Trade
  pub read_refund : Bytes → Option RefundTrade
  pub md5 : Bytes → Bytes
  pub now_sec : ℕ
  -- microseconds
  pub now : ℕ
  pub uuid : Bytes
  -- the text of `COALESCE(SUM(CAST(amount AS NUMERIC)), 0)`
  pub numeric_sum : List Bytes → Bytes
  pub faults : Statement → Fault
  -- whether a COMMIT that is answered with an exception was applied all the same
  pub commit_applied : Bool
  pub others : Point → Store → Store

abbrev pub callback_row : Delivery → Bytes → CallbackRow
callback_row delivery payment_no = record {
  payment_no = payment_no;
  raw_body = delivery.body;
  signature = delivery.signature;
  serial_no = delivery.serial_no;
}
