-- ===== src/Services/Refund/Types.antt =====
-- The data of RefundService.h and what a request of the service is given from outside: the channels,
-- the clock, the faults of the database, and the other writers.
use drogon_pay.Common.{ℕ, String, Bool, Option, none, List, ◌++◌, Bytes, codes}
use drogon_pay.Models.Status.{RefundStatus}
use drogon_pay.Models.Tables.{Db, Fault}

pub record CreateRefundRequest : Type 0 where
  pub order_no : Bytes
  pub payment_no : Bytes
  pub refund_no : Bytes
  pub amount : Bytes
  pub reason : Bytes
  pub notify_url : Bytes
  pub funds_account : Bytes

-- The members of `data`. The channel's echoed body (wechat_response, alipay_response) is left out,
-- and `amount` stands for both of its keys, amount and refund_amount.
pub record RefundData : Type 0 where
  pub refund_no : Bytes
  pub order_no : Bytes
  pub payment_no : Bytes
  pub amount : Bytes
  pub status : RefundStatus
  pub channel_refund_no : Option Bytes
  pub error : Option Bytes

-- The answer. Its `std::error_code` has the value of `code`.
pub record Response : Type 0 where
  pub code : ℕ
  pub message : Bytes
  pub body : Option RefundData

abbrev pub failure : ℕ → Bytes → Response
failure code message = record { code = code; message = message; body = none }

-- `failDb` and `reportMapperFailure`.
abbrev pub db_error : Bytes → Response
db_error what = failure 1500 (codes "Database error: " ++ what)

-- The members that the service reads of a channel's JSON answer, and the error text.
pub record ChannelReply : Type 0 where
  pub status : String
  pub refund_id : Bytes
  pub code : Bytes
  pub message : Bytes
  pub msg : Bytes
  pub error : Bytes

-- The payload of `PaymentChannel::refund`: the members of both channels.
pub record RefundPayload : Type 0 where
  pub out_trade_no : Bytes
  pub out_refund_no : Option Bytes
  pub refund_amount : Bytes
  pub reason : Bytes
  pub notify_url : Bytes
  pub funds_account : Bytes
  pub refund_fen : ℕ
  pub total_fen : ℕ
  pub currency : Bytes

-- A channel as the service uses it.
pub record Channel : Type 0 where
  pub refund : RefundPayload → ChannelReply

-- The calls of the database that a request makes, in the order of the source.
pub data Call : Type 0 where
  find_settled_attempt find_open_attempt find_payment find_order find_refund_success
        count_in_progress new_transaction lock_payment sum_refunded insert_refund find_order_channel
        commit update_refund sum_settled update_order :
      Call

-- The places where other writers may run: behind each answer of the database outside the
-- transaction, and while the channel is asked.
pub data Point : Type 0 where
  after_attempt after_payment after_order after_success_check after_count during_channel
        after_refund_update after_settled_sum :
      Point

pub record Env : Type 0 where
  pub channels : Bytes → Option Channel
  -- `drogon::utils::getUuid`
  pub new_uuid : Bytes
  pub now : ℕ
  -- the text of `SUM(CAST(amount AS NUMERIC))`
  pub numeric_sum : List Bytes → Bytes
  pub faults : Call → Fault
  -- whether a COMMIT that answered with an exception was applied all the same
  pub commit_applied : Bool
  pub others : Point → Db → Db
