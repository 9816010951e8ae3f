-- ===== src/Services/Callback/Verify.antt =====
-- The checks of `handlePaymentCallback` and `handleRefundCallback` before any statement: signature,
-- timestamp, envelope, decryption, merchant and nonce. The handlers differ in the texts of `Event`.
use drogon_pay.Common.{
  ◌⊎◌, inl, inr, Bool, true, false, not, ◌&&◌, ◌||◌, Option, none, some, if◌then◌else◌, Bytes,
  codes, bytes_eq, starts_with, is_empty,
}
use drogon_pay.Services.Callback.Types.{
  Delivery, WechatClient, Resource, Notice, Answer, answer_fail, NonceReply, Env, stored, seen,
  redis_error,
}
use drogon_pay.Services.Callback.Window.{is_timestamp_fresh}

pub record Event : Type 0 where
  pub prefix : Bytes
  pub wrong_prefix : Bytes
  pub associated : Bytes
  pub wrong_associated : Bytes

abbrev pub transaction_event : Event
transaction_event = record {
  prefix = codes "TRANSACTION.";
  wrong_prefix = codes "invalid transaction event_type";
  associated = codes "transaction";
  wrong_associated = codes "invalid transaction associated_data";
}

abbrev pub refund_event : Event
refund_event = record {
  prefix = codes "REFUND.";
  wrong_prefix = codes "invalid refund event_type";
  associated = codes "refund";
  wrong_associated = codes "invalid refund associated_data";
}

-- `respond` on a FAIL object: an empty error message leaves the error code empty.
abbrev pub respond : Bytes → Answer
respond error_msg =
    if is_empty error_msg then answer_fail 0 error_msg else answer_fail 1400 error_msg

unfoldable pub check_resource : Event → Bytes → Resource → Answer ⊎ Resource
check_resource event resource_type resource =
    if not (bytes_eq resource_type (codes "encrypt-resource"))
    then inl (respond (codes "unsupported resource_type"))
    else if not (bytes_eq resource.algorithm (codes "AEAD_AES_256_GCM"))
    then inl (respond (codes "unsupported resource algorithm"))
    else if is_empty resource.ciphertext || is_empty resource.resource_nonce
    then inl (respond (codes "invalid resource"))
    else if not (bytes_eq resource.associated_data event.associated)
    then inl (respond event.wrong_associated)
    else inr resource

unfoldable pub check_notice : Event → Notice → Answer ⊎ Resource
check_notice event notice =
    if is_empty notice.event_type
    then inl (respond (codes "missing event_type"))
    else if not (starts_with event.prefix notice.event_type)
    then inl (respond event.wrong_prefix)
    else elim notice.resource [
      | none ↦ inl (respond (codes "missing resource"))
      | some resource ↦ check_resource event notice.resource_type resource
    ]

-- The member `id` of the body, and the plain text of its resource.
pub record Opened : Type 0 where
  pub id : Bytes
  pub plaintext : Bytes

unfoldable pub decrypt : WechatClient → Bytes → Answer ⊎ Resource → Answer ⊎ Opened
decrypt client id (inl answer) = inl answer
decrypt client id (inr resource) =
    elim (client.decrypt_resource resource.ciphertext resource.resource_nonce
      resource.associated_data) [
        | inl decrypt_error ↦ inl (respond decrypt_error)
        | inr plaintext ↦ inr (record { id = id; plaintext = plaintext })
      ]

-- `wechatClient_->verifyCallback` as `verifySignature` calls it.
unfoldable pub verify_signature : WechatClient → Delivery → Bool
verify_signature client delivery =
    client.verify_callback delivery.timestamp delivery.nonce delivery.body delivery.signature
      delivery.serial_no

-- The checks up to the decryption.
unfoldable pub open_envelope : Env → Event → WechatClient → Delivery → Answer ⊎ Opened
open_envelope env event client delivery =
    if not (verify_signature client delivery)
    then inl (answer_fail 1400 (codes "signature verification failed"))
    else elim (is_timestamp_fresh env.now_sec delivery.timestamp) [
      | some ts_error ↦ inl (respond ts_error)
      | none ↦ elim (env.read_notice delivery.body) [
        | none ↦ inl (respond (codes "invalid json"))
        | some notice ↦ decrypt client notice.id (check_notice event notice)
      ]
    ]

-- The merchant of the plain text, where it names one.
unfoldable pub check_merchant : WechatClient → Bytes → Bytes → Option Answer
check_merchant client appid mchid =
    if not (is_empty appid) && not (bytes_eq appid client.app_id)
    then some (respond (codes "appid mismatch"))
    else if not (is_empty mchid) && not (bytes_eq mchid client.mch_id)
    then some (respond (codes "mchid mismatch"))
    else none

-- `checkNonce`: whether the nonce is seen for the first time. Without Redis, without a nonce and on an
-- error of Redis it counts as such.
unfoldable pub check_nonce : Option (Bytes → NonceReply) → Bytes → Bool
check_nonce none nonce = true
check_nonce (some set_nx) nonce =
    if is_empty nonce
    then true
    else elim (set_nx nonce) [ stored ↦ true | seen ↦ false | redis_error ↦ true ]
