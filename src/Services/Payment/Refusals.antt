-- ===== src/Services/Payment/Refusals.antt =====
-- What a channel's answer to a new payment means: `channelResultError`, `attemptCertainlyNotCreated` and
-- `normalizeQrCurrency`.
use drogon_pay.Common.{
  ℕ, ◌+◌, ◌-◌, Bool, true, false, not, ◌&&◌, ◌||◌, Option, none, some, [], ◌∷◌, ◌++◌, leb, ◌==◌,
  if◌then◌else◌, Bytes, codes, length, bytes_eq, starts_with, is_empty,
}
use drogon_pay.Services.Refund.Invoke.{contains}

-- The members of the JSON answer that the service reads; `none` is one that is missing or no string.
pub record QrResult : Type 0 where
  pub code : Bytes
  pub sub_code : Bytes
  pub sub_msg : Bytes
  pub msg : Bytes
  pub message : Bytes
  pub code_url : Option Bytes
  pub prepay_id : Option Bytes
  pub qr_code : Option Bytes
  pub out_trade_no : Option Bytes

-- `kNoPayableCode`
abbrev pub no_payable_code : Bytes
no_payable_code = codes "WeChat response carries neither code_url nor prepay_id"

-- `value.isString() && !value.asString().empty()`
abbrev pub is_given : Option Bytes → Bool
is_given none = false
is_given (some text) = not (is_empty text)

-- `channelResultError`; `none` is the empty text.
unfoldable pub channel_result_error : Bytes → QrResult → Option Bytes
channel_result_error channel result =
    if bytes_eq channel (codes "alipay")
    then (if bytes_eq result.code (codes "10000")
        then none
        else if not (is_empty result.sub_msg)
        then some (codes "Alipay error: " ++ result.sub_msg)
        else if not (is_empty result.msg)
        then some (codes "Alipay error: " ++ result.msg)
        else some (codes "Alipay error: code " ++ result.code))
    else if bytes_eq channel (codes "wechat")
    then (if is_given result.code_url || is_given result.prepay_id
        then none
        else if is_empty result.code
        then some no_payable_code
        else some (codes "WeChat error: " ++ result.code ++ codes " " ++ result.message))
    else none

-- `attemptCertainlyNotCreated`
unfoldable pub attempt_certainly_not_created : Bytes → Bool
attempt_certainly_not_created error =
    if starts_with (codes "Alipay error: ") error || starts_with (codes "WeChat error: ") error
    then true
    else if starts_with (codes "HTTP 4") error && not (contains (codes "no error envelope") error)
    then true
    else if bytes_eq error no_payable_code
    then false
    else not (
        starts_with (codes "HTTP ") error
        || (starts_with (codes "http request") error
            || bytes_eq error (codes "invalid json response")))

abbrev pub upper_letter : ℕ → Option ℕ
upper_letter c =
    if leb b'A' c && leb c b'Z'
    then some c
    else if leb b'a' c && leb c b'z'
    then some (c - b'a' + b'A')
    else none

abbrev pub upper_letters : Bytes → Option Bytes
upper_letters [] = some []
upper_letters (c ∷ s) = elim (upper_letter c) [
  | none ↦ none
  | some up ↦ elim (upper_letters s) [ none ↦ none | some rest ↦ some (up ∷ rest) ]
]

-- `normalizeQrCurrency`; `none` is not valid.
unfoldable pub normalize_qr_currency : Bytes → Option Bytes
normalize_qr_currency currency = if length currency == 3 then upper_letters currency else none
