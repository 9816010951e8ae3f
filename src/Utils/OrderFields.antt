-- ===== src/Utils/OrderFields.antt =====
-- `validateWechatOrderFields` of utils/PayUtils.cc.
pub mod Utf8
use Prim.Native.Nat.{bit_and}
use drogon_pay.Common.{
  ℕ, suc, ◌-◌, ◌*◌, String, Bool, not, ◌&&◌, ◌||◌, Option, none, some, [], ◌∷◌, ltb, leb, ◌==◌,
  if◌then◌else◌, Bytes, length, all, is_empty, is_digit,
}

unfoldable pub utf8_code_point_length : Bytes → ℕ
utf8_code_point_length [] = 0
utf8_code_point_length (c ∷ s) =
    if not (bit_and c 0xC0 == 0x80)
    then suc (utf8_code_point_length s)
    else utf8_code_point_length s

-- The bytes that an order number may have.
abbrev pub is_order_no_byte : ℕ → Bool
is_order_no_byte c =
    is_digit c
    || ((leb b'a' c && leb c b'z')
        || ((leb b'A' c && leb c b'Z') || (c == b'_' || (c == b'-' || (c == b'|' || c == b'*')))))

-- The error message, where there is one.
unfoldable pub validate_wechat_order_fields : Bytes → Bytes → Bytes → Option String
validate_wechat_order_fields out_trade_no description attach =
    if ltb (length out_trade_no) 6 || ltb 32 (length out_trade_no)
    then some "order_no must be 6-32 characters for WeChat Pay"
    else if not (all is_order_no_byte out_trade_no)
    then some "order_no may only contain digits, letters, and _ - | * for WeChat Pay"
    else if is_empty description
    then some "description is required for WeChat Pay"
    else if ltb 127 (utf8_code_point_length description)
    then some "description exceeds 127 characters"
    else if not (is_empty attach) && ltb 128 (utf8_code_point_length attach)
    then some "attach exceeds 128 characters"
    else none
