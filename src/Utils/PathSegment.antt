-- ===== src/Utils/PathSegment.antt =====
-- `urlEncodePathSegment` of utils/PayUtils.cc.
pub mod Decode
use Prim.Native.Nat.{bit_and}
use drogon_pay.Common.{
  ℕ, ◌+◌, ◌*◌, ◌/◌, Bool, ◌&&◌, ◌||◌, [], ◌∷◌, ltb, leb, ◌==◌, if◌then◌else◌, Bytes, is_digit,
}

-- `kHex[i]`, for an index below 16.
abbrev pub hex_digit : ℕ → ℕ
hex_digit i = if ltb i 10 then 48 + i else 55 + i

abbrev pub is_unreserved : ℕ → Bool
is_unreserved c =
    (leb b'A' c && leb c b'Z')
    || ((leb b'a' c && leb c b'z')
        || (is_digit c || (c == b'-' || (c == b'_' || (c == b'.' || c == b'~')))))

unfoldable pub url_encode_path_segment : Bytes → Bytes
url_encode_path_segment [] = []
url_encode_path_segment (c ∷ raw) =
    if is_unreserved c
    then c ∷ url_encode_path_segment raw
    else b'%'
      ∷ hex_digit (bit_and (c / 16) 0xF)
      ∷ hex_digit (bit_and c 0xF)
      ∷ url_encode_path_segment raw
