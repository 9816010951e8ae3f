-- ===== src/Tests/Fields.antt =====
-- The theorems on request fields, deadlines and callbacks, at given inputs.
use drogon_pay.Common.{ℕ, ◌≤◌, ◌≡◌, refl, ◌↔◌, true, false, none, List, [], ◌∷◌, arith, codes, all}
use drogon_pay.Common.Int.{ℤ, ◌+ℤ◌, pos}
use drogon_pay.Utils.PathSegment.{url_encode_path_segment}
use drogon_pay.Utils.PathSegment.Decode.{decode, is_segment_byte, url_encode_path_segment-decode}
use drogon_pay.Utils.OrderFields.{is_order_no_byte, validate_wechat_order_fields}
use drogon_pay.Utils.OrderFields.Utf8.{utf8_text, validate_wechat_order_fields-utf8_text}
use drogon_pay.Utils.OnceCallback.{valid, call_all, call_all-waiting, waiting, taken}
use drogon_pay.Utils.Deadline.{
  days_in_month, days_from_civil, Fields, moment_exists, parse_rfc3339, accepted,
}
use drogon_pay.Utils.Deadline.Calendar.{
  CivilDate, IsDate, next_date, day_count, days_from_civil-next_date,
}
use drogon_pay.Utils.Deadline.Stamp.{
  offset_of, print_stamp, local_seconds, parse_rfc3339-print_stamp, east,
}

url_encode_path_segment-decode_example :
    (decode (url_encode_path_segment (codes "a/b?c=%")) ≡ codes "a/b?c=%")
    × (all is_segment_byte (url_encode_path_segment (codes "a/b?c=%")) ≡ true)
url_encode_path_segment-decode_example = url_encode_path_segment-decode (codes "a/b?c=%") refl

-- Two characters of three bytes each, and no attachment.
validate_wechat_order_fields-utf8_text_example :
    (validate_wechat_order_fields
        (codes "ORDER_1")
        (utf8_text (0x652F ∷ 0x4ED8 ∷ []))
        (utf8_text [])
      ≡ none)
    ↔ ((6 ≤ 7)
        × (7 ≤ 32)
        × (all is_order_no_byte (codes "ORDER_1") ≡ true)
        × (1 ≤ 2)
        × (2 ≤ 127)
        × (0 ≤ 128))
validate_wechat_order_fields-utf8_text_example =
    validate_wechat_order_fields-utf8_text (codes "ORDER_1") (0x652F ∷ 0x4ED8 ∷ []) [] refl refl

abbrev first_reply : ℕ
first_reply = 1

abbrev later_replies : List ℕ
later_replies = 2 ∷ 3 ∷ []

call_all-waiting_example :
    (call_all (first_reply ∷ later_replies) waiting
      ≡ record { state = taken; ran = first_reply ∷ []; answers = true ∷ false ∷ false ∷ [] })
    × (valid (call_all (first_reply ∷ later_replies) waiting).state ≡ false)
call_all-waiting_example = call_all-waiting first_reply later_replies

abbrev leap_day : CivilDate
leap_day = record { year = 2024; month = 2; day = 28 }

leap_day-IsDate : IsDate leap_day
unfolding days_in_month
leap_day-IsDate = ground arith

days_from_civil-next_date_example :
    (day_count (next_date leap_day) ≡ day_count leap_day +ℤ pos 1)
    × (days_from_civil 1970 1 1 ≡ pos 0)
days_from_civil-next_date_example = days_from_civil-next_date leap_day leap_day-IsDate

abbrev noon : Fields
noon = record { year = 2026; month = 5; day = 20; hour = 12; minute = 0; second = 30 }

noon_exists : moment_exists noon ≡ true
unfolding moment_exists days_in_month
noon_exists = refl

parse_rfc3339-print_stamp_example :
    (s : ℤ) × (parse_rfc3339 (print_stamp noon (codes "25") (east 8 0)) ≡ accepted s)
    × (s +ℤ offset_of (east 8 0) ≡ local_seconds noon)
parse_rfc3339-print_stamp_example =
    parse_rfc3339-print_stamp noon (codes "25") (east 8 0) (ground arith) noon_exists refl
      (ground arith)
