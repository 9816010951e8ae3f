-- ===== src/Tests/Utils.antt =====
-- The theorems on amounts, hosts, callback URLs and states, at given inputs.

use mathlib.Core.List.{map}
use drogon_pay.Common.{
  ◌≤◌, ◌<◌, String, ◌≡◌, refl, ◌≢◌, ◌↔◌, inr, true, false, none, some, [], ◌++◌, arith, codes,
  length, find_first, bytes_eq, to_lower, cut,
}
use drogon_pay.Common.Int.{◌≤ℤ◌, pos}
use drogon_pay.Models.Status.{paid, refunded, success}
use drogon_pay.Utils.Amount.{parse_amount_to_fen}
use drogon_pay.Utils.Amount.Parse.{Spells, parse_amount_to_fen-Spells}
use drogon_pay.Utils.Status.{map_trade_state, resolve_refunded_order_status}
use drogon_pay.Utils.Status.Settles.{
  IsCollected, map_trade_state-success, resolve_refunded_order_status-map_trade_state,
}
use drogon_pay.Utils.Host.{
  Ipv4, parse_octet, dotted_octet, parse_ipv4, is_private_ipv4, is_numeric_address_shape,
  is_blocked_host,
}
use drogon_pay.Utils.Host.DottedQuad.{
  octet, parse_octet-octet, quad, IsAddress, parse_ipv4-quad, IsReserved,
  is_private_ipv4-IsReserved,
}
use drogon_pay.Utils.Host.Shapes.{
  NumberText, NumericName, is_numeric_address_shape-NumericName, decimal_text, last_label,
  more_labels,
}
use drogon_pay.Utils.Host.Accepts.{is_blocked_host-quad, is_blocked_host-NumericName}
use drogon_pay.Utils.Host.Gaps.{is_blocked_host-trailing_dot}
use drogon_pay.Utils.NotifyUrl.{extract_url_host, validate_notify_url}
use drogon_pay.Utils.NotifyUrl.Extract.{Url, url_text, IsUrl, extract_url_host-url_text}
use drogon_pay.Utils.NotifyUrl.Accept.{validate_notify_url-host, validate_notify_url-quad}

parse_amount_to_fen-Spells_example :
    (parse_amount_to_fen (codes "12.5") ≡ some 1250) ↔ Spells (codes "12.5") 1250
parse_amount_to_fen-Spells_example = parse_amount_to_fen-Spells (codes "12.5") 1250

parse_octet-octet_example :
    (parse_octet (codes "168") ≡ some 168) ↔ ((codes "168" ≡ octet 168) × (168 < 256))
parse_octet-octet_example = parse_octet-octet (codes "168") 168

abbrev refund_state : String
refund_state = "REFUND"

abbrev router : Ipv4
router = record { a = 192; b = 168; c = 1; d = 1 }

abbrev resolver : Ipv4
resolver = record { a = 8; b = 8; c = 4; d = 4 }

parse_ipv4-quad_example :
    (parse_ipv4 (codes "192.168.1.1") ≡ some router)
    ↔ ((codes "192.168.1.1" ≡ quad router) × IsAddress router)
parse_ipv4-quad_example = parse_ipv4-quad (codes "192.168.1.1") router

router-IsAddress : IsAddress router
router-IsAddress = ground arith

resolver-IsAddress : IsAddress resolver
resolver-IsAddress = ground arith

is_private_ipv4-IsReserved_example : (is_private_ipv4 192 168 ≡ true) ↔ IsReserved router
is_private_ipv4-IsReserved_example = is_private_ipv4-IsReserved router router-IsAddress

is_numeric_address_shape-NumericName_example :
    (is_numeric_address_shape (codes "0x7f.1") ≡ true) ↔ NumericName (codes "0x7f.1")
is_numeric_address_shape-NumericName_example = is_numeric_address_shape-NumericName (codes "0x7f.1")

is_blocked_host-quad_example : (is_blocked_host (quad router) ≡ true) ↔ IsReserved router
is_blocked_host-quad_example = is_blocked_host-quad router router-IsAddress

four_labels : NumericName (map to_lower (codes "8.8.4.4"))
unfolding to_lower
four_labels = more_labels _ (codes "8") (codes "8.4.4") refl refl eight (
    more_labels _ (codes "8") (codes "4.4") refl refl eight
      (more_labels _ (codes "4") (codes "4") refl refl four (last_label _ refl four)))
  where
    eight : NumberText (codes "8")
    eight = decimal_text 56 [] (ground arith, tt)

    four : NumberText (codes "4")
    four = decimal_text 52 [] (ground arith, tt)

passes : is_blocked_host (codes "8.8.4.4") ≡ false
unfolding is_blocked_host parse_ipv4 dotted_octet parse_octet is_private_ipv4 bytes_eq to_lower
    find_first cut
passes = refl

is_blocked_host-NumericName_example :
    (ip : Ipv4) × (codes "8.8.4.4" ≡ quad ip) × IsAddress ip × (¬ IsReserved ip)
is_blocked_host-NumericName_example =
    is_blocked_host-NumericName (codes "8.8.4.4") refl four_labels passes

not_localhost_name : map to_lower (codes "127.0.0.1") ≢ codes "localhost"
unfolding to_lower
not_localhost_name e = ground arith

is_blocked_host-trailing_dot_example : is_blocked_host (codes "127.0.0.1" ++ codes ".") ≡ false
is_blocked_host-trailing_dot_example =
    is_blocked_host-trailing_dot (codes "127.0.0.1") refl not_localhost_name

abbrev callback : Url
callback = record {
  scheme = codes "https://";
  userinfo = codes "u:p@";
  host = codes "8.8.4.4";
  port = codes ":8443";
  path = codes "/pay?x=@10.0.0.1";
}

callback-IsUrl : IsUrl callback
callback-IsUrl = record {
  known_scheme = inr refl;
  user_part = inr (codes "u:p", refl, refl);
  host_head = refl;
  host_body = refl;
  host_no_at = refl;
  port_head = refl;
  port_body = refl;
  port_no_at = refl;
  path_head = refl;
}

extract_url_host-url_text_example : extract_url_host (url_text callback) ≡ codes "8.8.4.4"
extract_url_host-url_text_example = extract_url_host-url_text callback callback-IsUrl

validate_notify_url-host_example :
    (validate_notify_url (url_text callback) ≡ none)
    ↔ ((length (url_text callback) ≤ 512) × (is_blocked_host (codes "8.8.4.4") ≡ false))
validate_notify_url-host_example = validate_notify_url-host callback callback-IsUrl

validate_notify_url-quad_example :
    (validate_notify_url (url_text callback) ≡ none) ↔ (¬ IsReserved resolver)
validate_notify_url-quad_example =
    validate_notify_url-quad callback resolver callback-IsUrl resolver-IsAddress refl (ground arith)

map_trade_state-success_example :
    ((map_trade_state "REFUND").payment_status ≡ success) ↔ IsCollected "REFUND"
map_trade_state-success_example = map_trade_state-success "REFUND"

resolve_refunded_order_status-map_trade_state_example :
    ((resolve_refunded_order_status (map_trade_state refund_state).order_status (pos 300) (pos 800)
        ≡ refunded)
      ↔ ((refund_state ≡ "REFUND") × (pos 1 ≤ℤ pos 800) × (pos 800 ≤ℤ pos 300)))
    × ((refund_state ≡ "REFUND")
        → (¬ ((pos 1 ≤ℤ pos 800) × (pos 800 ≤ℤ pos 300)))
        → resolve_refunded_order_status
            (map_trade_state refund_state).order_status
            (pos 300)
            (pos 800)
          ≡ paid)
    × ((refund_state ≢ "REFUND")
        → resolve_refunded_order_status
            (map_trade_state refund_state).order_status
            (pos 300)
            (pos 800)
          ≡ (map_trade_state refund_state).order_status)
    × ((resolve_refunded_order_status
            (map_trade_state refund_state).order_status
            (pos 300)
            (pos 800)
          ≡ paid)
        → (map_trade_state refund_state).payment_status ≡ success)
resolve_refunded_order_status-map_trade_state_example =
    resolve_refunded_order_status-map_trade_state refund_state (pos 300) (pos 800)
