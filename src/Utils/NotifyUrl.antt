-- ===== src/Utils/NotifyUrl.antt =====
-- Callback URLs, from libs/drogon-pay/src/utils/PayUtils.cc: `extractUrlHost` and
-- `validateNotifyUrl`. `std::string::npos` is `none`.
pub mod Extract
pub mod Accept
use drogon_pay.Common.{
  ℕ, ◌+◌, ◌-◌, ◌*◌, String, Bool, not, ◌&&◌, ◌||◌, Option, none, some, [], ltb, leb, ◌==◌,
  if◌then◌else◌, Bytes, codes, length, take, drop, get_or, substr, rfind, starts_with, is_empty,
  find_sub, find_first_from,
}
use drogon_pay.Utils.Host.{is_blocked_host}

abbrev pub is_authority_end : ℕ → Bool
is_authority_end c = c == b'/' || c == b'?' || c == b'#'

abbrev pub is_host_end : ℕ → Bool
is_host_end c = c == b'/' || c == b':' || c == b'?' || c == b'#'

-- `url.find_first_of("/?#", hostStart)`, or the end of the text.
unfoldable pub authority_end : Bytes → ℕ → ℕ
authority_end url host_start = elim (find_first_from is_authority_end host_start url) [
  | none ↦ length url
  | some i ↦ i
]

-- The start of the host behind the userinfo. `rfind('@', end - 1)` looks at the first `end` bytes.
unfoldable pub skip_userinfo : Bytes → ℕ → ℕ
unfolding authority_end
skip_userinfo url host_start =
    if ltb host_start (authority_end url host_start)
    then elim (rfind b'@' (take (authority_end url host_start) url)) [
      | none ↦ host_start
      | some at ↦ if leb host_start at then at + 1 else host_start
    ]
    else host_start

-- The host that starts at `host_start`: in brackets, or up to the first of "/:?#".
unfoldable pub host_at : Bytes → ℕ → Bytes
host_at url host_start =
    if ltb host_start (length url) && get_or url host_start 0 == b'['
    then elim (find_first_from (λ c. c == b']') (host_start + 1) url) [
      | none ↦ []
      | some close ↦ substr (host_start + 1) (close - host_start - 1) url
    ]
    else elim (find_first_from is_host_end host_start url) [
      | none ↦ drop host_start url
      | some end ↦ substr host_start (end - host_start) url
    ]

unfoldable pub extract_url_host : Bytes → Bytes
extract_url_host url = elim (find_sub (codes "://") url) [
  | none ↦ []
  | some i ↦ if leb (length url) (i + 3) then [] else host_at url (skip_userinfo url (i + 3))
]

-- The error message; `none` is the answer true, with the message cleared.
unfoldable pub validate_notify_url : Bytes → Option String
validate_notify_url url =
    if is_empty url
    then none
    else if not (starts_with (codes "http://") url) && not (starts_with (codes "https://") url)
    then some "invalid notify_url (must start with http:// or https://)"
    else if ltb 512 (length url)
    then some "notify_url too long (max 512 characters)"
    else if is_blocked_host (extract_url_host url)
    then some "notify_url host must not be a private, loopback, or link-local address"
    else none
