-- ===== src/Utils/NotifyUrl/Accept.antt =====
-- What `validateNotifyUrl` accepts.
use drogon_pay.Common.{
  ◌≤◌, ◌≡◌, refl, ap, ◌∙◌, ◌↔◌, ◌⊎◌, inl, inr, false, not, ◌&&◌, none, ◌++◌, arith, Bool-cases,
  Bytes, codes, length, starts_with, is_empty,
}
use drogon_pay.Utils.Host.{Ipv4, is_blocked_host}
use drogon_pay.Utils.Host.DottedQuad.{quad, IsAddress, IsReserved}
use drogon_pay.Utils.Host.Accepts.{is_blocked_host-quad}
use drogon_pay.Utils.NotifyUrl.{validate_notify_url}
use drogon_pay.Utils.NotifyUrl.Extract.{Url, url_text, IsUrl, extract_url_host-url_text}

url_starts :
    (scheme rest : Bytes)
    → (scheme ≡ codes "http://") ⊎ (scheme ≡ codes "https://")
    → (is_empty (scheme ++ rest) ≡ false)
      × (not (starts_with (codes "http://") (scheme ++ rest))
            && not (starts_with (codes "https://") (scheme ++ rest))
          ≡ false)
unfolding starts_with
url_starts scheme rest (inl e) = rw e (refl, refl)
url_starts scheme rest (inr e) = rw e (refl, refl)

-- A well-formed http or https URL, its host no bracketed literal, is accepted just when it has at most
-- 512 bytes and its host is not blocked.
pub validate_notify_url-host :
    (u : Url)
    → IsUrl u
    → (validate_notify_url (url_text u) ≡ none)
      ↔ ((length (url_text u) ≤ 512) × (is_blocked_host u.host ≡ false))
unfolding validate_notify_url
validate_notify_url-host u v =
    let (full, known) =
      url_starts u.scheme ((u.userinfo ++ (u.host ++ u.port)) ++ u.path) v.known_scheme in
    rw (full, known, extract_url_host-url_text u v) (ground arith)

-- Such a URL of at most 512 bytes whose host is the dotted quad of four bytes is accepted just when the
-- address lies outside the reserved blocks, whatever userinfo, port and path stand around it.
pub validate_notify_url-quad :
    (u : Url) (ip : Ipv4)
    → IsUrl u
    → IsAddress ip
    → u.host ≡ quad ip
    → length (url_text u) ≤ 512
    → (validate_notify_url (url_text u) ≡ none) ↔ (¬ IsReserved ip)
validate_notify_url-quad u ip v h e short = (accepted, public)
  where
    accepted : validate_notify_url (url_text u) ≡ none → ¬ IsReserved ip
    accepted p r = cc (
      ((validate_notify_url-host u v).0 p).1,
      (is_blocked_host-quad ip h).1 r,
      ap is_blocked_host e,
    )

    public : (¬ IsReserved ip) → validate_notify_url (url_text u) ≡ none
    public r = elim (Bool-cases (is_blocked_host (quad ip))) [
      | inl b ↦ absurd (r ((is_blocked_host-quad ip h).0 b))
      | inr b ↦ (validate_notify_url-host u v).1 (short, ap is_blocked_host e ∙ b)
    ]
