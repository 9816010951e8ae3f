-- ===== src/Utils/Host/Accepts.antt =====
-- The hosts that `isBlockedHost` accepts among the address spellings.
use mathlib.Core.List.{map}
use drogon_pay.Common.{
  ℕ, ◌<◌, ◌≡◌, refl, ap, ◌↔◌, inl, inr, Bool, true, false, none, ◌∷◌, arith, ◌==◌, Option-cases,
  Bytes, codes, any, bytes_eq, is_empty, to_lower,
}
use drogon_pay.Common.Find.{find_first-none, Lacks, any-append}
use drogon_pay.Utils.Host.{Ipv4, parse_ipv4, is_private_ipv4, is_blocked_host}
use drogon_pay.Utils.Host.DottedQuad.{
  octet, quad, IsAddress, parse_ipv4-quad, IsReserved, is_private_ipv4-IsReserved,
}
use drogon_pay.Utils.Host.Shapes.{NumericName, is_numeric_address_shape-NumericName}

quad-Lacks : (ip : Ipv4) → IsAddress ip → Lacks b':' (quad ip)
quad-Lacks ip (ha, hb, hc, hd) = any-append colon (octet ip.a) _ (octet_no_colon ip.a ha) (
    any-append colon (octet ip.b) _ (octet_no_colon ip.b hb)
      (any-append colon (octet ip.c) _ (octet_no_colon ip.c hc) (octet_no_colon ip.d hd)))
  where
    colon : ℕ → Bool
    colon d = d == b':'

    octet_no_colon : (n : ℕ) → n < 256 → any (λ d. d == b':') (octet n) ≡ false
    octet_no_colon n h = ground arith

quad_not_empty : (ip : Ipv4) → is_empty (quad ip) ≡ false
quad_not_empty ip = ground arith

not_local :
    (ip : Ipv4) → IsAddress ip → (t : Bytes) → bytes_eq (map to_lower (quad ip)) (b'l' ∷ t) ≡ false
unfolding bytes_eq to_lower
not_local ip h t = ground arith

is_blocked_host-private :
    (ip : Ipv4) → IsAddress ip → is_blocked_host (quad ip) ≡ is_private_ipv4 ip.a ip.b
unfolding is_blocked_host
is_blocked_host-private ip h = rw (
  quad_not_empty ip,
  not_local ip h (codes "ocalhost"),
  not_local ip h (codes "ocalhost."),
  find_first-none (λ d. d == b':') (quad ip) (quad-Lacks ip h),
  is_blocked_host,
  (parse_ipv4-quad (quad ip) ip).1 (refl, h),
)

-- The dotted quad of four numbers below 256 is blocked just when the address is reserved.
pub is_blocked_host-quad :
    (ip : Ipv4) → IsAddress ip → (is_blocked_host (quad ip) ≡ true) ↔ IsReserved ip
is_blocked_host-quad ip h = rw (is_blocked_host-private ip h) (is_private_ipv4-IsReserved ip h)

unparsed_NumericName :
    (host : Bytes)
    → Lacks b':' host
    → NumericName (map to_lower host)
    → parse_ipv4 host ≡ none
    → is_blocked_host host ≡ true
unfolding is_blocked_host
unparsed_NumericName host l n e =
    rw
      (
        find_first-none (λ d. d == b':') host l,
        is_blocked_host,
        e,
        (is_numeric_address_shape-NumericName (map to_lower host)).1 n,
      )
      (ground arith)

-- A host without ":" whose labels, in lower case, are numeric address groups (decimal, or 0x and hex
-- digits) and that passes is the dotted quad of an address outside the reserved blocks: every other
-- spelling with such labels is blocked.
pub is_blocked_host-NumericName :
    (host : Bytes)
    → Lacks b':' host
    → NumericName (map to_lower host)
    → is_blocked_host host ≡ false
    → (ip : Ipv4) × (host ≡ quad ip) × IsAddress ip × (¬ IsReserved ip)
is_blocked_host-NumericName host l n pass = elim (Option-cases (parse_ipv4 host)) [
  | inl e ↦ absurd (cc (unparsed_NumericName host l n e))
  | inr (ip, e) ↦ canonical ip ((parse_ipv4-quad host ip).0 e)
]
  where
    canonical :
        (ip : Ipv4)
        → (host ≡ quad ip) × IsAddress ip
        → (ip : Ipv4) × (host ≡ quad ip) × IsAddress ip × (¬ IsReserved ip)
    canonical ip (e, h) =
        (ip, e, h, λ r. cc ((is_blocked_host-quad ip h).1 r, ap is_blocked_host e))
