-- ===== src/Utils/Host.antt =====
-- The hosts that a callback URL must not name, from libs/drogon-pay/src/utils/PayUtils.cc:
-- `parseIpv4`, `isPrivateIpv4`, `isGlobalUnicastIpv6`, `isNumericAddressShape` and `isBlockedHost`.
-- A host is its bytes. The lookup of a name is not modelled: the code makes none.
pub mod DottedQuad
pub mod Shapes
pub mod Gaps
pub mod Accepts
use Prim.Native.Nat.{bit_and}
use mathlib.Core.List.{map}
use mathlib.Core.Option
use drogon_pay.Common.{
  ℕ, zero, suc, ◌+◌, ◌-◌, ◌*◌, Bool, true, false, not, ◌&&◌, ◌||◌, Option, none, some, List, [],
  ◌∷◌, ◌++◌, Bytes, codes, ltb, leb, ◌==◌, if◌then◌else◌, length, take, drop, get_or, all, find,
  cut, bytes_eq, is_empty, is_digit, to_lower,
}

pub record Ipv4 : Type 0 where
  pub a : ℕ
  pub b : ℕ
  pub c : ℕ
  pub d : ℕ

-- The loop `v = v * 10 + (c - '0')` with its exit above 255.
octet_from : ℕ → Bytes → Option ℕ
octet_from v [] = some v
octet_from v (c ∷ s) =
    let rest = octet_from (v * 10 + (c - b'0')) s in
    if ltb 255 (v * 10 + (c - b'0')) then none else rest

-- The checks on one segment, and its value.
unfoldable pub parse_octet : Bytes → Option ℕ
unfolding octet_from
parse_octet seg =
    if is_empty seg || ltb 3 (length seg)
    then none
    else if not (all is_digit seg)
    then none
    else elim (octet_from 0 seg) [
      | none ↦ none
      | some v ↦ if ltb 1 (length seg) && get_or seg 0 0 == b'0' then none else some v
    ]

-- A segment that a dot must end, and the text behind the dot. The code looks for the dot first and
-- refuses a missing one behind the checks: both are `none`.
unfoldable pub dotted_octet : Bytes → Option (ℕ × Bytes)
dotted_octet host = elim (cut b'.' host) [
  | none ↦ none
  | some (seg, rest) ↦ Option.map (λ v. (v, rest)) (parse_octet seg)
]

-- The four rounds of the loop. The last segment runs to the end of the text, so a dot in it fails
-- the digit test.
unfoldable pub parse_ipv4 : Bytes → Option Ipv4
parse_ipv4 host = elim (dotted_octet host) [
  | none ↦ none
  | some (a, s1) ↦ elim (dotted_octet s1) [
    | none ↦ none
    | some (b, s2) ↦ elim (dotted_octet s2) [
      | none ↦ none
      | some (c, s3) ↦ elim (parse_octet s3) [
        | none ↦ none
        | some d ↦ some (record { a = a; b = b; c = c; d = d })
      ]
    ]
  ]
]

unfoldable pub is_private_ipv4 : ℕ → ℕ → Bool
is_private_ipv4 a b =
    if a == 10
    then true
    else if a == 172 && bit_and b 0xF0 == 16
    then true
    else if a == 192 && b == 168
    then true
    else if a == 127
    then true
    else if a == 169 && b == 254
    then true
    else if a == 0
    then true
    else if a == 100 && bit_and b 0xC0 == 64
    then true
    else false

-- The nibble of a hexadecimal digit; `none` is the value -1.
unfoldable pub nibble : ℕ → Option ℕ
nibble c =
    if leb b'0' c && leb c b'9'
    then some (c - b'0')
    else if leb b'a' c && leb c b'f'
    then some (c - b'a' + 10)
    else if leb b'A' c && leb c b'F'
    then some (c - b'A' + 10)
    else none

-- The second loop, with the digits left to read.
unfoldable pub leading_group : ℕ → ℕ → Bytes → ℕ
leading_group zero value host = value
leading_group (suc left) value [] = value
leading_group (suc left) value (c ∷ host) = elim (nibble c) [
  | none ↦ value
  | some n ↦ leading_group left (value * 16 + n) host
]

unfoldable pub is_global_unicast_ipv6 : Bytes → Bool
unfolding leading_group nibble
is_global_unicast_ipv6 [] = bit_and (leading_group 4 0 []) 0xE000 == 0x2000
is_global_unicast_ipv6 (c ∷ host) =
    if c == b':' then false else bit_and (leading_group 4 0 (c ∷ host)) 0xE000 == 0x2000

abbrev pub is_hex_digit : ℕ → Bool
is_hex_digit c = leb b'0' c && leb c b'9' || leb b'a' c && leb c b'f' || leb b'A' c && leb c b'F'

-- One round of the loop: is the label a numeric address group?
unfoldable pub is_numeric_label : Bytes → Bool
is_numeric_label label =
    if is_empty label
    then false
    else if ltb 2 (length label)
        && get_or label 0 0 == b'0'
        && (get_or label 1 0 == b'x' || get_or label 1 0 == b'X')
    then all is_hex_digit (drop 2 label)
    else all (λ c. leb b'0' c && leb c b'9') label

-- The loop, on fuel: each round consumes a dot, so one round more than the text has bytes is enough.
unfoldable pub numeric_labels : ℕ → Bytes → Bool
numeric_labels zero host = false
numeric_labels (suc fuel) host = elim (cut b'.' host) [
  | none ↦ is_numeric_label host
  | some (label, rest) ↦ elim (is_numeric_label label) [
    | false ↦ false
    | true ↦ numeric_labels fuel rest
  ]
]

unfoldable pub is_numeric_address_shape : Bytes → Bool
is_numeric_address_shape host = numeric_labels (suc (length host)) host

unfoldable pub is_blocked_host : Bytes → Bool
is_blocked_host host =
    if is_empty host
    then true
    else let lower = map to_lower host in
      if bytes_eq lower (codes "localhost") || bytes_eq lower (codes "localhost.")
      then true
      else elim (find b':' host) [
        | some i ↦ not (is_global_unicast_ipv6 host)
        | none ↦ elim (parse_ipv4 host) [
          | some ip ↦ is_private_ipv4 ip.a ip.b
          | none ↦ if is_numeric_address_shape lower then true else false
        ]
      ]
