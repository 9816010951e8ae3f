-- ===== src/Utils/Host/DottedQuad.antt =====
-- The dotted quads that `parseIpv4` accepts, and the address blocks that `isPrivateIpv4` refuses.
use Prim.Native.Nat.{bit_and}
use drogon_pay.Common.{
  ℕ, ◌+◌, ◌-◌, ◌*◌, ◌/◌, ◌%◌, ◌^◌, ◌<◌, ◌≡◌, refl, ◌↔◌, ◌⊎◌, inl, inr, true, some, [], ◌∷◌, ◌++◌,
  arith, ltb, ◌==◌, if◌then◌else◌, ==_iff, Option-cases, Bytes,
}
use drogon_pay.Common.Table.{holds_from, holds_from-at, bit_and-high_bits}
use drogon_pay.Common.Find.{Lacks, cut-some, cut-cases}
use drogon_pay.Utils.Host.{Ipv4, parse_octet, dotted_octet, parse_ipv4, is_private_ipv4}

-- The decimal print of a number below 1000, with no leading zero.
abbrev pub octet : ℕ → Bytes
octet n =
    if ltb n 10
    then (48 + n) ∷ []
    else if ltb n 100
    then (48 + n / 10) ∷ (48 + n % 10) ∷ []
    else (48 + n / 100) ∷ (48 + n / 10 % 10) ∷ (48 + n % 10) ∷ []

-- `seg` is accepted with value `v` just when it is the print of `v`, and `v` is below 256.
pub parse_octet-octet :
    (seg : Bytes) (v : ℕ) → (parse_octet seg ≡ some v) ↔ ((seg ≡ octet v) × (v < 256))
unfolding parse_octet
parse_octet-octet [] v = ground arith
parse_octet-octet (a ∷ []) v = ground arith
parse_octet-octet (a ∷ b ∷ []) v = ground arith
parse_octet-octet (a ∷ b ∷ c ∷ []) v = ground arith
parse_octet-octet (a ∷ b ∷ c ∷ d ∷ s) v = ground arith

octet-Lacks : (n : ℕ) → n < 256 → Lacks b'.' (octet n)
octet-Lacks n h = ground arith

dotted_octet_complete :
    (rest : Bytes) (v : ℕ) → v < 256 → dotted_octet (octet v ++ b'.' ∷ rest) ≡ some (v, rest)
unfolding dotted_octet
dotted_octet_complete rest v h =
    rw (cut-some b'.' (octet v) rest (octet-Lacks v h), dotted_octet)
      (rw ((parse_octet-octet (octet v) v).1 (refl, h)))

dotted_octet_sound :
    (host rest : Bytes) (v : ℕ)
    → dotted_octet host ≡ some (v, rest)
    → (host ≡ octet v ++ b'.' ∷ rest) × (v < 256)
unfolding dotted_octet
dotted_octet_sound host rest v e = elim (cut-cases b'.' host) [
  | inl (absent, _) ↦ cc (rw (absent, dotted_octet) at e)
  | inr (seg, behind, found, splits, _) ↦ elim (Option-cases (parse_octet seg)) [
    | inl bad ↦ cc (rw (found, dotted_octet, bad) at e)
    | inr (w, good) ↦
        ground
          (arith, rw (found, dotted_octet, good) at e, splits, (parse_octet-octet seg w).0 good)
  ]
]

-- The text of an address, and its range.
abbrev pub quad : Ipv4 → Bytes
quad ip = octet ip.a ++ b'.' ∷ (octet ip.b ++ b'.' ∷ (octet ip.c ++ b'.' ∷ octet ip.d))

abbrev pub IsAddress : Ipv4 → Type 0
IsAddress ip = (ip.a < 256) × (ip.b < 256) × (ip.c < 256) × (ip.d < 256)

parse_ipv4_complete : (ip : Ipv4) → IsAddress ip → parse_ipv4 (quad ip) ≡ some ip
unfolding parse_ipv4
parse_ipv4_complete ip (ha, hb, hc, hd) =
    rw
      (
        dotted_octet_complete (octet ip.b ++ b'.' ∷ (octet ip.c ++ b'.' ∷ octet ip.d)) ip.a ha,
        parse_ipv4,
        dotted_octet_complete (octet ip.c ++ b'.' ∷ octet ip.d) ip.b hb,
      )
      (rw (dotted_octet_complete (octet ip.d) ip.c hc)
        (rw ((parse_octet-octet (octet ip.d) ip.d).1 (refl, hd))))

parse_ipv4_sound :
    (host : Bytes) (ip : Ipv4) → parse_ipv4 host ≡ some ip → (host ≡ quad ip) × IsAddress ip
unfolding parse_ipv4
parse_ipv4_sound host ip e = elim (Option-cases (dotted_octet host)) [
  | inl n ↦ absurd (ground arith)
  | inr ((a, s1), p) ↦ elim (Option-cases (dotted_octet s1)) [
    | inl n ↦ absurd (ground arith)
    | inr ((b, s2), q) ↦ elim (Option-cases (dotted_octet s2)) [
      | inl n ↦ absurd (ground arith)
      | inr ((c, s3), r) ↦ elim (Option-cases (parse_octet s3)) [
        | inl n ↦ absurd (ground arith)
        | inr (d, t) ↦ ground (
          arith,
          dotted_octet_sound host s1 a p,
          dotted_octet_sound s1 s2 b q,
          dotted_octet_sound s2 s3 c r,
          (parse_octet-octet s3 d).0 t,
        )
      ]
    ]
  ]
]

-- `parseIpv4` reads exactly the canonical dotted quads, and reads them right.
pub parse_ipv4-quad :
    (host : Bytes) (ip : Ipv4) → (parse_ipv4 host ≡ some ip) ↔ ((host ≡ quad ip) × IsAddress ip)
parse_ipv4-quad host ip = (parse_ipv4_sound host ip, λ h. rw (h.0) (parse_ipv4_complete ip h.1))

-- The 32-bit address, and membership in a block of `2 ^ (32 - len)` addresses.
abbrev pub address : Ipv4 → ℕ
address ip = ip.a * 2 ^ 24 + ip.b * 2 ^ 16 + ip.c * 2 ^ 8 + ip.d

abbrev pub InBlock : Ipv4 → Ipv4 → ℕ → Type 0
InBlock ip base len = address ip / 2 ^ (32 - len) ≡ address base / 2 ^ (32 - len)

abbrev pub ipv4 : ℕ → ℕ → ℕ → ℕ → Ipv4
ipv4 a b c d = record { a = a; b = b; c = c; d = d }

-- The blocks that the source names: 10/8, 172.16/12, 192.168/16, 127/8, 169.254/16, 0/8, 100.64/10.
abbrev pub IsReserved : Ipv4 → Type 0
IsReserved ip =
    InBlock ip (ipv4 10 0 0 0) 8
    ⊎ (InBlock ip (ipv4 172 16 0 0) 12
        ⊎ (InBlock ip (ipv4 192 168 0 0) 16
            ⊎ (InBlock ip (ipv4 127 0 0 0) 8
                ⊎ (InBlock ip (ipv4 169 254 0 0) 16
                    ⊎ (InBlock ip (ipv4 0 0 0 0) 8 ⊎ InBlock ip (ipv4 100 64 0 0) 10)))))

high_nibble_table : holds_from 0 256 (λ b. bit_and b 0xF0 == b / 16 * 16) ≡ true
unfolding holds_from
high_nibble_table = refl

-- On an address of four bytes, `isPrivateIpv4` answers true just in the seven reserved blocks.
pub is_private_ipv4-IsReserved :
    (ip : Ipv4) → IsAddress ip → (is_private_ipv4 ip.a ip.b ≡ true) ↔ IsReserved ip
unfolding is_private_ipv4
is_private_ipv4-IsReserved ip h = ground (
  arith,
  (==_iff _ _).0 (holds_from-at 256 0 ip.b _ h.1 high_nibble_table),
  bit_and-high_bits ip.b h.1,
)
