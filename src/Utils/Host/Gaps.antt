-- ===== src/Utils/Host/Gaps.antt =====
-- About `isBlockedHost` on names with a dot at their end.
use mathlib.Core.List.{map, map-append}
use drogon_pay.Common.{
  ℕ, zero, suc, ◌<◌, ◌≡◌, refl, sym, ap, ◌∙◌, ◌≢◌, ◌⊎◌, inl, inr, true, false, none, [], ◌∷◌, ◌++◌,
  arith, ◌==◌, Bool-cases, Option-cases, Bytes, codes, length, any, bytes_eq, is_empty, to_lower,
}
use drogon_pay.Common.Find.{find_first-none, Lacks, cut-none, cut-cases, any-append, bytes_eq_iff}
use drogon_pay.Utils.Host.{
  Ipv4, parse_ipv4, is_numeric_label, numeric_labels, is_numeric_address_shape, is_blocked_host,
}
use drogon_pay.Utils.Host.DottedQuad.{octet, quad, parse_ipv4-quad}

last_byte : Bytes → ℕ
last_byte [] = 0
last_byte (c ∷ []) = c
last_byte (c ∷ d ∷ s) = last_byte (d ∷ s)

last_byte-append : (s : Bytes) (c : ℕ) (t : Bytes) → last_byte (s ++ c ∷ t) ≡ last_byte (c ∷ t)
unfolding last_byte
last_byte-append [] c t = refl
last_byte-append (a ∷ []) c t = refl
last_byte-append (a ∷ b ∷ s) c t = last_byte-append (b ∷ s) c t

last_byte-octet : (n : ℕ) → n < 256 → last_byte (b'.' ∷ octet n) ≢ b'.'
unfolding last_byte
last_byte-octet n h = ground arith

-- A text that ends in a dot is no dotted quad.
parse_ipv4-dot : (s : Bytes) → parse_ipv4 (s ++ b'.' ∷ []) ≡ none
unfolding last_byte
parse_ipv4-dot s = elim (Option-cases (parse_ipv4 (s ++ b'.' ∷ []))) [
  | inl e ↦ e
  | inr (ip, e) ↦
      let (is_quad, inside) = (parse_ipv4-quad _ ip).0 e in
      absurd (last_byte-octet ip.d inside.3 (sym (ap last_byte is_quad ∙ quad_end ip) ∙ last_dot s))
]
  where
    quad_end : (ip : Ipv4) → last_byte (quad ip) ≡ last_byte (b'.' ∷ octet ip.d)
    quad_end ip =
        last_byte-append (octet ip.a) b'.' _
        ∙ last_byte-append (b'.' ∷ octet ip.b) b'.' _
        ∙ last_byte-append (b'.' ∷ octet ip.c) b'.' _

    last_dot : (s : Bytes) → last_byte (s ++ b'.' ∷ []) ≡ b'.'
    last_dot s = last_byte-append s b'.' []

-- The text behind the first dot of `s ++ "."` is empty or ends in a dot itself.
behind_dot :
    (s a b : Bytes)
    → s ++ b'.' ∷ [] ≡ a ++ b'.' ∷ b
    → (b ≡ []) ⊎ ((t : Bytes) × (b ≡ t ++ b'.' ∷ []))
behind_dot [] [] b e = inl (ground arith)
behind_dot [] (c ∷ []) b e = absurd (ground arith)
behind_dot [] (c ∷ d ∷ a) b e = absurd (ground arith)
behind_dot (c ∷ s) [] b e = inr (s, ground arith)
behind_dot (c ∷ s) (d ∷ a) b e = behind_dot s a b (ground arith)

has_dot : (s : Bytes) → any (λ d. d == b'.') (s ++ b'.' ∷ []) ≡ true
has_dot [] = refl
has_dot (c ∷ s) = ground (arith, has_dot s)

numeric_labels-nil : (fuel : ℕ) → numeric_labels fuel [] ≡ false
unfolding numeric_labels is_numeric_label
numeric_labels-nil zero = refl
numeric_labels-nil (suc fuel) = rw (cut-none b'.' [] refl, numeric_labels)

-- A trailing dot is an empty last label, so the name is not numeric.
numeric_labels-dot : (fuel : ℕ) (s : Bytes) → numeric_labels fuel (s ++ b'.' ∷ []) ≡ false
unfolding numeric_labels
numeric_labels-dot zero s = refl
numeric_labels-dot (suc fuel) s = elim (cut-cases b'.' (s ++ b'.' ∷ [])) [
  | inl (e, l) ↦ cc (has_dot s)
  | inr (a, b, e, eq, l) ↦ elim (Bool-cases (is_numeric_label a)) [
    | inr n ↦ rw (e, numeric_labels, n)
    | inl n ↦ elim (behind_dot s a b eq) [
      | inl nil ↦ rw (e, numeric_labels, n, nil) (numeric_labels-nil fuel)
      | inr (t, dot) ↦ rw (e, numeric_labels, n, dot) (numeric_labels-dot fuel t)
    ]
  ]
]

snoc_inj : (s t : Bytes) → s ++ b'.' ∷ [] ≡ t ++ b'.' ∷ [] → s ≡ t
snoc_inj [] [] e = refl
snoc_inj [] (d ∷ []) e = absurd (ground arith)
snoc_inj [] (d ∷ d' ∷ t) e = absurd (ground arith)
snoc_inj (c ∷ []) [] e = absurd (ground arith)
snoc_inj (c ∷ c' ∷ s) [] e = absurd (ground arith)
snoc_inj (c ∷ s) (d ∷ t) e = ground (arith, snoc_inj s t)

not_localhost : (s : Bytes) → bytes_eq (s ++ b'.' ∷ []) (codes "localhost") ≡ false
unfolding last_byte
not_localhost s = elim (Bool-cases (bytes_eq (s ++ b'.' ∷ []) (codes "localhost"))) [
  | inr e ↦ e
  | inl e ↦ absurd (
      omega (
        arith,
        last_byte-append s b'.' [],
        ap last_byte ((bytes_eq_iff (s ++ b'.' ∷ []) (codes "localhost")).0 e),
      ))
]

not_localhost_dot :
    (s : Bytes) → s ≢ codes "localhost" → bytes_eq (s ++ b'.' ∷ []) (codes "localhost.") ≡ false
not_localhost_dot s n = elim (Bool-cases (bytes_eq (s ++ b'.' ∷ []) (codes "localhost."))) [
  | inr e ↦ e
  | inl e ↦ absurd (
      n (snoc_inj s (codes "localhost") ((bytes_eq_iff (s ++ b'.' ∷ []) (codes "localhost.")).0 e)))
]

shape_dot : (s : Bytes) → is_numeric_address_shape (s ++ b'.' ∷ []) ≡ false
unfolding is_numeric_address_shape
shape_dot s = numeric_labels-dot (suc (length (s ++ b'.' ∷ []))) s

not_empty : (s : Bytes) → is_empty (s ++ b'.' ∷ []) ≡ false
not_empty [] = refl
not_empty (c ∷ s) = refl

-- A name without ":" passes with a dot at its end, "localhost." in any case apart: so also
-- "127.0.0.1.", which resolvers read as the loopback address.
pub is_blocked_host-trailing_dot :
    (s : Bytes)
    → Lacks b':' s
    → map to_lower s ≢ codes "localhost"
    → is_blocked_host (s ++ b'.' ∷ []) ≡ false
unfolding is_blocked_host to_lower
is_blocked_host-trailing_dot s l n =
    rw
      (
        map-append to_lower s (b'.' ∷ []),
        not_empty s,
        not_localhost (map to_lower s),
        not_localhost_dot (map to_lower s) n,
        find_first-none (λ d. d == b':') (s ++ b'.' ∷ [])
            (any-append (λ d. d == b':') s (b'.' ∷ []) l refl),
        is_blocked_host,
        parse_ipv4-dot s,
      )
      (rw (map-append to_lower s (b'.' ∷ []), shape_dot (map to_lower s)))
