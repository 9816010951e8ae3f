-- ===== src/Utils/PathSegment/Decode.antt =====
-- What a server reads back from an encoded path segment.
use Prim.Native.Nat.{bit_and}
use drogon_pay.Common.{
  ℕ, ◌+◌, ◌-◌, ◌*◌, ◌/◌, ◌<◌, ◌≡◌, refl, ap, ◌≢◌, inl, inr, Bool, true, ◌&&◌, ◌||◌, [], ◌∷◌, arith,
  ltb, ◌==◌, if◌then◌else◌, ==_iff, Bool-cases, Bytes, all,
}
use drogon_pay.Common.Table.{holds_from, holds_below-at}
use drogon_pay.Utils.PathSegment.{hex_digit, is_unreserved, url_encode_path_segment}

-- The value of a hexadecimal digit.
abbrev pub hex_value : ℕ → ℕ
hex_value c = if ltb c 65 then c - 48 else c - 55

-- RFC 3986: "%" and two hexadecimal digits stand for a byte, every other byte for itself.
pub decode : Bytes → Bytes
decode [] = []
decode (c ∷ []) = c ∷ []
decode (c ∷ h ∷ []) = c ∷ h ∷ []
decode (c ∷ h ∷ l ∷ s) =
    if c == b'%' then (hex_value h * 16 + hex_value l) ∷ decode s else c ∷ decode (h ∷ l ∷ s)

-- A byte that may stand in a path segment: it opens no query, no fragment and no further segment.
abbrev pub is_segment_byte : ℕ → Bool
is_segment_byte c = is_unreserved c || c == b'%'

abbrev byte_test : ℕ → Bool
byte_test c =
    (hex_value (hex_digit (bit_and (c / 16) 0xF)) * 16 + hex_value (hex_digit (bit_and c 0xF)) == c)
    && (is_segment_byte (hex_digit (bit_and (c / 16) 0xF))
        && is_segment_byte (hex_digit (bit_and c 0xF)))

hex_table : holds_from 0 256 byte_test ≡ true
unfolding holds_from
hex_table = refl

and_left : (a b : Bool) → a && b ≡ true → a ≡ true
and_left a b h = ground arith

and_right : (a b : Bool) → a && b ≡ true → b ≡ true
and_right a b h = ground arith

-- A byte that is no "%" stands for itself.
decode-plain : (c : ℕ) (s : Bytes) → c ≢ b'%' → decode (c ∷ s) ≡ c ∷ decode s
unfolding decode
decode-plain c [] n = refl
decode-plain c (h ∷ []) n = refl
decode-plain c (h ∷ l ∷ s) n = ground (arith, n)

-- The two digits of a byte give it back, and may stand in a segment.
hex_digits :
    (c : ℕ)
    → c < 256
    → (hex_value (hex_digit (bit_and (c / 16) 0xF)) * 16 + hex_value (hex_digit (bit_and c 0xF))
        ≡ c)
      × ((is_segment_byte (hex_digit (bit_and (c / 16) 0xF)) ≡ true)
          × (is_segment_byte (hex_digit (bit_and c 0xF)) ≡ true))
hex_digits c small =
    let h = holds_below-at 256 c byte_test small hex_table in
    (
      (==_iff _ _).0 (and_left _ _ h),
      (and_left _ _ (and_right _ _ h), and_right _ _ (and_right _ _ h)),
    )

decode-escaped :
    (c : ℕ) (s : Bytes)
    → c < 256
    → decode (b'%' ∷ hex_digit (bit_and (c / 16) 0xF) ∷ hex_digit (bit_and c 0xF) ∷ s)
      ≡ c ∷ decode s
unfolding decode
decode-escaped c s small = ap (λ d. d ∷ decode s) (hex_digits c small).0

-- Every text of bytes is read back as it was, and its encoding is one path segment: letters, digits
-- and "-._~%" only.
pub url_encode_path_segment-decode :
    (raw : Bytes)
    → all (λ c. ltb c 256) raw ≡ true
    → (decode (url_encode_path_segment raw) ≡ raw)
      × (all is_segment_byte (url_encode_path_segment raw) ≡ true)
unfolding url_encode_path_segment
url_encode_path_segment-decode [] h = (unfold decode in refl, refl)
url_encode_path_segment-decode (c ∷ raw) h = elim (Bool-cases (is_unreserved c)) [
  | inl plain ↦ rw plain (
    rw (decode-plain c (url_encode_path_segment raw) (λ e. ground arith))
        (ap (λ s. c ∷ s) (url_encode_path_segment-decode raw (ground (arith, h))).0),
    ground (arith, plain, (url_encode_path_segment-decode raw (ground (arith, h))).1),
  )
  | inr escaped ↦ rw escaped (
    ground (
      arith,
      decode-escaped c (url_encode_path_segment raw) (ground (arith, h)),
      url_encode_path_segment-decode raw (ground (arith, h)),
    ),
    ground (
      arith,
      hex_digits c (ground (arith, h)),
      (url_encode_path_segment-decode raw (ground (arith, h))).1,
    ),
  )
]
