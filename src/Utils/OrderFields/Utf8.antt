-- ===== src/Utils/OrderFields/Utf8.antt =====
-- About the limits of `validateWechatOrderFields`, on texts that are encoded in UTF-8.

use drogon_pay.Common.{
  ℕ, suc, ◌+◌, ◌/◌, ◌%◌, ◌≤◌, ◌<◌, ◌≡◌, refl, ap, ◌∙◌, ◌≢◌, ◌↔◌, inl, inr, true, none, List, [],
  ◌∷◌, ◌++◌, arith, ltb, if◌then◌else◌, Bool-cases, Bytes, length, all, is_empty,
}
use drogon_pay.Common.Table.{bit_and-high_bits}
use drogon_pay.Utils.OrderFields.{
  utf8_code_point_length, is_order_no_byte, validate_wechat_order_fields,
}

-- UTF-8 of one code point.
abbrev pub utf8 : ℕ → Bytes
utf8 p =
    if ltb p 0x80
    then p ∷ []
    else if ltb p 0x800
    then (0xC0 + p / 64) ∷ (0x80 + p % 64) ∷ []
    else if ltb p 0x10000
    then (0xE0 + p / 4096) ∷ (0x80 + p / 64 % 64) ∷ (0x80 + p % 64) ∷ []
    else (0xF0 + p / 262144) ∷ (0x80 + p / 4096 % 64) ∷ (0x80 + p / 64 % 64) ∷ (0x80 + p % 64) ∷ []

abbrev pub utf8_text : List ℕ → Bytes
utf8_text [] = []
utf8_text (p ∷ ps) = utf8 p ++ utf8_text ps

-- Every code point is below 0x110000.
abbrev pub AreCodePoints : List ℕ → Type 0
AreCodePoints ps = all (λ p. ltb p 0x110000) ps ≡ true

starts_character :
    (c : ℕ) (s : Bytes)
    → c < 256
    → c / 64 ≢ 2
    → utf8_code_point_length (c ∷ s) ≡ suc (utf8_code_point_length s)
unfolding utf8_code_point_length
starts_character c s small lead = ground (arith, bit_and-high_bits c small, lead)

continues_character :
    (x : ℕ) (s : Bytes)
    → x < 64
    → utf8_code_point_length ((0x80 + x) ∷ s) ≡ utf8_code_point_length s
unfolding utf8_code_point_length
continues_character x s small = ground (arith, bit_and-high_bits (0x80 + x) (omega (arith, small)))

utf8_code_point_length-utf8 :
    (p : ℕ) (s : Bytes)
    → p < 0x110000
    → utf8_code_point_length (utf8 p ++ s) ≡ suc (utf8_code_point_length s)
utf8_code_point_length-utf8 p s h = elim (Bool-cases (ltb p 0x80)) [
  | inl one ↦ rw one (starts_character p s (ground arith) (λ e. ground arith))
  | inr more ↦ rw more (elim (Bool-cases (ltb p 0x800)) [
    | inl two ↦ rw two (
        starts_character (0xC0 + p / 64) ((0x80 + p % 64) ∷ s) (ground arith) (λ e. ground arith)
        ∙ ap suc (continues_character (p % 64) s (ground arith)))
    | inr longer ↦ rw longer (elim (Bool-cases (ltb p 0x10000)) [
      | inl three ↦ rw three (
          starts_character (0xE0 + p / 4096) ((0x80 + p / 64 % 64) ∷ (0x80 + p % 64) ∷ s)
            (ground arith) (λ e. ground arith)
          ∙ ap suc (
              continues_character (p / 64 % 64) ((0x80 + p % 64) ∷ s) (ground arith)
              ∙ continues_character (p % 64) s (ground arith)))
      | inr four ↦ rw four (
          starts_character (0xF0 + p / 262144)
            ((0x80 + p / 4096 % 64) ∷ (0x80 + p / 64 % 64) ∷ (0x80 + p % 64) ∷ s) (ground arith)
            (λ e. ground arith)
          ∙ ap suc (
              continues_character (p / 4096 % 64) ((0x80 + p / 64 % 64) ∷ (0x80 + p % 64) ∷ s)
                (ground arith)
              ∙ (continues_character (p / 64 % 64) ((0x80 + p % 64) ∷ s) (ground arith)
                  ∙ continues_character (p % 64) s (ground arith))))
    ])
  ])
]

is_empty-utf8_text : (ps : List ℕ) → is_empty (utf8_text ps) ≡ is_empty ps
is_empty-utf8_text [] = refl
is_empty-utf8_text (p ∷ ps) = ground arith

utf8_code_point_length-utf8_text :
    (ps : List ℕ) → AreCodePoints ps → utf8_code_point_length (utf8_text ps) ≡ length ps
unfolding utf8_code_point_length
utf8_code_point_length-utf8_text [] h = refl
utf8_code_point_length-utf8_text (p ∷ ps) h =
    utf8_code_point_length-utf8 p (utf8_text ps) (ground (arith, h))
    ∙ ap suc (utf8_code_point_length-utf8_text ps (ground (arith, h)))

-- For a description and an attachment that are UTF-8 texts, the fields are accepted just when the
-- order number has 6 to 32 of the allowed bytes, the description 1 to 127 characters, and the
-- attachment at most 128.
pub validate_wechat_order_fields-utf8_text :
    (out_trade_no : Bytes) (description attach : List ℕ)
    → AreCodePoints description
    → AreCodePoints attach
    → (validate_wechat_order_fields out_trade_no (utf8_text description) (utf8_text attach) ≡ none)
      ↔ ((6 ≤ length out_trade_no)
          × (length out_trade_no ≤ 32)
          × (all is_order_no_byte out_trade_no ≡ true)
          × (1 ≤ length description)
          × (length description ≤ 127)
          × (length attach ≤ 128))
unfolding validate_wechat_order_fields
validate_wechat_order_fields-utf8_text out_trade_no description attach d a = ground (
  arith,
  utf8_code_point_length-utf8_text description d,
  utf8_code_point_length-utf8_text attach a,
  is_empty-utf8_text description,
  is_empty-utf8_text attach,
  Bool-cases (is_empty attach),
)
