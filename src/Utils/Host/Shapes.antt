-- ===== src/Utils/Host/Shapes.antt =====
-- About the loop of `isNumericAddressShape`, against the names that it is meant for.

use drogon_pay.Common.{
  ℕ, zero, suc, ◌≤◌, ◌<◌, ◌≡◌, refl, sym, subst, ◌↔◌, ◌⊎◌, inl, inr, true, ◌&&◌, ◌||◌, [], ◌∷◌,
  ◌++◌, arith, leb, ◌==◌, Bool-cases, Bytes, length, all,
}
use drogon_pay.Common.Find.{Lacks, cut-some, cut-none, cut-cases, length-append}
use drogon_pay.Utils.Host.{is_hex_digit, is_numeric_label, numeric_labels, is_numeric_address_shape}

-- A decimal number, and a hexadecimal one with at least one digit.
abbrev IsDecimal : Bytes → Type 0
IsDecimal [] = Unit {0}
IsDecimal (c ∷ s) = ((48 ≤ c) × (c ≤ 57)) × IsDecimal s

abbrev IsHex : Bytes → Type 0
IsHex [] = Unit {0}
IsHex (c ∷ s) = (((48 ≤ c) × (c ≤ 57)) ⊎ ((97 ≤ c) × (c ≤ 102)) ⊎ ((65 ≤ c) × (c ≤ 70))) × IsHex s

-- The numbers that a resolver reads in an address: digits, or digits behind 0x or 0X.
pub data NumberText : Bytes → Type 0 where
  decimal_text : (c : ℕ) (s : Bytes) → IsDecimal (c ∷ s) → NumberText (c ∷ s)
  hexadecimal_text :
      (x c : ℕ) (s : Bytes) → (x ≡ 120) ⊎ (x ≡ 88) → IsHex (c ∷ s) → NumberText (48 ∷ x ∷ c ∷ s)

-- A name whose labels are such numbers, from the first to the last.
pub data NumericName : Bytes → Type 0 where
  last_label : (s : Bytes) → Lacks b'.' s → NumberText s → NumericName s
  more_labels :
      (s label rest : Bytes)
      → s ≡ label ++ b'.' ∷ rest
      → Lacks b'.' label
      → NumberText label
      → NumericName rest
      → NumericName s

all-IsDecimal : (s : Bytes) → (all (λ c. leb b'0' c && leb c b'9') s ≡ true) ↔ IsDecimal s
all-IsDecimal [] = (λ h. tt, λ h. refl)
all-IsDecimal (c ∷ s) = (
  λ h. (ground (arith, h), (all-IsDecimal s).0 (ground (arith, h))),
  λ h. ground (arith, h.0, (all-IsDecimal s).1 h.1),
)

all-IsHex : (s : Bytes) → (all is_hex_digit s ≡ true) ↔ IsHex s
all-IsHex [] = (λ h. tt, λ h. refl)
all-IsHex (c ∷ s) = (
  λ h. (ground (arith, h), (all-IsHex s).0 (ground (arith, h))),
  λ h. ground (arith, h.0, (all-IsHex s).1 h.1),
)

number_of_label : (s : Bytes) → is_numeric_label s ≡ true → NumberText s
unfolding is_numeric_label
number_of_label [] h = absurd (ground (arith, h))
number_of_label (c ∷ []) h = decimal_text c [] ((all-IsDecimal (c ∷ [])).0 h)
number_of_label (c ∷ d ∷ []) h = decimal_text c (d ∷ []) ((all-IsDecimal (c ∷ d ∷ [])).0 h)
number_of_label (c ∷ d ∷ e ∷ s) h = elim (Bool-cases (c == b'0' && (d == b'x' || d == b'X'))) [
  | inr plain ↦
      decimal_text c (d ∷ e ∷ s) ((all-IsDecimal (c ∷ d ∷ e ∷ s)).0 (ground (arith, h, plain)))
  | inl hex ↦
      subst (λ z. NumberText (z ∷ d ∷ e ∷ s)) (sym (ground (arith, hex)))
        (hexadecimal_text d e s (ground (arith, hex))
          ((all-IsHex (e ∷ s)).0 (ground (arith, h, hex))))
]

label_of_number : (s : Bytes) → NumberText s → is_numeric_label s ≡ true
unfolding is_numeric_label
label_of_number _ (hexadecimal_text x c s known hex) =
    ground (arith, known, (all-IsHex (c ∷ s)).1 hex)
label_of_number _ (decimal_text c [] digits) = (all-IsDecimal (c ∷ [])).1 digits
label_of_number _ (decimal_text c (d ∷ []) digits) = (all-IsDecimal (c ∷ d ∷ [])).1 digits
label_of_number _ (decimal_text c (d ∷ e ∷ s) digits) =
    ground (arith, (all-IsDecimal (c ∷ d ∷ e ∷ s)).1 digits, digits.1.0)

length-rest : (a b : Bytes) (fuel : ℕ) → length (a ++ b'.' ∷ b) < suc fuel → length b < fuel
length-rest a b fuel h = omega (arith, length-append a (b'.' ∷ b))

numeric_labels_sound : (fuel : ℕ) (s : Bytes) → numeric_labels fuel s ≡ true → NumericName s
unfolding numeric_labels
numeric_labels_sound zero s h = cc
numeric_labels_sound (suc fuel) s h = elim (cut-cases b'.' s) [
  | inl (e, l) ↦ last_label s l (number_of_label s (rw (e, numeric_labels) at h))
  | inr (a, b, e, eq, l) ↦ elim (Bool-cases (is_numeric_label a)) [
    | inl n ↦
        more_labels s a b eq l (number_of_label a n)
          (numeric_labels_sound fuel b (rw (e, numeric_labels, n) at h))
    | inr n ↦ cc (rw (e, numeric_labels, n) at h)
  ]
]

numeric_labels_complete :
    (fuel : ℕ) (s : Bytes) → NumericName s → length s < fuel → numeric_labels fuel s ≡ true
unfolding numeric_labels
numeric_labels_complete zero s n h = absurd (omega arith)
numeric_labels_complete (suc fuel) s (last_label _ l n) h =
    rw (cut-none b'.' s l, numeric_labels) (label_of_number s n)
numeric_labels_complete (suc fuel) s (more_labels _ label rest e l n r) h =
    rw (e, cut-some b'.' label rest l, numeric_labels, label_of_number label n)
      (numeric_labels_complete fuel rest r (length-rest label rest fuel (rw (← e) h)))

-- The loop of `isNumericAddressShape` ends and holds of exactly the numeric names.
pub is_numeric_address_shape-NumericName :
    (host : Bytes) → (is_numeric_address_shape host ≡ true) ↔ NumericName host
unfolding is_numeric_address_shape
is_numeric_address_shape-NumericName host = (
  numeric_labels_sound (suc (length host)) host,
  λ n. numeric_labels_complete (suc (length host)) host n (omega arith),
)
