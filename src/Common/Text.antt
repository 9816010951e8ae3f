-- ===== src/Common/Text.antt =====
-- Byte strings: what the sources use of std::string where they walk or index the text.
use Prim.Native.Nat.{ℕ, zero, suc, ◌+◌}
use Prim.Native.Char.{code}
use Prim.Native.String.{String}
use mathlib.Core.Bool.{Bool, true, false, ◌&&◌, ◌||◌}
use mathlib.Core.List.{List, [], ◌∷◌}
use mathlib.Core.Option
use mathlib.Core.Option.{Option, none, some}
use drogon_pay.Common.Tests.{leb, ◌==◌, if◌then◌else◌}

abbrev pub Bytes : Type 0
Bytes = List ℕ

-- The code points of a literal: its bytes, as every literal that the models walk is ASCII.
abbrev pub codes : String → Bytes
codes String.[] = []
codes (String.◌∷◌ c s) = code c ∷ codes s

module _ {ℓ} {A : Type ℓ} where
  abbrev pub length : List A → ℕ
  length [] = 0
  length (x ∷ xs) = suc (length xs)

  abbrev pub take : ℕ → List A → List A
  take zero xs = []
  take (suc n) [] = []
  take (suc n) (x ∷ xs) = x ∷ take n xs

  abbrev pub drop : ℕ → List A → List A
  drop zero xs = xs
  drop (suc n) [] = []
  drop (suc n) (x ∷ xs) = drop n xs

  abbrev pub get_or : List A → ℕ → A → A
  get_or [] i d = d
  get_or (x ∷ xs) zero d = x
  get_or (x ∷ xs) (suc i) d = get_or xs i d

  -- The test of a loop that returns at the first element which fails it.
  abbrev pub all : (A → Bool) → List A → Bool
  all p [] = true
  all p (x ∷ xs) = p x && all p xs

  abbrev pub any : (A → Bool) → List A → Bool
  any p [] = false
  any p (x ∷ xs) = p x || any p xs

-- `s.substr(i, n)` for `i <= s.size()`.
abbrev pub substr : ℕ → ℕ → Bytes → Bytes
substr i n s = take n (drop i s)

-- `s.find_first_of` over a set of bytes, from the start: the index of the first byte that `p` holds
-- of. `s.find(c)` is the case of one byte.
unfoldable pub find_first : (ℕ → Bool) → Bytes → Option ℕ
find_first p [] = none
find_first p (c ∷ s) = if p c then some 0 else Option.map suc (find_first p s)

abbrev pub find : ℕ → Bytes → Option ℕ
find c = find_first (λ d. d == c)

-- `s.rfind(c)`: the index of the last byte `c`.
unfoldable pub rfind : ℕ → Bytes → Option ℕ
rfind c [] = none
rfind c (d ∷ s) = elim (rfind c s) [
  | some i ↦ some (suc i)
  | none ↦ if d == c then some 0 else none
]

unfoldable pub bytes_eq : Bytes → Bytes → Bool
bytes_eq [] [] = true
bytes_eq (a ∷ s) (b ∷ t) = a == b && bytes_eq s t
bytes_eq _ _ = false

unfoldable pub starts_with : Bytes → Bytes → Bool
starts_with [] s = true
starts_with (p ∷ ps) [] = false
starts_with (p ∷ ps) (c ∷ s) = p == c && starts_with ps s

abbrev pub is_empty : Bytes → Bool
is_empty [] = true
is_empty (c ∷ s) = false

-- `std::isdigit` on an `unsigned char`.
abbrev pub is_digit : ℕ → Bool
is_digit c = leb b'0' c && leb c b'9'

-- `s.find(pat)` for a pattern that is not empty.
unfoldable pub find_sub : Bytes → Bytes → Option ℕ
unfolding starts_with
find_sub pat [] = none
find_sub pat (c ∷ s) = if starts_with pat (c ∷ s) then some 0 else Option.map suc (find_sub pat s)

-- `s.find_first_of(set, start)`.
unfoldable pub find_first_from : (ℕ → Bool) → ℕ → Bytes → Option ℕ
find_first_from p start s = Option.map (λ i. start + i) (find_first p (drop start s))

-- `::tolower` in the C locale.
unfoldable pub to_lower : ℕ → ℕ
to_lower c = if leb b'A' c && leb c b'Z' then c + 32 else c

-- The text before the first byte `c` and the text behind it: `find` and the two `substr` calls.
unfoldable pub cut : ℕ → Bytes → Option (Bytes × Bytes)
cut c s = Option.map (λ i. (take i s, drop (suc i) s)) (find c s)
