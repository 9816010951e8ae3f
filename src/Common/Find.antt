-- ===== src/Common/Find.antt =====
-- Laws of the searches in a byte string, of `take` and `drop` about a found index.

use mathlib.Core.Bool.{Bool, true, false}
use mathlib.Core.List.{List, [], ◌∷◌, ◌++◌}
use native.Mathlib.Nat.{zero-add, suc-add}
use mathlib.Core.Option
use mathlib.Core.Option.{none, some}
use mathlib.Core.Path.{◌≡◌, refl, ◌∙◌, ap}
use mathlib.Core.Logic.{◌⊎◌, inl, inr, ◌↔◌}
use Prim.Native.Nat.{ℕ, zero, suc, ◌+◌, ◌<◌}
use native.Mathlib.Omega.{arith}
use drogon_pay.Common.Tests.{◌==◌, ==_iff, Bool-cases, Option-cases}
use drogon_pay.Common.Text.{
  Bytes, length, take, drop, get_or, any, find_first, find, rfind, bytes_eq, find_first_from, cut,
}

module _ (p : ℕ → Bool) where
  -- What an index found by `find_first` says: the byte there passes, and those before it do not.
  pub record Finds (s : Bytes) (i : ℕ) : Type 0 where
    pub inside : i < length s
    pub splits : s ≡ take i s ++ get_or s i 0 ∷ drop (suc i) s
    pub passes : p (get_or s i 0) ≡ true
    pub skipped : any p (take i s) ≡ false

  pub find_first-Finds : (s : Bytes) (i : ℕ) → find_first p s ≡ some i → Finds s i
  unfolding find_first
  find_first-Finds [] i h = cc
  find_first-Finds (c ∷ s) i h = elim (Bool-cases (p c)) [
    | inl hit ↦ first hit i (ground arith)
    | inr miss ↦ elim (Option-cases (find_first p s)) [
      | inl e ↦ absurd (ground arith)
      | inr (j, e) ↦ later miss j (find_first-Finds s j e) i (ground arith)
    ]
  ]
    where
      first : p c ≡ true → (i : ℕ) → i ≡ 0 → Finds (c ∷ s) i
      first hit zero e = record {
        inside = omega arith;
        splits = refl;
        passes = hit;
        skipped = refl;
      }
      first hit (suc i) e = absurd (omega arith)

      later : p c ≡ false → (j : ℕ) → Finds s j → (i : ℕ) → i ≡ suc j → Finds (c ∷ s) i
      later miss j f zero e = absurd (omega arith)
      later miss j f (suc i) e = ground (arith, f)

  pub find_first-none : (s : Bytes) → any p s ≡ false → find_first p s ≡ none
  unfolding find_first
  find_first-none [] h = refl
  find_first-none (c ∷ s) h = ground (arith, find_first-none s)

  pub any_of_find_first : (s : Bytes) → find_first p s ≡ none → any p s ≡ false
  unfolding find_first
  any_of_find_first [] h = refl
  any_of_find_first (c ∷ s) h = ground (arith, any_of_find_first s)

  -- The first match of a text whose prefix has none is the byte behind that prefix.
  pub find_first-append :
      (s : Bytes) (c : ℕ) (t : Bytes)
      → any p s ≡ false
      → p c ≡ true
      → find_first p (s ++ c ∷ t) ≡ some (length s)
  unfolding find_first
  find_first-append [] c t h hit = ground arith
  find_first-append (d ∷ s) c t h hit = ground (arith, find_first-append s c t)

module _ {ℓ} {A : Type ℓ} where
  pub take-append_self : (xs ys : List A) → take (length xs) (xs ++ ys) ≡ xs
  take-append_self [] ys = refl
  take-append_self (x ∷ xs) ys = ap (λ zs. x ∷ zs) (take-append_self xs ys)

  pub drop-append_self : (xs ys : List A) → drop (length xs) (xs ++ ys) ≡ ys
  drop-append_self [] ys = refl
  drop-append_self (x ∷ xs) ys = drop-append_self xs ys

  pub drop-suc_append :
      (xs : List A) (y : A) (ys : List A) → drop (suc (length xs)) (xs ++ y ∷ ys) ≡ ys
  drop-suc_append [] y ys = refl
  drop-suc_append (x ∷ xs) y ys = drop-suc_append xs y ys

-- `cut` splits at the first byte `c`, if there is one.
abbrev pub Lacks : ℕ → Bytes → Type 0
Lacks c s = any (λ d. d == c) s ≡ false

pub cut-some : (c : ℕ) (s t : Bytes) → Lacks c s → cut c (s ++ c ∷ t) ≡ some (s, t)
unfolding cut
cut-some c s t h =
    rw (find_first-append (λ d. d == c) s c t h ((==_iff c c).1 refl))
      (rw (take-append_self s (c ∷ t), drop-suc_append s c t))

pub cut-none : (c : ℕ) (s : Bytes) → Lacks c s → cut c s ≡ none
unfolding cut
cut-none c s h = rw (find_first-none (λ d. d == c) s h)

pub cut-cases :
    (c : ℕ) (s : Bytes)
    → ((cut c s ≡ none) × Lacks c s)
      ⊎ ((a : Bytes) × (b : Bytes) × (cut c s ≡ some (a, b)) × (s ≡ a ++ c ∷ b) × Lacks c a)
unfolding cut
cut-cases c s = elim (Option-cases (find c s)) [
  | inl e ↦ inl (rw e, any_of_find_first (λ d. d == c) s e)
  | inr (i, e) ↦
      let f : Finds (λ d. d == c) s i = find_first-Finds (λ d. d == c) s i e in
      inr (
        take i s,
        drop (suc i) s,
        rw e,
        f.splits ∙ ap (λ d. take i s ++ d ∷ drop (suc i) s) ((==_iff _ _).0 f.passes),
        f.skipped,
      )
]

pub any-append :
    (p : ℕ → Bool) (s t : Bytes) → any p s ≡ false → any p t ≡ false → any p (s ++ t) ≡ false
any-append p [] t h k = k
any-append p (c ∷ s) t h k = ground (arith, any-append p s t)

pub take-length_add : (s t : Bytes) (n : ℕ) → take (length s + n) (s ++ t) ≡ s ++ take n t
take-length_add [] t n = rw zero-add
take-length_add (c ∷ s) t n = rw (suc-add (length s) n) (ap (λ zs. c ∷ zs) (take-length_add s t n))

pub rfind-none : (c : ℕ) (s : Bytes) → Lacks c s → rfind c s ≡ none
unfolding rfind
rfind-none c [] h = refl
rfind-none c (d ∷ s) h = ground (arith, rfind-none c s)

pub rfind-append : (c : ℕ) (s t : Bytes) → Lacks c t → rfind c (s ++ c ∷ t) ≡ some (length s)
unfolding rfind
rfind-append c [] t h = rw (rfind-none c t h, rfind) (ground arith)
rfind-append c (d ∷ s) t h = rw (rfind-append c s t h, rfind)

pub get_or-append : (s : Bytes) (c : ℕ) (t : Bytes) → get_or (s ++ c ∷ t) (length s) 0 ≡ c
get_or-append [] c t = refl
get_or-append (d ∷ s) c t = get_or-append s c t

pub length-append : (s t : Bytes) → length (s ++ t) ≡ length s + length t
length-append [] t = omega arith
length-append (c ∷ s) t = omega (arith, length-append s t)

pub find_first_from-length :
    (p : ℕ → Bool) (s t : Bytes)
    → find_first_from p (length s) (s ++ t) ≡ Option.map (λ i. length s + i) (find_first p t)
unfolding find_first_from
find_first_from-length p s t = rw (drop-append_self s t)

pub bytes_eq_iff : (s t : Bytes) → (bytes_eq s t ≡ true) ↔ (s ≡ t)
unfolding bytes_eq
bytes_eq_iff [] [] = ground arith
bytes_eq_iff [] (d ∷ t) = ground arith
bytes_eq_iff (c ∷ s) [] = ground arith
bytes_eq_iff (c ∷ s) (d ∷ t) = ground (arith, bytes_eq_iff s t)
