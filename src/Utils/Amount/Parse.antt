-- ===== src/Utils/Amount/Parse.antt =====
-- What `parseAmountToFen` accepts and what it returns.
use drogon_pay.Common.{
  ℕ, ◌+◌, ◌-◌, ◌*◌, ◌≤◌, true, false, some, [], ◌∷◌, ◌++◌, ◌≡◌, ◌≢◌, refl, ◌↔◌, ◌∙◌, ap, suc, ◌⊎◌,
  inl, inr, arith, Bytes, codes, take, drop, ==_iff, Option-cases, all, any, length, find, is_digit,
  ◌==◌,
}
use drogon_pay.Common.Find.{
  Finds, find_first-Finds, find_first-none, find_first-append, take-append_self, drop-suc_append,
}
use drogon_pay.Utils.Amount.{
  int64_max, decimal, split_amount, default_yuan, pad_cents, scale, check_parts,
  parse_amount_to_fen,
}

-- The cents that a fraction of at most two digits stands for.
abbrev pub cents_value : Bytes → ℕ
cents_value [] = 0
cents_value (c ∷ []) = (c - b'0') * 10
cents_value (c ∷ d ∷ s) = decimal (c ∷ d ∷ s)

-- `amount` spells `fen`: digits for the yuan, perhaps a point, and at most two more digits.
pub record Spells (amount : Bytes) (fen : ℕ) : Type 0 where
  pub yuan : Bytes
  pub cents : Bytes
  pub non_empty : amount ≢ []
  pub shape : ((amount ≡ yuan) × (cents ≡ [])) ⊎ (amount ≡ yuan ++ b'.' ∷ cents)
  pub yuan_digits : all is_digit yuan ≡ true
  pub cents_digits : all is_digit cents ≡ true
  pub cents_short : length cents ≤ 2
  pub value : fen ≡ decimal yuan * 100 + cents_value cents
  pub yuan_fits : decimal yuan * 100 + 99 ≤ int64_max

scale_iff :
    (yuan cents : Bytes) (fen : ℕ)
    → all is_digit cents ≡ true
    → length cents ≤ 2
    → (scale yuan (pad_cents cents) ≡ some fen)
      ↔ ((fen ≡ decimal yuan * 100 + cents_value cents) × (decimal yuan * 100 + 99 ≤ int64_max))
unfolding scale pad_cents
scale_iff yuan [] fen h l = ground arith
scale_iff yuan (c ∷ []) fen h l = ground arith
scale_iff yuan (c ∷ d ∷ []) fen h l = ground arith
scale_iff yuan (c ∷ d ∷ e ∷ s) fen h l = absurd (omega arith)

-- What `check_parts` requires of the two parts, and what it makes of them.
record Parts (yuan cents : Bytes) (fen : ℕ) : Type 0 where
  yuan_digits : all is_digit yuan ≡ true
  cents_digits : all is_digit cents ≡ true
  cents_short : length cents ≤ 2
  value : fen ≡ decimal yuan * 100 + cents_value cents
  yuan_fits : decimal yuan * 100 + 99 ≤ int64_max

check_parts_iff :
    (yuan cents : Bytes) (fen : ℕ) → (check_parts yuan cents ≡ some fen) ↔ Parts yuan cents fen
unfolding check_parts
check_parts_iff yuan cents fen = ground (arith, scale_iff yuan cents fen)

default_yuan_iff :
    (yuan cents : Bytes) (fen : ℕ) → Parts (default_yuan yuan) cents fen ↔ Parts yuan cents fen
unfolding default_yuan
default_yuan_iff [] cents fen = ground arith
default_yuan_iff (c ∷ s) cents fen = ground arith

-- Digits hold no point.
no_point : (s : Bytes) → all is_digit s ≡ true → any (λ d. d == b'.') s ≡ false
no_point [] h = refl
no_point (c ∷ s) h = ground (arith, no_point s)

parse_of_Parts :
    (amount : Bytes) (fen : ℕ)
    → amount ≢ []
    → (parse_amount_to_fen amount ≡ some fen)
      ↔ Parts (split_amount amount).0 (split_amount amount).1 fen
unfolding parse_amount_to_fen
parse_of_Parts [] fen h = absurd (h refl)
parse_of_Parts (c ∷ s) fen h = ground (
  arith,
  check_parts_iff (default_yuan (split_amount (c ∷ s)).0) (split_amount (c ∷ s)).1 fen,
  default_yuan_iff (split_amount (c ∷ s)).0 (split_amount (c ∷ s)).1 fen,
)

-- The parts of a text with no point and of one with a point.
split_whole : (s : Bytes) → all is_digit s ≡ true → split_amount s ≡ (s, codes "00")
unfolding split_amount
split_whole s h = rw (find_first-none (λ d. d == b'.') s (no_point s h), split_amount)

split_point : (s t : Bytes) → all is_digit s ≡ true → split_amount (s ++ b'.' ∷ t) ≡ (s, t)
unfolding split_amount
split_point s t h =
    rw (find_first-append (λ d. d == b'.') s b'.' t (no_point s h) refl, split_amount)
      (rw (take-append_self s (b'.' ∷ t), drop-suc_append s b'.' t))

Parts-split :
    (amount : Bytes) (fen : ℕ)
    → Spells amount fen
    → Parts (split_amount amount).0 (split_amount amount).1 fen
Parts-split amount fen sp = elim sp.shape [
  | inl (whole, bare) ↦
      rw (whole, split_whole sp.yuan sp.yuan_digits) (ground (arith, ap cents_value bare))
  | inr pointed ↦ rw (pointed, split_point sp.yuan sp.cents sp.yuan_digits) (ground arith)
]

Spells-split :
    (amount : Bytes) (fen : ℕ)
    → amount ≢ []
    → Parts (split_amount amount).0 (split_amount amount).1 fen
    → Spells amount fen
unfolding split_amount
Spells-split amount fen h parts = elim (Option-cases (find b'.' amount)) [
  | inl absent ↦ whole (rw (absent, split_amount) at parts)
  | inr (i, found) ↦
      pointed i (find_first-Finds (λ d. d == b'.') amount i found)
        (rw (found, split_amount) at parts)
]
  where
    whole : Parts amount (codes "00") fen → Spells amount fen
    whole q = record {
      yuan = amount;
      cents = [];
      non_empty = h;
      shape = inl (refl, refl);
      yuan_digits = q.yuan_digits;
      cents_digits = refl;
      cents_short = omega arith;
      value = q.value;
      yuan_fits = q.yuan_fits;
    }

    pointed :
        (i : ℕ)
        → Finds (λ d. d == b'.') amount i
        → Parts (take i amount) (drop (suc i) amount) fen
        → Spells amount fen
    pointed i f q = record {
      yuan = take i amount;
      cents = drop (suc i) amount;
      non_empty = h;
      shape =
          inr (
            f.splits
            ∙ ap (λ c. take i amount ++ c ∷ drop (suc i) amount) ((==_iff _ _).0 f.passes));
      yuan_digits = q.yuan_digits;
      cents_digits = q.cents_digits;
      cents_short = q.cents_short;
      value = q.value;
      yuan_fits = q.yuan_fits;
    }

-- `parseAmountToFen` succeeds on exactly the texts that spell an amount (digits, perhaps a point, at
-- most two digits behind it, a yuan part that scales to fen within int64) and returns their value.
pub parse_amount_to_fen-Spells :
    (amount : Bytes) (fen : ℕ) → (parse_amount_to_fen amount ≡ some fen) ↔ Spells amount fen
parse_amount_to_fen-Spells [] fen =
    (λ h. absurd (unfold parse_amount_to_fen in ground arith), λ sp. absurd (sp.non_empty refl))
parse_amount_to_fen-Spells (c ∷ s) fen = (
  λ h. Spells-split _ fen nonempty ((parse_of_Parts _ fen nonempty).0 h),
  λ sp. (parse_of_Parts _ fen nonempty).1 (Parts-split _ fen sp),
)
  where
    nonempty : c ∷ s ≢ []
    nonempty e = cc
