-- ===== src/Services/Refund/Refusals.antt =====
-- About `refundCertainlyDidNotHappen` and `mapRefundStatus`: the texts that they are meant for.
use mathlib.Core.Option
use drogon_pay.Common.{
  ℕ, suc, String, ◌≡◌, refl, sym, ap, ◌∙◌, ◌≢◌, ◌↔◌, ◌⊎◌, inl, inr, true, false, Option, none, some,
  [], ◌∷◌, ◌++◌, arith, eq_iff, Bool-cases, Bytes, codes, starts_with, find_sub,
}
use drogon_pay.Common.Find.{bytes_eq_iff}
use drogon_pay.Utils.Status.{map_refund_status}
use drogon_pay.Models.Status.{RefundStatus, is_refund_fail, refunding, refund_success, refund_fail}
use drogon_pay.Services.Refund.Invoke.{contains, refund_certainly_did_not_happen}

-- The text begins with another one; it has another one in it.
abbrev pub Begins : Bytes → Bytes → Type 0
Begins p s = (rest : Bytes) × (s ≡ p ++ rest)

abbrev pub Holds : Bytes → Bytes → Type 0
Holds t s = (before : Bytes) × (after : Bytes) × (s ≡ before ++ (t ++ after))

starts_with_iff : (p s : Bytes) → (starts_with p s ≡ true) ↔ Begins p s
unfolding starts_with
starts_with_iff [] s = (λ h. (s, refl), λ h. refl)
starts_with_iff (c ∷ p) [] = (λ h. absurd (ground (arith, h)), λ h. absurd (ground (arith, h.1)))
starts_with_iff (c ∷ p) (d ∷ s) = (
  λ h.
      let rest = (starts_with_iff p s).0 (ground (arith, h)) in (rest.0, ground (arith, h, rest.1)),
  λ h. ground (arith, h.1, (starts_with_iff p s).1 (h.0, ground (arith, h.1))),
)

found_suc :
    (o : Option ℕ)
    → (elim (Option.map suc o) [ none ↦ false | some i ↦ true ])
      ≡ (elim o [ none ↦ false | some i ↦ true ])
found_suc none = refl
found_suc (some i) = refl

contains-step :
    (pat : Bytes) (d : ℕ) (s : Bytes)
    → starts_with pat (d ∷ s) ≡ false
    → contains pat (d ∷ s) ≡ contains pat s
unfolding find_sub
contains-step pat d s further = rw (contains, find_sub, further) (found_suc (find_sub pat s))

contains-Holds : (c : ℕ) (t s : Bytes) → contains (c ∷ t) s ≡ true → Holds (c ∷ t) s
unfolding find_sub
contains-Holds c t [] h = absurd (ground (arith, h))
contains-Holds c t (d ∷ s) h = elim (Bool-cases (starts_with (c ∷ t) (d ∷ s))) [
  | inl here ↦ let rest = (starts_with_iff (c ∷ t) (d ∷ s)).0 here in ([], rest.0, rest.1)
  | inr further ↦
      let rest = contains-Holds c t s (sym (contains-step (c ∷ t) d s further) ∙ h) in
      (d ∷ rest.0, rest.1, ap (λ z. d ∷ z) rest.2)
]

Holds-contains :
    (c : ℕ) (t s : Bytes) (before after : Bytes)
    → s ≡ before ++ ((c ∷ t) ++ after)
    → contains (c ∷ t) s ≡ true
unfolding find_sub
Holds-contains c t [] [] after e = absurd (ground (arith, e))
Holds-contains c t [] (b ∷ before) after e = absurd (ground (arith, e))
Holds-contains c t (d ∷ s) [] after e =
    ground (arith, (starts_with_iff (c ∷ t) (d ∷ s)).1 (after, e))
Holds-contains c t (d ∷ s) (b ∷ before) after e = elim (Bool-cases (starts_with (c ∷ t) (d ∷ s))) [
  | inl here ↦ ground (arith, here)
  | inr further ↦
      contains-step (c ∷ t) d s further ∙ Holds-contains c t s before after (ground (arith, e))
]

contains_iff : (c : ℕ) (t s : Bytes) → (contains (c ∷ t) s ≡ true) ↔ Holds (c ∷ t) s
contains_iff c t s = (contains-Holds c t s, λ h. Holds-contains c t s h.0 h.1 h.2)

-- The errors behind which the money did certainly not move: a refusal by HTTP with an envelope, or one
-- that never got as far as the transport.
abbrev pub IsRefusal : Bytes → Type 0
IsRefusal error =
    (Begins (codes "HTTP 4") error × (¬ Holds (codes "no error envelope") error))
    ⊎ ((¬ Begins (codes "HTTP ") error)
        × (¬ Begins (codes "http request") error)
        × (error ≢ codes "invalid json response")
        × (¬ Begins (codes "response signature verification failed") error))

pub refund_certainly_did_not_happen-IsRefusal :
    (error : Bytes) → (refund_certainly_did_not_happen error ≡ true) ↔ IsRefusal error
unfolding refund_certainly_did_not_happen
refund_certainly_did_not_happen-IsRefusal error = ground (
  arith,
  starts_with_iff (codes "HTTP 4") error,
  starts_with_iff (codes "HTTP ") error,
  starts_with_iff (codes "http request") error,
  starts_with_iff (codes "response signature verification failed") error,
  bytes_eq_iff error (codes "invalid json response"),
  contains_iff b'n' (codes "o error envelope") error,
)

-- The states of a refund that WeChat reports: failed ones, and all that are known.
abbrev pub IsFailed : String → Type 0
IsFailed state = (state ≡ "CLOSED") ⊎ (state ≡ "ABNORMAL")

abbrev pub IsKnown : String → Type 0
IsKnown state = (state ≡ "SUCCESS") ⊎ (state ≡ "PROCESSING") ⊎ IsFailed state

-- What a state that is no failure makes of the row.
abbrev pub Means : String → RefundStatus → Type 0
Means state status =
    ((state ≡ "SUCCESS") × (status ≡ refund_success))
    ⊎ ((state ≡ "PROCESSING") × (status ≡ refunding))

pub map_refund_status-fail : (t : String) → map_refund_status t ≡ some refund_fail → IsFailed t
unfolding map_refund_status
map_refund_status-fail t h =
    ground
      (arith, h, eq_iff t "SUCCESS", eq_iff t "CLOSED", eq_iff t "ABNORMAL", eq_iff t "PROCESSING")

pub map_refund_status-none : (t : String) → map_refund_status t ≡ none → ¬ IsKnown t
unfolding map_refund_status
map_refund_status-none t h k =
    ground (
      arith,
      h,
      k,
      eq_iff t "SUCCESS",
      eq_iff t "CLOSED",
      eq_iff t "ABNORMAL",
      eq_iff t "PROCESSING",
    )

pub map_refund_status-Means :
    (t : String) (s : RefundStatus)
    → map_refund_status t ≡ some s
    → is_refund_fail s ≡ false
    → Means t s
unfolding map_refund_status
map_refund_status-Means t s h alive = ground (
  arith,
  h,
  alive,
  eq_iff t "SUCCESS",
  eq_iff t "CLOSED",
  eq_iff t "ABNORMAL",
  eq_iff t "PROCESSING",
)

pub IsFailed-map_refund_status : (t : String) → IsFailed t → map_refund_status t ≡ some refund_fail
unfolding map_refund_status
IsFailed-map_refund_status t (inl e) = rw e refl
IsFailed-map_refund_status t (inr e) = rw e refl

pub unknown-map_refund_status : (t : String) → (¬ IsKnown t) → map_refund_status t ≡ none
unfolding map_refund_status
unknown-map_refund_status t n =
    ground
      (arith, n, eq_iff t "SUCCESS", eq_iff t "CLOSED", eq_iff t "ABNORMAL", eq_iff t "PROCESSING")
