-- ===== src/Services/Idempotency/Rows.antt =====
-- The rows of one key, through the statements of the service.

use drogon_pay.Common.{◌≡◌, refl, Bool, true, false, not, ◌&&◌, List, [], ◌∷◌, arith, any}
use drogon_pay.Models.Tables.{select, update_where}

module _ {ℓ} {A : Type ℓ} where
  pub select-and :
      (p q : A → Bool) (rows : List A) → select (λ x. p x && q x) rows ≡ select q (select p rows)
  select-and p q [] = refl
  select-and p q (x ∷ rows) = ground (arith, select-and p q rows)

  -- A write that keeps what the rows are selected by.
  pub select-update_where :
      (p q : A → Bool) (f : A → A)
      → ((x : A) → p (f x) ≡ p x)
      → (rows : List A) → select p (update_where q f rows) ≡ update_where q f (select p rows)
  select-update_where p q f keeps [] = refl
  select-update_where p q f keeps (x ∷ rows) =
      ground (arith, keeps x, select-update_where p q f keeps rows)

  pub any-and :
      (p q : A → Bool) (rows : List A) → any (λ x. p x && q x) rows ≡ any q (select p rows)
  any-and p q [] = refl
  any-and p q (x ∷ rows) = ground (arith, any-and p q rows)

  pub update_where-and :
      (p q : A → Bool) (f : A → A) (rows : List A)
      → update_where (λ x. p x && q x) f (select p rows) ≡ update_where q f (select p rows)
  update_where-and p q f [] = refl
  update_where-and p q f (x ∷ rows) = ground (arith, update_where-and p q f rows)

  pub select-none : (p : A → Bool) (rows : List A) → any p rows ≡ false → select p rows ≡ []
  select-none p [] h = refl
  select-none p (x ∷ rows) h = ground (arith, select-none p rows)

  pub any-select :
      (p : A → Bool) (x : A) (rows rest : List A) → select p rows ≡ x ∷ rest → any p rows ≡ true
  any-select p x [] rest h = cc
  any-select p x (y ∷ rows) rest h = ground (arith, any-select p x rows rest)

  -- Deleting rows of a key among the rows of that key.
  pub select-delete :
      (p r : A → Bool) (rows : List A)
      → select p (select (λ x. not (p x && r x)) rows) ≡ select (λ x. not (r x)) (select p rows)
  select-delete p r [] = refl
  select-delete p r (x ∷ rows) = ground (arith, select-delete p r rows)

  pub any-none : (p : A → Bool) (rows : List A) → select p rows ≡ [] → any p rows ≡ false
  any-none p [] h = refl
  any-none p (x ∷ rows) h = ground (arith, any-none p rows)
