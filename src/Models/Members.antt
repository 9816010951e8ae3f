-- ===== src/Models/Members.antt =====
-- The rows that a table has, through the statements that read them.
use drogon_pay.Common.{
  ℕ, ◌≡◌, refl, sym, ap, ◌∙◌, subst, ◌⊎◌, inl, inr, Bool, Option, none, some, List, [], ◌∷◌, arith,
  ltb, if◌then◌else◌, Bool-cases,
}
use drogon_pay.Models.Tables.{
  Fault, select, exactly_one, find_one, latest, succeeds, raises, mapper_fails, answered,
}

module _ {A : Type 0} where
  -- The list has the element.
  abbrev pub Among : A → List A → Type 0
  Among x [] = ⊥
  Among x (y ∷ ys) = (y ≡ x) ⊎ Among x ys

  pub Among-select : (p : A → Bool) (x : A) (rows : List A) → Among x (select p rows) → Among x rows
  Among-select p x [] m = m
  Among-select p x (y ∷ ys) m = elim (Bool-cases (p y)) [
    | inr miss ↦ inr (Among-select p x ys (rw miss at m))
    | inl hit ↦ of (λ n. Among-select p x ys n) (rw hit at m)
  ]
    where
      of :
          (Among x (select p ys) → Among x ys)
          → (y ≡ x) ⊎ Among x (select p ys)
          → (y ≡ x) ⊎ Among x ys
      of ih (inl e) = inl e
      of ih (inr n) = inr (ih n)

  pub select-Among :
      (p : A → Bool) (x : A) (rows rest : List A) → select p rows ≡ x ∷ rest → Among x rows
  select-Among p x rows rest e =
      Among-select p x rows (subst (λ found. Among x found) (sym e) (inl refl))

  latest-Among : (key : A → ℕ) (x : A) (rows : List A) → latest key rows ≡ some x → Among x rows
  unfolding latest
  latest-Among key x [] e = absurd (ground (arith, e))
  latest-Among key x (y ∷ ys) e = newest (latest key ys) (latest-Among key x ys) e
    where
      newest :
          (rest : Option A)
          → (rest ≡ some x → Among x ys)
          → elim rest [ none ↦ some y | some z ↦ if ltb (key y) (key z) then some z else some y ]
            ≡ some x
          → (y ≡ x) ⊎ Among x ys
      newest none ih q = inl cc
      newest (some z) ih q = elim (Bool-cases (ltb (key y) (key z))) [
        | inl newer ↦ inr (ih (rw newer at q))
        | inr older ↦ inl cc
      ]

  -- The latest of the selected rows is a row of the table.
  pub latest_selected-Among :
      (key : A → ℕ) (p : A → Bool) (x : A) (rows : List A)
      → latest key (select p rows) ≡ some x
      → Among x rows
  latest_selected-Among key p x rows e =
      Among-select p x rows (latest-Among key x (select p rows) e)

  -- So is the row that `findOne` answers.
  pub find_one-Among :
      (fault : Fault) (p : A → Bool) (x : A) (rows : List A)
      → find_one fault p rows ≡ answered x
      → Among x rows
  unfolding find_one exactly_one
  find_one-Among (raises what) p x rows e = absurd (ground (arith, e))
  find_one-Among (mapper_fails what) p x rows e = absurd (ground (arith, e))
  find_one-Among succeeds p x rows e = of (select p rows) refl e
    where
      of : (found : List A) → select p rows ≡ found → exactly_one found ≡ answered x → Among x rows
      of [] same q = absurd (ground (arith, q))
      of (y ∷ []) same q = select-Among p x rows [] (same ∙ ap (λ z. z ∷ []) cc)
      of (y ∷ z ∷ more) same q = absurd (ground (arith, q))
