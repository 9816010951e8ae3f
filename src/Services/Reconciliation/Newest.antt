-- ===== src/Services/Reconciliation/Newest.antt =====
-- About `ORDER BY ... DESC LIMIT n`: the rows that a sweep takes, and the ones that it leaves.

use drogon_pay.Common.{
  ℕ, zero, suc, ◌≤◌, ◌≡◌, refl, ap, subst, ◌⊎◌, inl, inr, Bool, true, List, [], ◌∷◌, arith, ltb,
  Bool-cases, Bytes, length, take,
}
use drogon_pay.Models.Members.{Among}
use drogon_pay.Models.Tables.{OrderRow, Db, select}
use drogon_pay.Services.Reconciliation.{
  ReconcileEnv, place_newest, newest_first, is_pending, pending_orders,
}

module _ {A : Type 0} where
  Among-selected :
      (p : A → Bool) (x : A) (rows : List A) → p x ≡ true → Among x rows → Among x (select p rows)
  Among-selected p x [] holds m = m
  Among-selected p x (y ∷ ys) holds (inl e) = rw (e, holds) (inl refl)
  Among-selected p x (y ∷ ys) holds (inr m) = elim (Bool-cases (p y)) [
    | inl hit ↦ rw hit (inr (Among-selected p x ys holds m))
    | inr miss ↦ rw miss (Among-selected p x ys holds m)
  ]

  pub take-Among : (n : ℕ) (x : A) (xs : List A) → Among x (take n xs) → Among x xs
  take-Among zero x xs m = elim m [ ]
  take-Among (suc n) x [] m = m
  take-Among (suc n) x (y ∷ ys) (inl e) = inl e
  take-Among (suc n) x (y ∷ ys) (inr m) = inr (take-Among n x ys m)

  pub holds-Among : (p : A → Bool) (x : A) (rows : List A) → Among x (select p rows) → p x ≡ true
  holds-Among p x [] m = elim m [ ]
  holds-Among p x (y ∷ ys) m = elim (Bool-cases (p y)) [
    | inr miss ↦ holds-Among p x ys (rw miss at m)
    | inl hit ↦ chosen (λ n. holds-Among p x ys n) hit (rw hit at m)
  ]
    where
      chosen :
          (Among x (select p ys) → p x ≡ true)
          → p y ≡ true
          → (y ≡ x) ⊎ Among x (select p ys)
          → p x ≡ true
      chosen ih hit (inl e) = subst (λ z. p z ≡ true) e hit
      chosen ih hit (inr n) = ih n

  module _ (key : A → ℕ) where
    abbrev pub AllFrom : ℕ → List A → Type 0
    AllFrom least [] = Unit {0}
    AllFrom least (x ∷ xs) = (least ≤ key x) × AllFrom least xs

    abbrev AllUpTo : ℕ → List A → Type 0
    AllUpTo most [] = Unit {0}
    AllUpTo most (x ∷ xs) = (key x ≤ most) × AllUpTo most xs

    abbrev IsNewestFirst : List A → Type 0
    IsNewestFirst [] = Unit {0}
    IsNewestFirst (x ∷ xs) = AllUpTo (key x) xs × IsNewestFirst xs

    AllUpTo-place :
        (x : A) (xs : List A) (most : ℕ)
        → key x ≤ most
        → AllUpTo most xs
        → AllUpTo most (place_newest key x xs)
    AllUpTo-place x [] most le every = (le, tt)
    AllUpTo-place x (y ∷ ys) most le (ly, every) = elim (Bool-cases (ltb (key x) (key y))) [
      | inl older ↦ rw older (ly, AllUpTo-place x ys most le every)
      | inr newer ↦ rw newer (le, (ly, every))
    ]

    AllUpTo-trans : (a b : ℕ) (xs : List A) → a ≤ b → AllUpTo a xs → AllUpTo b xs
    AllUpTo-trans a b [] le every = tt
    AllUpTo-trans a b (x ∷ xs) le (lx, every) =
        (omega (arith, lx, le), AllUpTo-trans a b xs le every)

    place_newest-IsNewestFirst :
        (x : A) (xs : List A) → IsNewestFirst xs → IsNewestFirst (place_newest key x xs)
    place_newest-IsNewestFirst x [] s = (tt, tt)
    place_newest-IsNewestFirst x (y ∷ ys) (every, s) = elim (Bool-cases (ltb (key x) (key y))) [
      | inl older ↦ rw older (
        AllUpTo-place x ys (key y) (ground (arith, older)) every,
        place_newest-IsNewestFirst x ys s,
      )
      | inr newer ↦ rw newer (
        (ground (arith, newer), AllUpTo-trans (key y) (key x) ys (ground (arith, newer)) every),
        (every, s),
      )
    ]

    newest_first-IsNewestFirst : (xs : List A) → IsNewestFirst (newest_first key xs)
    newest_first-IsNewestFirst [] = tt
    newest_first-IsNewestFirst (x ∷ xs) =
        place_newest-IsNewestFirst x (newest_first key xs) (newest_first-IsNewestFirst xs)

    Among-place : (x y : A) (xs : List A) → (y ≡ x) ⊎ Among x xs → Among x (place_newest key y xs)
    Among-place x y [] m = m
    Among-place x y (z ∷ zs) m = elim (Bool-cases (ltb (key y) (key z))) [
      | inl older ↦ rw older (deeper (λ n. Among-place x y zs n) m)
      | inr newer ↦ rw newer m
    ]
      where
        deeper :
            ((y ≡ x) ⊎ Among x zs → Among x (place_newest key y zs))
            → (y ≡ x) ⊎ ((z ≡ x) ⊎ Among x zs)
            → (z ≡ x) ⊎ Among x (place_newest key y zs)
        deeper ih (inl e) = inr (ih (inl e))
        deeper ih (inr (inl e)) = inl e
        deeper ih (inr (inr among)) = inr (ih (inr among))

    Among-newest_first : (x : A) (xs : List A) → Among x xs → Among x (newest_first key xs)
    Among-newest_first x [] m = m
    Among-newest_first x (y ∷ ys) (inl e) = Among-place x y (newest_first key ys) (inl e)
    Among-newest_first x (y ∷ ys) (inr m) =
        Among-place x y (newest_first key ys) (inr (Among-newest_first x ys m))

    place-Among : (x y : A) (xs : List A) → Among x (place_newest key y xs) → (y ≡ x) ⊎ Among x xs
    place-Among x y [] m = m
    place-Among x y (z ∷ zs) m = elim (Bool-cases (ltb (key y) (key z))) [
      | inl older ↦ sorted (λ n. place-Among x y zs n) (rw older at m)
      | inr newer ↦ rw newer at m
    ]
      where
        sorted :
            (Among x (place_newest key y zs) → (y ≡ x) ⊎ Among x zs)
            → (z ≡ x) ⊎ Among x (place_newest key y zs)
            → (y ≡ x) ⊎ ((z ≡ x) ⊎ Among x zs)
        sorted ih (inl e) = inr (inl e)
        sorted ih (inr n) = elim (ih n) [ inl e ↦ inl e | inr r ↦ inr (inr r) ]

    pub newest_first-Among : (x : A) (xs : List A) → Among x (newest_first key xs) → Among x xs
    newest_first-Among x [] m = m
    newest_first-Among x (y ∷ ys) m = elim (place-Among x y (newest_first key ys) m) [
      | inl e ↦ inl e
      | inr n ↦ inr (newest_first-Among x ys n)
    ]

    up_to-Among : (most : ℕ) (x : A) (xs : List A) → AllUpTo most xs → Among x xs → key x ≤ most
    up_to-Among most x [] every m = elim m [ ]
    up_to-Among most x (y ∷ ys) (le, every) (inl e) = subst (λ z. key z ≤ most) e le
    up_to-Among most x (y ∷ ys) (le, every) (inr m) = up_to-Among most x ys every m

    -- What a limit leaves out is behind as many rows as the limit, all of them as new.
    abbrev pub IsCrowdedOut : ℕ → A → List A → Type 0
    IsCrowdedOut n x xs = (length xs ≡ n) × AllFrom (key x) xs

    Among-take :
        (n : ℕ) (x : A) (xs : List A)
        → IsNewestFirst xs
        → Among x xs
        → Among x (take n xs) ⊎ IsCrowdedOut n x (take n xs)
    Among-take zero x xs s m = inr (refl, tt)
    Among-take (suc n) x [] s m = elim m [ ]
    Among-take (suc n) x (y ∷ ys) s (inl e) = inl (inl e)
    Among-take (suc n) x (y ∷ ys) (every, s) (inr m) = elim (Among-take n x ys s m) [
      | inl among ↦ inl (inr among)
      | inr (full, newer) ↦ inr (ap suc full, (up_to-Among (key y) x ys every m, newer))
    ]

-- A row that the selection has is in the list, or the list is full of rows that are as new.
pub pending_orders-newest :
    (env : ReconcileEnv) (channel : Bytes) (row : OrderRow) (db : Db)
    → is_pending env channel row ≡ true
    → Among row db.orders
    → Among row (pending_orders env channel db)
      ⊎ IsCrowdedOut
          (λ (other : OrderRow). (env.times other).updated_at)
          env.batch_size
          row
          (pending_orders env channel db)
pending_orders-newest env channel row db pending m =
    Among-take key env.batch_size row (newest_first key waiting)
      (newest_first-IsNewestFirst key waiting)
      (Among-newest_first key row waiting
        (Among-selected (is_pending env channel) row db.orders pending m))
  where
    key : OrderRow → ℕ
    key other = (env.times other).updated_at

    waiting : List OrderRow
    waiting = select (is_pending env channel) db.orders
