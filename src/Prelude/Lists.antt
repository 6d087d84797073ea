-- ===== src/Prelude/Lists.antt =====
-- Lists measured by native numbers and filtered by Boolean tests (Python's list comprehensions).
use Prim.Native.Nat.{ℕ, zero, suc, ◌+◌}
use mathlib.Core.Path.{◌≡◌, refl, ap, ◌∙◌}
use mathlib.Core.Logic.{◌⊎◌, inl, inr}
use native.Mathlib.Omega.{arith}
use mathlib.Core.Bool.{Bool, true, false, ◌||◌, ◌&&◌}
use mathlib.Core.List.{List, [], ◌∷◌, ◌++◌}
use mathlib.Core.Option.{Option, none, some}
use flagship_lab.Prelude.Tests.{if◌then◌else◌, Bool-cases}

module _ {ℓ} {A : Type ℓ} where
  abbrev pub length : List A → ℕ
  length [] = 0
  length (x ∷ xs) = suc (length xs)

  abbrev pub take : ℕ → List A → List A
  take zero xs = []
  take (suc n) [] = []
  take (suc n) (x ∷ xs) = x ∷ take n xs

  -- `[x for x in xs if p(x)]`
  unfoldable pub select : (A → Bool) → List A → List A
  select p [] = []
  select p (x ∷ xs) = let rest = select p xs in if p x then x ∷ rest else rest

  -- `[f(x) if p(x) else x for x in xs]`
  unfoldable pub update : (A → Bool) → (A → A) → List A → List A
  update p f [] = []
  update p f (x ∷ xs) = (if p x then f x else x) ∷ update p f xs

  -- `any(p(x) for x in xs)`
  unfoldable pub any : (A → Bool) → List A → Bool
  any p [] = false
  any p (x ∷ xs) = p x || any p xs

  -- `all(p(x) for x in xs)`
  unfoldable pub all : (A → Bool) → List A → Bool
  all p [] = true
  all p (x ∷ xs) = p x && all p xs

  -- The last element, as `ORDER BY id DESC LIMIT 1` finds it.
  unfoldable pub last? : List A → Option A
  last? [] = none
  last? (x ∷ []) = some x
  last? (x ∷ y ∷ xs) = last? (y ∷ xs)

  abbrev pub All {κ} : (A → Type κ) → List A → Type κ
  All P [] = Unit
  All P (x ∷ xs) = P x × All P xs

module _ {ℓ} {A : Type ℓ} where
  pub select-append :
      (p : A → Bool) (xs ys : List A) → select p (xs ++ ys) ≡ select p xs ++ select p ys
  unfolding select
  select-append p [] ys = refl
  select-append p (x ∷ xs) ys = ground (arith, select-append p xs ys)

  pub last?-append : (xs : List A) (x : A) → last? (xs ++ x ∷ []) ≡ some x
  unfolding last?
  last?-append [] x = refl
  last?-append (y ∷ []) x = refl
  last?-append (y ∷ z ∷ xs) x = last?-append (z ∷ xs) x

  pub length-append : (xs ys : List A) → length (xs ++ ys) ≡ length xs + length ys
  length-append [] ys = omega arith
  length-append (x ∷ xs) ys = omega (arith, length-append xs ys)

  pub last?-cons : (x : A) (xs : List A) → (y : A) × (last? (x ∷ xs) ≡ some y)
  unfolding last?
  last?-cons x [] = (x, refl)
  last?-cons x (y ∷ xs) = last?-cons y xs

  pub list_cases : (xs : List A) → (xs ≡ []) ⊎ ((y : A) × (ys : List A) × (xs ≡ y ∷ ys))
  list_cases [] = inl refl
  list_cases (y ∷ ys) = inr (y, ys, refl)

module _ {ℓ} {A : Type ℓ} (p : A → Bool) (f : A → A) where
  -- An update that makes its own test fail leaves no row to update again.
  pub select-update-none :
      ((x : A) → p x ≡ true → p (f x) ≡ false) → (xs : List A) → select p (update p f xs) ≡ []
  unfolding select update
  select-update-none h [] = refl
  select-update-none h (x ∷ xs) = elim (Bool-cases (p x)) [
    | inl holds ↦ rw (holds, h x holds) (select-update-none h xs)
    | inr fails ↦ rw (fails, fails) (select-update-none h xs)
  ]

  -- An update that keeps a test commutes with the selection by it.
  pub select-update :
      (q : A → Bool)
      → ((x : A) → p x ≡ true → q (f x) ≡ q x)
      → (xs : List A) → select q (update p f xs) ≡ update p f (select q xs)
  unfolding select update
  select-update q h [] = refl
  select-update q h (x ∷ xs) =
      ground (arith, select-update q h xs, h x, Bool-cases (p x), Bool-cases (q x))

module _ {ℓ} {A : Type ℓ} (p q : A → Bool) where
  -- Selecting by a stronger test first or last is the same.
  pub select-select :
      ((x : A) → p x ≡ true → q x ≡ true) → (xs : List A) → select p (select q xs) ≡ select p xs
  unfolding select
  select-select h [] = refl
  select-select h (x ∷ xs) = elim (Bool-cases (q x)) [
    | inl holds ↦ rw holds (ground (arith, select-select h xs))
    | inr fails ↦ elim (Bool-cases (p x)) [
      | inl also ↦ absurd (ground (arith, h x also))
      | inr not_p ↦ rw (fails, not_p) (select-select h xs)
    ]
  ]

module _ {ℓ} {A : Type ℓ} (q : A → Bool) where
  -- What a selection returns passes its test.
  pub select-head : (xs : List A) {y : A} {ys : List A} → select q xs ≡ y ∷ ys → q y ≡ true
  unfolding select
  select-head [] h = absurd (ground arith)
  select-head (x ∷ xs) h = elim (Bool-cases (q x)) [
    | inl holds ↦ ground (arith, rw holds at h)
    | inr fails ↦ select-head xs (rw fails at h)
  ]

module _ {ℓ} {A : Type ℓ} (p : A → Bool) where
  -- A row at the end that is selected, or that is not.
  pub select-last :
      (xs : List A) (x : A) → p x ≡ true → select p (xs ++ x ∷ []) ≡ select p xs ++ x ∷ []
  unfolding select
  select-last xs x holds = select-append p xs (x ∷ []) ∙ rw holds refl

  pub select-last-other :
      (xs : List A) (x : A) → p x ≡ false → select p (xs ++ x ∷ []) ≡ select p xs
  unfolding select
  select-last-other [] x fails = rw fails refl
  select-last-other (y ∷ ys) x fails = elim (Bool-cases (p y)) [
    | inl here ↦ rw here (ap (λ zs. y ∷ zs) (select-last-other ys x fails))
    | inr there ↦ rw there (select-last-other ys x fails)
  ]

-- Both parts of an empty list are empty.
pub append_empty {ℓ} : {A : Type ℓ} (xs ys : List A) → xs ++ ys ≡ [] → (xs ≡ []) × (ys ≡ [])
append_empty [] ys h = (refl, h)
append_empty (x ∷ xs) ys h = absurd (ground arith)
