-- ===== src/Metrics/Counter.antt =====
-- `collections.Counter`: a dict in the order of insertion, where a missing key has the value zero.
use flagship_lab.Prelude.{
  Bool, List, ◌≡◌, true, ◌∷◌, [], if◌then◌else◌, Bool-cases, inl, inr, arith, refl,
}

module _ {ℓ κ} {K : Type ℓ} {V : Type κ} where
  -- `counter[k]`
  unfoldable pub look : (K → K → Bool) → K → V → List (K × V) → V
  look same k z [] = z
  look same k z ((j, v) ∷ rest) = let found = look same k z rest in if same j k then v else found

  -- `counter[k] += …`, where `f` is the addition.
  unfoldable pub bump : (K → K → Bool) → K → (V → V) → V → List (K × V) → List (K × V)
  bump same k f z [] = (k, f z) ∷ []
  bump same k f z ((j, v) ∷ rest) =
      let more = bump same k f z rest in if same j k then (j, f v) ∷ rest else (j, v) ∷ more

  place : (K → K → Bool) → K × V → List (K × V) → List (K × V)
  place le x [] = x ∷ []
  place le x (y ∷ ys) = let more = place le x ys in if le x.0 y.0 then x ∷ y ∷ ys else y ∷ more

  -- `sorted(counter.items())`, whose keys are different.
  unfoldable pub sorted_items : (K → K → Bool) → List (K × V) → List (K × V)
  unfolding place
  sorted_items le [] = []
  sorted_items le (x ∷ xs) = place le x (sorted_items le xs)

  -- After an addition at `k`, the value at `k` has changed by it, and every other is the same.
  pub look-bump :
      (same : K → K → Bool)
      → ((j k : K) → same j k ≡ true → j ≡ k)
      → ((k : K) → same k k ≡ true)
      → (k at : K) (f : V → V) (z : V) (c : List (K × V))
      → look same at z (bump same k f z c)
        ≡ (if same k at then f (look same at z c) else look same at z c)
  unfolding look bump
  look-bump same correct reflexive k at f z [] = refl
  look-bump same correct reflexive k at f z ((j, v) ∷ rest) =
      let ih = look-bump same correct reflexive k at f z rest in
      elim (Bool-cases (same j k)) [
        | inl here ↦
            let eq = correct j k here in
            let move : same k at ≡ same j at = rw eq in
            elim (Bool-cases (same j at)) [
              | inl a ↦ rw (here, move, a)
              | inr b ↦ rw (here, move, b)
            ]
        | inr other ↦ elim (Bool-cases (same j at)) [
          | inl a ↦ elim (Bool-cases (same k at)) [
            | inl b ↦
                let eq : j ≡ k = cc (correct j at a, correct k at b) in
                let contrary : same j k ≡ true = rw (eq, reflexive k) in
                absurd (ground (arith, rw other at contrary))
            | inr b ↦ rw (other, a, b)
          ]
          | inr a ↦ rw (other, a, ih)
        ]
      ]
