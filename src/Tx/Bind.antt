-- ===== src/Tx/Bind.antt =====
-- How a block of statements ends, from how its first statement ends.
use flagship_lab.Tx.{
  Result, World, ok, Tx, and_then, Failure, err, one_or_none, one, raise_if, ◌>>◌,
}
use flagship_lab.Prelude.{◌≡◌, refl, ◌⊎◌, arith, inl, inr, List, Bool, ◌∷◌, some, true, false, []}

pub Result-cases {ℓ} :
    {A : Type ℓ} (r : Result A) → ((a : A) × (r ≡ ok a)) ⊎ ((e : Failure) × (r ≡ err e))
Result-cases (ok a) = inl (a, refl)
Result-cases (err e) = inr (e, refl)

module _ {ℓ κ} {A : Type ℓ} {B : Type κ} where
  pub and_then-ok :
      (m : Result A × World) (f : A → Tx B) (a : A) → m.0 ≡ ok a → and_then m f ≡ f a m.1
  and_then-ok (ok b, w) f a h = ground arith
  and_then-ok (err e, w) f a h = absurd (ground arith)

  pub and_then-err :
      (m : Result A × World) (f : A → Tx B) (e : Failure)
      → m.0 ≡ err e
      → and_then m f ≡ (err e, m.1)
  and_then-err (ok b, w) f e h = absurd (ground arith)
  and_then-err (err d, w) f e h = ground arith

  pub and_then-eq-ok :
      (m : Result A × World) (f : A → Tx B) (b : B)
      → (and_then m f).0 ≡ ok b
      → (a : A) × (m.0 ≡ ok a) × (and_then m f ≡ f a m.1) × ((f a m.1).0 ≡ ok b)
  and_then-eq-ok (ok a, w) f b h = (a, refl, refl, h)
  and_then-eq-ok (err d, w) f b h = absurd (ground arith)

module _ {ℓ κ} {A : Type ℓ} {B : Type κ} where
  -- What holds of the world after a statement and after every continuation holds after the block.
  pub and_then-keeps {μ} :
      (P : World → Type μ) (m : Result A × World) (f : A → Tx B)
      → P m.1
      → ((a : A) → P (f a m.1).1)
      → P (and_then m f).1
  and_then-keeps P (ok a, w) f kept next = next a
  and_then-keeps P (err e, w) f kept next = kept

module _ {ℓ} {A : Type ℓ} where
  -- A guard that was passed did not hold.
  pub raise_if-ok :
      (b : Bool) (e : Failure) (k : Tx A) (w : World) {a : A}
      → ((raise_if b e >> k) w).0 ≡ ok a
      → (b ≡ false) × ((raise_if b e >> k) w ≡ k w) × ((k w).0 ≡ ok a)
  raise_if-ok true e k w h = absurd (ground arith)
  raise_if-ok false e k w h = (refl, refl, h)

  -- A guard in front of a block that undoes its changes when it raises.
  pub raise_if-rollback :
      (b : Bool) (e : Failure) (k : Tx A) (w : World)
      → ((d : Failure) → (k w).0 ≡ err d → (k w).1.store ≡ w.store)
      → (d : Failure) → ((raise_if b e >> k) w).0 ≡ err d
      → ((raise_if b e >> k) w).1.store ≡ w.store
  raise_if-rollback true e k w undo d h = refl
  raise_if-rollback false e k w undo d h = undo d h

pub raise_if-world : (b : Bool) (e : Failure) (w : World) → (raise_if b e w).1 ≡ w
raise_if-world true e w = refl
raise_if-world false e w = refl

module _ {A : Type 0} where
  pub one_or_none-some : (xs : List A) {x : A} → one_or_none xs ≡ ok (some x) → xs ≡ x ∷ []
  one_or_none-some [] h = absurd (ground arith)
  one_or_none-some (y ∷ []) h = ground arith
  one_or_none-some (y ∷ z ∷ ys) h = absurd (ground arith)

  pub one-ok : (xs : List A) {x : A} → one xs ≡ ok x → xs ≡ x ∷ []
  one-ok [] h = absurd (ground arith)
  one-ok (y ∷ []) h = ground arith
  one-ok (y ∷ z ∷ ys) h = absurd (ground arith)
