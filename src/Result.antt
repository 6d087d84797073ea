-- ===== src/Result.antt =====
-- Exceptions as values: what the program and the libraries under it raise.
use flagship_lab.Prelude.{ℕ, String, Bool, true, false, ◌≡◌, refl, arith}

-- What a call may raise.
pub data Failure : Type 0 where
  value_error : String → Failure
  key_error : String → Failure
  type_error : Failure
  json_error : Failure
  invalid_operation : Failure
  integrity_error : String → Failure
  multiple_results : Failure
  no_result : Failure
  runtime_error : String → Failure
  system_exit : String → Failure
  -- `jwt.PyJWTError` and its subclasses
  token_error : String → Failure
  -- `HTTPException(status_code, detail)`
  http_exception : ℕ → String → Failure

pub data Result {ℓ} (A : Type ℓ) : Type ℓ where
  ok : A → Result A
  err : Failure → Result A

infixl 5 ◌>=>◌
abbrev pub ◌>=>◌ {ℓ κ} : {A : Type ℓ} {B : Type κ} → Result A → (A → Result B) → Result B
ok a >=> f = f a
err e >=> f = err e

-- `if test: raise e`, where no state is kept.
abbrev pub reject_if : Bool → Failure → Result (Unit {0})
reject_if true e = err e
reject_if false e = ok tt

module _ {ℓ κ} {A : Type ℓ} {B : Type κ} where
  pub bind-ok :
      (m : Result A) (f : A → Result B) {b : B}
      → (m >=> f) ≡ ok b
      → (a : A) × (m ≡ ok a) × (f a ≡ ok b)
  bind-ok (ok a) f h = (a, refl, h)
  bind-ok (err e) f h = absurd (ground arith)

  pub bind-at : (m : Result A) (f : A → Result B) (a : A) → m ≡ ok a → (m >=> f) ≡ f a
  bind-at (ok b) f a h = ground arith
  bind-at (err e) f a h = absurd (ground arith)

module _ {ℓ} {B : Type ℓ} where
  -- A guard that was passed did not hold.
  pub reject_if-ok :
      (t : Bool) (e : Failure) (k : Result B) {b : B}
      → (reject_if t e >=> λ _. k) ≡ ok b
      → (t ≡ false) × (k ≡ ok b)
  reject_if-ok true e k h = absurd (ground arith)
  reject_if-ok false e k h = (refl, h)

pub reject_if-passed : (t : Bool) (e : Failure) → reject_if t e ≡ ok tt → t ≡ false
reject_if-passed true e h = absurd (ground arith)
reject_if-passed false e h = refl

pub ok-injective {ℓ} : {A : Type ℓ} {a b : A} → ok a ≡ ok b → a ≡ b
ok-injective h = ground arith
