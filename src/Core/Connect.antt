-- ===== src/Core/Connect.antt =====
-- src/flagship_lab/core.py, `Database.connect`: how a transaction ends.
use flagship_lab.Schema.{Store}
use flagship_lab.Result.{value_error}
use flagship_lab.Core.{connect, finish, connect_check, invalid_tenant}
use flagship_lab.Tx.{Env, Tx, World, Failure, ok, err, Result, ◌>>◌, raise_if}
use flagship_lab.Prelude.{◌≡◌, Option, String, none, arith, refl, some, Bool, ◌&&◌, true, false}

module _ {ℓ} {A : Type ℓ} where
  finish-ok : (s : Store) (m : Result A × World) {a : A} → m.0 ≡ ok a → finish s m ≡ m
  finish-ok s (ok b, v) h = refl
  finish-ok s (err d, v) h = absurd (ground arith)

  finish-err :
      (s : Store) (m : Result A × World) {e : Failure}
      → m.0 ≡ err e
      → finish s m ≡ (err e, record m.1 { store = s })
  finish-err s (ok b, v) h = absurd (ground arith)
  finish-err s (err d, v) h = ground arith

module _ {ℓ} {A : Type ℓ} where
  -- A transaction that raises leaves the database as it was.
  pub connect-rollback :
      (env : Env) (tenant : Option String) (body : Tx A) (w : World) {e : Failure}
      → (connect env tenant body w).0 ≡ err e
      → (connect env tenant body w).1.store ≡ w.store
  unfolding connect
  connect-rollback env tenant body w h = finish_err ((connect_check env tenant >> body) w) h
    where
      finish_err :
          (m : Result A × World) {e : Failure}
          → (finish w.store m).0 ≡ err e
          → (finish w.store m).1.store ≡ w.store
      finish_err (ok a, v) h = absurd (ground arith)
      finish_err (err d, v) h = refl

  module _ (env : Env) (body : Tx A) (w : World) where
    pub connect-ok : {a : A} → (body w).0 ≡ ok a → connect env none body w ≡ body w
    unfolding connect
    connect-ok h = finish_ok (body w) h
      where
        finish_ok : (m : Result A × World) {a : A} → m.0 ≡ ok a → finish w.store m ≡ m
        finish_ok (ok b, v) h = refl
        finish_ok (err d, v) h = absurd (ground arith)

    pub connect-err :
        {e : Failure}
        → (body w).0 ≡ err e
        → connect env none body w ≡ (err e, record (body w).1 { store = w.store })
    unfolding connect
    connect-err h = finish_err (body w) h
      where
        finish_err :
            (m : Result A × World) {e : Failure}
            → m.0 ≡ err e
            → finish w.store m ≡ (err e, record m.1 { store = w.store })
        finish_err (ok b, v) h = absurd (ground arith)
        finish_err (err d, v) h = ground arith

  committed :
      (s : Store) (m : Result A × World) {a : A}
      → (finish s m).0 ≡ ok a
      → (finish s m ≡ m) × (m.0 ≡ ok a)
  committed s (ok b, v) h = (refl, h)
  committed s (err d, v) h = absurd (ground arith)

  committed_after :
      (b : Bool) (body : Tx A) (w : World) {a : A}
      → (finish w.store ((raise_if b (value_error "invalid tenant_id") >> body) w)).0 ≡ ok a
      → (finish w.store ((raise_if b (value_error "invalid tenant_id") >> body) w) ≡ body w)
        × ((body w).0 ≡ ok a)
  committed_after true body w h = absurd (ground arith)
  committed_after false body w h = committed w.store (body w) h

  -- A transaction that returns is its body.
  pub connect-eq-ok :
      (env : Env) (tenant : Option String) (body : Tx A) (w : World) {a : A}
      → (connect env tenant body w).0 ≡ ok a
      → (connect env tenant body w ≡ body w) × ((body w).0 ≡ ok a)
  unfolding connect
  connect-eq-ok env none body w h = committed w.store (body w) h
  connect-eq-ok env (some tenant) body w h =
      committed_after (env.postgresql && invalid_tenant env tenant) body w h

  passed_after :
      (b : Bool) (body : Tx A) (w : World) {a : A}
      → (finish w.store ((raise_if b (value_error "invalid tenant_id") >> body) w)).0 ≡ ok a
      → b ≡ false
  passed_after true body w h = absurd (ground arith)
  passed_after false body w h = refl

module _ {ℓ κ} {A : Type ℓ} {B : Type κ} where
  -- Where one transaction of a tenant returned, another one is its body if the body returns.
  pub connect-again :
      (env : Env) (tenant : Option String) (body : Tx A) (w : World) {a : A} (body' : Tx B)
      (w' : World) {b : B}
      → (connect env tenant body w).0 ≡ ok a
      → (body' w').0 ≡ ok b
      → connect env tenant body' w' ≡ body' w'
  unfolding connect
  connect-again env none body w body' w' h h' = finish-ok w'.store (body' w') h'
  connect-again env (some tenant) body w body' w' h h' =
      rw (passed_after (env.postgresql && invalid_tenant env tenant) body w h)
        (finish-ok w'.store (body' w') h')

  -- And it raises and is undone if the body raises.
  pub connect_again-err :
      (env : Env) (tenant : Option String) (body : Tx A) (w : World) {a : A} (body' : Tx B)
      (w' : World) {e : Failure}
      → (connect env tenant body w).0 ≡ ok a
      → (body' w').0 ≡ err e
      → connect env tenant body' w' ≡ (err e, record (body' w').1 { store = w'.store })
  unfolding connect
  connect_again-err env none body w body' w' h h' = finish-err w'.store (body' w') h'
  connect_again-err env (some tenant) body w body' w' h h' =
      rw (passed_after (env.postgresql && invalid_tenant env tenant) body w h)
        (finish-err w'.store (body' w') h')
