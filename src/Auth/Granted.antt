-- ===== src/Auth/Granted.antt =====
-- src/flagship_lab/auth.py: who passes the dependency of a route.
use mathlib.Core.Path.{subst}
use flagship_lab.Core.{invalid_tenant}
use flagship_lab.Auth.Roles.{EachName, Listed, EachText, known_roles, SomeName, claimed_roles}
use flagship_lab.Prelude.Text.{count, drop_char}
use flagship_lab.Json.Get.{get_field, falsy}
use flagship_lab.Result.{
  ok, bind-ok, ok-injective, reject_if-ok, type_error, Result, err, Failure, token_error,
  value_error, key_error, integrity_error, runtime_error, system_exit, http_exception, json_error,
  invalid_operation, multiple_results, no_result,
}
use flagship_lab.Auth.{
  is_allowed, role_set, bad_roles, all_texts, long_container, bad_scopes, dependency, check_claims,
  check_roles, after_verify, bad_tenant, granted, oidc_verify, item_count, field_count,
}
use flagship_lab.Json.{
  Items, Json, Fields, arr, cons, text, obj, nil, bool, int, real, decimal, null,
}
use flagship_lab.Tx.{Env}
use flagship_lab.Prelude.{
  List, String, Option, ◌≡◌, true, some, arith, Bool-cases, ◌≤◌, ◌==◌, inl, inr, any, not, false,
  none, refl, if◌then◌else◌, ltb, ◌||◌, Option-cases,
}

-- What the claims of a request that passes have.
pub record IsGranted (env : Env) (decode : String → Option Fields) (allowed : List String)
    (credentials : Option String) (claims : Fields) : Type 0 where
  pub token : String
  pub sent : credentials ≡ some token
  pub decoded : decode token ≡ some claims
  pub roles : Json
  pub claimed : get_field "roles" claims ≡ some roles
  pub all_known : EachName (λ s. Listed s known_roles) roles
  pub some_allowed : SomeName (λ s. Listed s allowed) roles
  pub tenant : String
  pub of_tenant : get_field "tenant_id" claims ≡ some (text tenant)
  pub tenant_given : 1 ≤ count tenant
  pub tenant_short : count tenant ≤ 64
  pub tenant_plain : env.isalnum (drop_char b'-' (drop_char b'_' tenant)) ≡ true
  pub scope : Json
  pub scopes : Items
  pub scoped : get_field "resource_scopes" claims ≡ some (arr (cons scope scopes))
  pub scope_texts : EachText (λ s. Unit) (cons scope scopes)

long_not_ok : (v : Json) → long_container v ≡ ok false → ⊥
long_not_ok (arr xs) h = ground (arith, Bool-cases (ltb 64 (item_count xs)))
long_not_ok (obj fs) h = ground (arith, Bool-cases (ltb 64 (field_count fs)))
long_not_ok (text s) h = ground arith
long_not_ok null h = ground arith
long_not_ok (bool b) h = ground arith
long_not_ok (int n) h = ground arith
long_not_ok (real r) h = ground arith
long_not_ok (decimal d) h = ground arith

not_text : (v : Json) → (if falsy v then ok true else long_container v) ≡ ok false → ⊥
not_text v h = elim (Bool-cases (falsy v)) [
  | inl empty ↦ ground (arith, rw empty at h)
  | inr full ↦ long_not_ok v (rw full at h)
]

given : (t : String) → (t == "") ≡ false → 1 ≤ count t
given String.[] h = absurd (ground arith)
given (String.◌∷◌ c s) h = omega arith

tenant_of :
    (env : Env) (claim : Option Json)
    → bad_tenant env claim ≡ ok false
    → (tenant : String) × (claim ≡ some (text tenant))
      × (1 ≤ count tenant)
      × (count tenant ≤ 64)
      × (env.isalnum (drop_char b'-' (drop_char b'_' tenant)) ≡ true)
unfolding invalid_tenant
tenant_of env none h = absurd (ground arith)
tenant_of env (some (text t)) h =
    let fine : (t == ""
          || ltb 64 (count t)
          || not (env.isalnum (drop_char b'-' (drop_char b'_' t))))
        ≡ false =
      ok-injective h in
    (t, refl, given t (ground arith), ground arith, ground arith)
tenant_of env (some (arr xs)) h = absurd (not_text (arr xs) h)
tenant_of env (some (obj fs)) h = absurd (not_text (obj fs) h)
tenant_of env (some null) h = absurd (not_text null h)
tenant_of env (some (bool b)) h = absurd (not_text (bool b) h)
tenant_of env (some (int n)) h = absurd (not_text (int n) h)
tenant_of env (some (real r)) h = absurd (not_text (real r) h)
tenant_of env (some (decimal d)) h = absurd (not_text (decimal d) h)

each_text : (xs : Items) → all_texts xs ≡ true → EachText (λ s. Unit) xs
each_text nil h = tt
each_text (cons (text s) xs) h = (tt, each_text xs h)
each_text (cons null xs) h = absurd (ground arith)
each_text (cons (bool b) xs) h = absurd (ground arith)
each_text (cons (int n) xs) h = absurd (ground arith)
each_text (cons (real r) xs) h = absurd (ground arith)
each_text (cons (decimal d) xs) h = absurd (ground arith)
each_text (cons (arr ys) xs) h = absurd (ground arith)
each_text (cons (obj fs) xs) h = absurd (ground arith)

scopes_of :
    (claim : Option Json)
    → bad_scopes claim ≡ false
    → (v : Json) × (xs : Items) × (claim ≡ some (arr (cons v xs)))
      × EachText (λ s. Unit) (cons v xs)
scopes_of none h = absurd (ground arith)
scopes_of (some (arr nil)) h = absurd (ground arith)
scopes_of (some (arr (cons v xs))) h = (v, xs, refl, each_text (cons v xs) (ground arith))
scopes_of (some (text s)) h = absurd (ground arith)
scopes_of (some (obj fs)) h = absurd (ground arith)
scopes_of (some null) h = absurd (ground arith)
scopes_of (some (bool b)) h = absurd (ground arith)
scopes_of (some (int n)) h = absurd (ground arith)
scopes_of (some (real r)) h = absurd (ground arith)
scopes_of (some (decimal d)) h = absurd (ground arith)

-- Claims that pass the verifier, and the claims that a route then grants.
check_claims-ok :
    (env : Env) (claims c : Fields)
    → check_claims env claims ≡ ok c
    → (claims ≡ c)
      × ((ms : List Json) × (role_set (get_field "roles" claims) ≡ ok ms) × (bad_roles ms ≡ false))
      × (bad_tenant env (get_field "tenant_id" claims) ≡ ok false)
      × (bad_scopes (get_field "resource_scopes" claims) ≡ false)
unfolding check_claims
check_claims-ok env claims c h =
    let (ms, read, h1) = bind-ok (role_set (get_field "roles" claims)) _ h in
    let (good, h2) = reject_if-ok (bad_roles ms) _ _ h1 in
    let (bad, judged, h3) = bind-ok (bad_tenant env (get_field "tenant_id" claims)) _ h2 in
    let (fine, h4) = reject_if-ok bad _ _ h3 in
    let (scoped, h5) = reject_if-ok _ _ _ h4 in
    (ok-injective h5, (ms, read, good), rw fine at judged, scoped)

check_roles-granted :
    (allowed : List String) (c claims : Fields) (ms : List Json)
    → check_roles allowed c (ok ms) ≡ granted claims
    → (c ≡ claims) × (any (is_allowed allowed) ms ≡ true)
check_roles-granted allowed c claims ms h = elim (Bool-cases (any (is_allowed allowed) ms)) [
  | inl found ↦ (ground (arith, rw (check_roles, found) at h), found)
  | inr lacking ↦ absurd (ground (arith, rw (check_roles, lacking) at h))
]

after_verify-ok :
    (allowed : List String) (r : Result Fields) (claims : Fields)
    → after_verify allowed r ≡ granted claims
    → (c : Fields) × (r ≡ ok c)
after_verify-ok allowed (ok c) claims h = (c, refl)
after_verify-ok allowed (err e) claims h = absurd (refused_by e h)
  where
    refused_by : (e : Failure) → after_verify allowed (err e) ≡ granted claims → ⊥
    refused_by (token_error m) h = ground arith
    refused_by (value_error m) h = ground arith
    refused_by (key_error m) h = ground arith
    refused_by type_error h = ground arith
    refused_by json_error h = ground arith
    refused_by invalid_operation h = ground arith
    refused_by (integrity_error m) h = ground arith
    refused_by multiple_results h = ground arith
    refused_by no_result h = ground arith
    refused_by (runtime_error m) h = ground arith
    refused_by (system_exit m) h = ground arith
    refused_by (http_exception n m) h = ground arith

module _ (env : Env) (decode : String → Option Fields) (allowed : List String) where
  granted_by :
      (token : String) (claims c d : Fields)
      → decode token ≡ some c
      → check_claims env c ≡ ok d
      → after_verify allowed (ok d) ≡ granted claims
      → IsGranted env decode allowed (some token) claims
  granted_by token claims c d decoded checked h =
      let (same, (ms, read, good), tenant_fine, scopes_fine) = check_claims-ok env c d checked in
      let h1 : check_roles allowed c (role_set (get_field "roles" c)) ≡ granted claims =
        rw same h in
      let (kept, found) = check_roles-granted allowed c claims ms (rw read at h1) in
      let (roles, claimed, known, permitted) = claimed_roles allowed _ ms read good found in
      let (tenant, of_tenant, some_tenant, short, plain) = tenant_of env _ tenant_fine in
      let (scope, scopes, scoped, texts) = scopes_of _ scopes_fine in
      subst (λ x. IsGranted env decode allowed (some token) x) kept
        (record {
          token = token;
          sent = refl;
          decoded = decoded;
          roles = roles;
          claimed = claimed;
          all_known = known;
          some_allowed = permitted;
          tenant = tenant;
          of_tenant = of_tenant;
          tenant_given = some_tenant;
          tenant_short = short;
          tenant_plain = plain;
          scope = scope;
          scopes = scopes;
          scoped = scoped;
          scope_texts = texts;
        })

  -- A request that passes carried a token that the decoder accepts; its roles are a list or the
  -- keys of a dict, all of them of the four known roles and one of them allowed by the route; its
  -- tenant is a text of 1 to 64 characters, alphanumeric but for `_` and `-`; and its scopes are a
  -- list of texts that is not empty.
  pub dependency-IsGranted :
      (credentials : Option String) (claims : Fields)
      → dependency (oidc_verify env decode) allowed credentials ≡ granted claims
      → IsGranted env decode allowed credentials claims
  unfolding dependency oidc_verify
  dependency-IsGranted none claims h = absurd (ground arith)
  dependency-IsGranted (some token) claims h = elim (Option-cases (decode token)) [
    | inl unknown ↦ absurd (ground (arith, rw (oidc_verify, unknown) at h))
    | inr (c, decoded) ↦
        let h1 : after_verify allowed (check_claims env c) ≡ granted claims =
          rw (oidc_verify, decoded) at h in
        let (d, checked) = after_verify-ok allowed (check_claims env c) claims h1 in
        granted_by token claims c d decoded checked (rw checked at h1)
  ]
