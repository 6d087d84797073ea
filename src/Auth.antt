-- ===== src/Auth.antt =====
-- src/flagship_lab/auth.py: the tokens that are issued, the checks on claims and the roles of a
-- route. The encoding and decoding of tokens (PyJWT) is a parameter: `encode`, and a decoder that
-- returns the claims of a token it accepts. Times are seconds.
pub mod Roles
pub mod Granted
use Prim.Native.Char.{code}
use flagship_lab.Prelude.Text.{count, starts_with}
use flagship_lab.Result.{
  Result, ok, err, value_error, Failure, reject_if, token_error, type_error, runtime_error,
}
use flagship_lab.Json.{Fields, Items, Json, text, arr, cons, nil, obj, field, end}
use flagship_lab.Json.Get.{get_field, falsy}
use flagship_lab.Prelude.{
  String, Option, all, List, Bool, any, ℕ, ◌∷◌, some, if◌then◌else◌, [], ◌==◌, ◌||◌, true, leb, not,
  none, ◌&&◌, false, ◌+◌, eqb, ◌*◌, suc, ltb,
}
use flagship_lab.Tx.{Env}
use flagship_lab.Core.{invalid_tenant}
use flagship_lab.RiskGraph.Investigate.{sorted_set}
use flagship_lab.Result.{◌>=>◌}
use flagship_lab.TaxRules.{mem_text}

abbrev pub valid_roles : List String
valid_roles = "viewer" ∷ "analyst" ∷ "reviewer" ∷ "admin" ∷ []

abbrev pub is_role : String → Bool
is_role r = mem_text r valid_roles

-- The payload of a token that the program issues.
pub record Claims : Type 0 where
  pub sub : String
  pub tenant_id : String
  pub roles : List String
  pub resource_scopes : List String
  pub iat : ℕ
  pub exp : ℕ
  pub aud : String
  pub iss : String

abbrev scope_ok : String → Bool
scope_ok s = leb 3 (count s) && leb (count s) 300

-- `resource_scopes if resource_scopes is not None else ["*:*:*"]`
abbrev chosen_scopes : Option (List String) → List String
chosen_scopes none = "*:*:*" ∷ []
chosen_scopes (some scopes) = scopes

abbrev is_nil : List String → Bool
is_nil [] = true
is_nil _ = false

-- `issue_token`, up to the encoding.
unfoldable pub issue_claims :
    Env → ℕ → String → List String → ℕ → String → Option (List String) → Result Claims
unfolding invalid_tenant sorted_set all
issue_claims env now subject roles ttl_minutes tenant_id resource_scopes =
    let scopes = chosen_scopes resource_scopes in
    if invalid_tenant env tenant_id
    then err (value_error "tenant_id must use 1-64 letters, digits, underscores or hyphens")
    else (if not (all is_role roles)
        then err (value_error "unknown roles")
        else (if is_nil scopes || not (all scope_ok scopes)
            then err (value_error "resource_scopes must contain valid scope strings")
            else ok (record {
              sub = subject;
              tenant_id = tenant_id;
              roles = sorted_set roles;
              resource_scopes = sorted_set scopes;
              iat = now;
              exp = now + 60 * ttl_minutes;
              aud = "flagship-lab";
              iss = "flagship-lab";
            })))

unfoldable pub issue_token :
    Env
    → (Claims → String → String)
    → ℕ
    → String
    → List String
    → String
    → ℕ
    → String
    → Option (List String)
    → Result String
unfolding issue_claims
issue_token env encode now subject roles secret ttl_minutes tenant_id resource_scopes =
    issue_claims env now subject roles ttl_minutes tenant_id resource_scopes >=> λ claims.
    ok (encode claims secret)

-- `issuer.rstrip("/")`
abbrev strip_slashes : String → String
strip_slashes String.[] = ""
strip_slashes (String.◌∷◌ c s) =
    let rest = strip_slashes s in if rest == "" && eqb (code c) b'/' then "" else String.◌∷◌ c rest

pub record OidcVerifier : Type 0 where
  pub issuer : String
  pub audience : String
  pub algorithms : List String

-- `OIDCJWKSTokenVerifier(...)`, but for the client of the key set.
unfoldable pub new_verifier : String → String → String → List String → Result OidcVerifier
new_verifier issuer audience jwks_url algorithms =
    if not (starts_with "https://" issuer)
      && not (issuer == "http://localhost" || issuer == "http://127.0.0.1")
    then err (value_error "OIDC issuer must use HTTPS")
    else (if audience == "" || jwks_url == ""
        then err (value_error "OIDC audience and JWKS URL are required")
        else ok (record {
          issuer = strip_slashes issuer;
          audience = audience;
          algorithms = algorithms;
        }))

-- What `set(...)` needs of a member.
abbrev pub hashable : Json → Bool
hashable (arr xs) = false
hashable (obj fs) = false
hashable _ = true

abbrev pub members_of : Items → Result (List Json)
members_of nil = ok []
members_of (cons v xs) =
    reject_if (not (hashable v)) type_error >=> λ _. members_of xs >=> λ rest. ok (v ∷ rest)

abbrev pub keys_of : Fields → List Json
keys_of end = []
keys_of (field k v fs) = text k ∷ keys_of fs

abbrev pub characters : String → List Json
characters String.[] = []
characters (String.◌∷◌ c s) = text (String.◌∷◌ c String.[]) ∷ characters s

-- `set(claims.get("roles", []))`: the members of a list, the keys of a dict, the characters of a
-- text. A member may stand twice.
unfoldable pub role_set : Option Json → Result (List Json)
role_set none = ok []
role_set (some (arr xs)) = members_of xs
role_set (some (obj fs)) = ok (keys_of fs)
role_set (some (text s)) = ok (characters s)
role_set (some _) = err type_error

abbrev pub is_known : Json → Bool
is_known (text s) = is_role s
is_known _ = false

abbrev no_members : List Json → Bool
no_members [] = true
no_members (_ ∷ _) = false

-- `unknown or not claims.get("roles")`
abbrev pub bad_roles : List Json → Bool
bad_roles roles = not (all is_known roles) || no_members roles

abbrev pub item_count : Items → ℕ
item_count nil = 0
item_count (cons v xs) = suc (item_count xs)

abbrev pub field_count : Fields → ℕ
field_count end = 0
field_count (field k v fs) = suc (field_count fs)

-- `len(tenant) > 64`, where a container that is not longer has no `replace`.
abbrev pub long_container : Json → Result Bool
long_container (arr xs) =
    if ltb 64 (item_count xs) then ok true else err (runtime_error "AttributeError")
long_container (obj fs) =
    if ltb 64 (field_count fs) then ok true else err (runtime_error "AttributeError")
long_container _ = err type_error

abbrev pub bad_tenant : Env → Option Json → Result Bool
bad_tenant env none = ok true
bad_tenant env (some (text t)) = ok (invalid_tenant env t)
bad_tenant env (some v) = if falsy v then ok true else long_container v

abbrev pub all_texts : Items → Bool
all_texts nil = true
all_texts (cons (text s) xs) = all_texts xs
all_texts (cons _ xs) = false

abbrev pub bad_scopes : Option Json → Bool
bad_scopes (some (arr (cons v xs))) = not (all_texts (cons v xs))
bad_scopes _ = true

-- `OIDCJWKSTokenVerifier.verify`, from the claims that the decoder returned.
unfoldable pub check_claims : Env → Fields → Result Fields
unfolding get_field invalid_tenant all role_set
check_claims env claims = role_set (get_field "roles" claims) >=> λ roles.
    reject_if (bad_roles roles) (token_error "token contains invalid roles") >=> λ _.
    bad_tenant env (get_field "tenant_id" claims) >=> λ bad.
    reject_if bad (token_error "token contains invalid tenant_id") >=> λ _.
    reject_if (bad_scopes (get_field "resource_scopes" claims))
      (token_error "token contains invalid resource_scopes")
    >=> λ _. ok claims

unfoldable pub oidc_verify : Env → (String → Option Fields) → String → Result Fields
unfolding check_claims
oidc_verify env decode token = elim (decode token) [
  | none ↦ err (token_error "invalid token")
  | some claims ↦ check_claims env claims
]

-- How a route answers: the claims, an HTTP status with its detail, or an exception that the
-- dependency does not catch.
pub data Access : Type 0 where
  granted : Fields → Access
  refused : ℕ → String → Access
  failed : Failure → Access

-- `require_verified_roles(verifier, *allowed)`: the check when a route is set up.
unfoldable pub roles_known : List String → Result (Unit {0})
unfolding all
roles_known allowed =
    if is_nil allowed || not (all is_role allowed)
    then err (value_error "require_roles must receive known roles")
    else ok tt

abbrev pub is_allowed : List String → Json → Bool
is_allowed allowed (text s) = mem_text s allowed
is_allowed allowed _ = false

-- `if not (set(claims.get("roles", [])) & allowed_set): ...`
abbrev pub check_roles : List String → Fields → Result (List Json) → Access
check_roles allowed claims (err e) = failed e
check_roles allowed claims (ok roles) =
    if any (is_allowed allowed) roles then granted claims else refused 403 "insufficient role"

abbrev pub after_verify : List String → Result Fields → Access
after_verify allowed (err (token_error _)) = refused 401 "invalid or expired token"
after_verify allowed (err e) = failed e
after_verify allowed (ok claims) = check_roles allowed claims (role_set (get_field "roles" claims))

-- The dependency of a route: `verify` is the verifier's method.
unfoldable pub dependency : (String → Result Fields) → List String → Option String → Access
unfolding get_field any role_set
dependency verify allowed none = refused 401 "missing bearer token"
dependency verify allowed (some token) = after_verify allowed (verify token)
