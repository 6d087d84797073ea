-- ===== src/Api.antt =====
-- src/flagship_lab/fastapi_app.py: the HTTP application. `create_app` checks its settings; the
-- bodies of requests are in Requests, the handlers in Tax and Domain, the routes in
-- Routes. FastAPI, pydantic and PyJWT are parameters, and so are the middleware's headers, its
-- metrics and its log, which do not touch the database.
pub mod Requests
pub mod Tax
pub mod Domain
pub mod Routes
pub mod Guarded
pub mod Approved
pub mod Unhandled
use flagship_lab.Prelude.Text.{count}
use flagship_lab.RegIntel.{Hit}
use flagship_lab.Authorization.{authorize_resource}
use flagship_lab.Signing.{Library, EvidenceSigner}
use flagship_lab.ObjectStore.Adapters.{ObjectStore}
use flagship_lab.Auth.{Access, Claims, granted, dependency, refused, failed}
use flagship_lab.Tx.{Env, World, Tx, ◌>>=◌, pure, ◌>>◌, raise_if, raise}
use flagship_lab.Evidence.Service.{new_evidence_service, EvidenceService}
use flagship_lab.Json.{Fields, text}
use flagship_lab.TaxRules.{item}
use flagship_lab.Result.{
  Failure, Result, ◌>=>◌, value_error, reject_if, ok, err, http_exception, json_error, type_error,
}
use flagship_lab.Prelude.{
  String, Option, none, some, ℕ, List, if◌then◌else◌, Bool, ◌∷◌, ◌==◌, [], ltb, true, false, not,
}

pub record Settings : Type 0 where
  pub jwt_secret : String
  pub allow_dev_tokens : Bool
  pub evidence_signing_secret : Option String
  pub token_verifier : Option (String → Result Fields)
  pub evidence_signing_private_key_pem : Option String
  pub object_store : Option ObjectStore
  pub evidence_signer : Option EvidenceSigner
  pub evidence_retention_days : ℕ

pub record App : Type 0 where
  pub settings : Settings
  pub signing_secret : String
  pub verify : String → Result Fields
  pub managed_evidence : Option EvidenceService

-- What the handlers call: the environment, the libraries of evidence, the encoding of tokens at a
-- time, the ranking of a search, and `str(exc)`.
pub record Context : Type 0 where
  pub env : Env
  pub lib : Library
  pub encode : Claims → String → String
  pub now : ℕ
  pub hybrid_search : String → ℕ → List Hit
  pub str_exc : Failure → String

-- `evidence_signing_secret or jwt_secret`
abbrev pub secret_or : Option String → String → String
secret_or none other = other
secret_or (some s) other = if s == "" then other else s

abbrev pub verifier_or :
    Option (String → Result Fields) → (String → Result Fields) → String → Result Fields
verifier_or none other = other
verifier_or (some v) other = v

unfoldable pub managed_service :
    Option ObjectStore → Option EvidenceSigner → ℕ → Result (Option EvidenceService)
unfolding new_evidence_service
managed_service none none days = ok none
managed_service (some store) (some signer) days =
    new_evidence_service store signer days >=> λ service. ok (some service)
managed_service _ _ days =
    err (value_error "object_store and evidence_signer must be configured together")

-- `create_app`, but for the set-up of the database; `hmac_verifier` makes a verifier of a secret.
unfoldable pub create_app : (String → String → Result Fields) → Settings → Result App
unfolding managed_service
create_app hmac_verifier settings =
    let signing_secret = secret_or settings.evidence_signing_secret settings.jwt_secret in
    reject_if (ltb (count settings.jwt_secret) 32)
      (value_error "jwt_secret must contain at least 32 characters")
    >=> λ _.
        reject_if (ltb (count signing_secret) 32)
          (value_error "evidence_signing_secret must contain at least 32 characters")
        >=> λ _.
            managed_service settings.object_store settings.evidence_signer
              settings.evidence_retention_days
            >=> λ managed. ok (record {
              settings = settings;
              signing_secret = signing_secret;
              verify = verifier_or settings.token_verifier (hmac_verifier settings.jwt_secret);
              managed_evidence = managed;
            })

-- `isinstance(exc, ValueError)`
abbrev pub is_value_error : Failure → Bool
is_value_error (value_error _) = true
is_value_error json_error = true
is_value_error _ = false

abbrev pub as_http {ℓ} : {A : Type ℓ} → Context → ℕ → Result A × World → Result A × World
as_http ctx status (ok a, w) = (ok a, w)
as_http ctx status (err e, w) =
    if is_value_error e then (err (http_exception status (ctx.str_exc e)), w) else (err e, w)

-- `try: body except ValueError as exc: raise HTTPException(status, str(exc))`
abbrev pub on_value_error {ℓ} : {A : Type ℓ} → Context → ℕ → Tx A → Tx A
on_value_error ctx status body w = as_http ctx status (body w)

abbrev pub admit : Access → Tx Fields
admit (granted claims) = pure claims
admit (refused status detail) = raise (http_exception status detail)
admit (failed e) = raise e

-- `Depends(require_verified_roles(verifier, *roles))`, then the validation of the body.
abbrev pub depends : App → List String → Option String → Bool → Tx Fields
depends app roles bearer valid = do
  claims ← admit (dependency app.verify roles bearer)
  raise_if (not valid) (http_exception 422 "validation error")
  pure claims

-- `authorize_resource(claims, ...)`
abbrev pub authorize : Fields → String → String → String → Tx Fields
authorize claims resource_type resource_id action =
    admit (authorize_resource claims resource_type resource_id action)

-- `claims[key]`, a text.
unfoldable pub claim : String → Fields → Result String
unfolding item
claim key claims = item key claims >=> λ value. elim value [ text s ↦ ok s | _ ↦ err type_error ]

abbrev pub can_view : List String
can_view = "viewer" ∷ "analyst" ∷ "reviewer" ∷ "admin" ∷ []

abbrev pub can_analyze : List String
can_analyze = "analyst" ∷ "admin" ∷ []

abbrev pub can_review : List String
can_review = "reviewer" ∷ "admin" ∷ []

abbrev pub admin_only : List String
admin_only = "admin" ∷ []
