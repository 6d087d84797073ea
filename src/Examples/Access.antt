-- ===== src/Examples/Access.antt =====
-- The theorems on tokens and scopes, at one token.
use flagship_lab.Json.{Fields, field, text, arr, cons, nil, end}
use flagship_lab.Prelude.{String, ◌≡◌, ◌∷◌, [], true, Option, some, if◌then◌else◌, refl, ◌==◌, none}
use flagship_lab.Examples.{sample_env}
use flagship_lab.Auth.{dependency, oidc_verify, granted}
use flagship_lab.Auth.Granted.{IsGranted, dependency-IsGranted}
use flagship_lab.Authorization.{authorize_resource}
use flagship_lab.Authorization.Wildcard.{is_plain, claims_of, authorize_resource-star}

abbrev analyst : Fields
analyst = field "tenant_id" (text "acme") (
    field "roles" (arr (cons (text "analyst") nil))
      (field "resource_scopes" (arr (cons (text "tax_run:*:read") nil)) end))

abbrev known_token : String → Option Fields
known_token t = if t == "t-1" then some analyst else none

analyst_passes :
    dependency (oidc_verify sample_env known_token) ("analyst" ∷ []) (some "t-1") ≡ granted analyst
unfolding dependency oidc_verify
analyst_passes = refl

dependency-IsGranted_example :
    IsGranted sample_env known_token ("analyst" ∷ []) (some "t-1") analyst
dependency-IsGranted_example =
    dependency-IsGranted sample_env known_token ("analyst" ∷ []) (some "t-1") analyst analyst_passes

tax_run_plain : is_plain "tax_run" ≡ true
unfolding is_plain
tax_run_plain = refl

authorize_resource-star_example :
    authorize_resource (claims_of "tax_run") "tax_run" "run-1" "delete"
    ≡ granted (claims_of "tax_run")
authorize_resource-star_example = authorize_resource-star "tax_run" "run-1" "delete" tax_run_plain
