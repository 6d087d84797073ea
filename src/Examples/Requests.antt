-- ===== src/Examples/Requests.antt =====
-- The theorems on the routes, at an application with one token.
use flagship_lab.Api.Unhandled.{serve_bad_time}
use flagship_lab.Authorization.{authorize_resource}
use flagship_lab.Auth.{dependency, granted}
use flagship_lab.ControlPulse.{ControlEvent}
use flagship_lab.Api.Routes.{handle, serve, failed}
use flagship_lab.Api.Approved.{IsApproved, tax_evidence-IsApproved}
use flagship_lab.Api.Tax.{tax_evidence}
use flagship_lab.Examples.Archives.{sample_lib, write_entries, acme_files, approved_world}
use flagship_lab.Tx.{World}
use flagship_lab.Examples.{sample_env}
use flagship_lab.Api.Requests.{Body, evidence_file, get_audit, post_control_event}
use flagship_lab.Json.{Fields, field, text, arr, cons, nil, end}
use flagship_lab.Result.{Result, ok, err, value_error}
use flagship_lab.Api.Guarded.{IsPermitted, IsRefused, handle-IsPermitted}
use flagship_lab.Api.{Context, App, claim, Settings, can_analyze}
use flagship_lab.Prelude.{
  String, none, some, ◌≡◌, false, if◌then◌else◌, ◌⊎◌, ◌==◌, refl, [], ◌++◌, true, ◌∷◌,
}

abbrev reviewer_claims : Fields
reviewer_claims = field "tenant_id" (text "acme") (
    field "sub" (text "bob") (
      field "roles" (arr (cons (text "reviewer") nil))
        (field "resource_scopes" (arr (cons (text "tax_run:*:*") nil)) end)))

abbrev sample_context : Context
sample_context = record {
  env = sample_env;
  lib = sample_lib;
  encode = λ claims secret. "token";
  now = 0;
  hybrid_search = λ query k. [];
  str_exc = λ e. "";
}

abbrev sample_settings : Settings
sample_settings = record {
  jwt_secret = "0123456789abcdef0123456789abcdef";
  allow_dev_tokens = false;
  evidence_signing_secret = none;
  token_verifier =
      some (λ t. if t == "t-1" then ok reviewer_claims else err (value_error "invalid token"));
  evidence_signing_private_key_pem = none;
  object_store = none;
  evidence_signer = none;
  evidence_retention_days = 2555;
}

abbrev sample_app : App
sample_app = record {
  settings = sample_settings;
  signing_secret = "0123456789abcdef0123456789abcdef";
  verify = λ t. if t == "t-1" then ok reviewer_claims else err (value_error "invalid token");
  managed_evidence = none;
}

handle-IsPermitted_example :
    IsPermitted sample_app (some "t-1") get_audit
    ⊎ IsRefused
        (handle sample_context sample_app (λ n k d. true) (some "t-1") get_audit)
        approved_world
handle-IsPermitted_example =
    handle-IsPermitted sample_context sample_app (λ n k d. true) (some "t-1") get_audit
      approved_world

abbrev delivered : Result Body × World
delivered = tax_evidence sample_context sample_app "r1" reviewer_claims approved_world

abbrev delivered_body : Body
delivered_body = evidence_file (write_entries (acme_files ++ ("manifest.json", "{}") ∷ []))

package_delivered : delivered.0 ≡ ok delivered_body
unfolding tax_evidence flagship_lab.Authorization.authorize_resource flagship_lab.Core.connect
    flagship_lab.Prelude.select flagship_lab.Evidence.export_signature
package_delivered = refl

tax_evidence-IsApproved_example :
    (tenant : String) × (claim "tenant_id" reviewer_claims ≡ ok tenant)
    × IsApproved tenant "r1" approved_world.store
tax_evidence-IsApproved_example =
    tax_evidence-IsApproved sample_context sample_app "r1" reviewer_claims approved_world
      delivered_body package_delivered

abbrev writer_claims : Fields
writer_claims = field "tenant_id" (text "acme") (
    field "sub" (text "ann") (
      field "roles" (arr (cons (text "analyst") nil))
        (field "resource_scopes" (arr (cons (text "control_event:*:write") nil)) end)))

abbrev writer_app : App
writer_app = record sample_app { verify = λ t. ok writer_claims }

abbrev timeless_context : Context
timeless_context = record sample_context { env = record sample_env { iso_hour = λ s. none } }

abbrev timeless_event : ControlEvent
timeless_event = record {
  event_id = "ev-1";
  event_type = "DEPLOYMENT";
  actor = "ann";
  resource = "api";
  occurred_at = "yesterday";
  approved = false;
  privileged = false;
  outcome = "SUCCESS";
  payload = end;
}

writer_passes : dependency writer_app.verify can_analyze (some "t-1") ≡ granted writer_claims
unfolding dependency
writer_passes = refl

writer_allowed :
    authorize_resource writer_claims "control_event" "ev-1" "write" ≡ granted writer_claims
unfolding authorize_resource
writer_allowed = refl

writer_named : claim "tenant_id" writer_claims ≡ ok "acme"
unfolding claim
writer_named = refl

serve_bad_time_example :
    serve timeless_context writer_app
      (λ n k d. true)
      (some "t-1")
      (post_control_event timeless_event)
      approved_world
    ≡ (failed 500 "Internal Server Error", approved_world)
serve_bad_time_example =
    serve_bad_time timeless_context writer_app (λ n k d. true) (some "t-1") timeless_event
      writer_claims "acme" approved_world writer_passes writer_allowed writer_named refl
