-- ===== src/Api/Tax.antt =====
-- src/flagship_lab/fastapi_app.py: the handlers of tax data, runs and evidence, and of tokens. The
-- claims are those that the dependency of the route has let through.
use flagship_lab.Core.{connect}
use flagship_lab.Api.Requests.{
  tax_findings, managed_evidence, Body, TokenRequest, access_token, evidence_file, ingested,
  run_result, reviewed,
}
use flagship_lab.Evidence.{export_tax_run}
use flagship_lab.Result.{Result, ok, err, type_error, ◌>=>◌, http_exception}
use flagship_lab.Json.{Json, Fields, obj}
use flagship_lab.Tx.{Env, Tx, pure, ◌>>◌, ◌>>=◌, raise_if, lift}
use flagship_lab.Evidence.Service.{preserve_tax_run, read_evidence, EvidenceService}
use flagship_lab.Schema.{TaxRunWorkflow}
use flagship_lab.Api.{claim, Context, App, authorize, on_value_error}
use flagship_lab.Taxflow.{ingest, post_init, TaxFlowService, TaxTransaction}
use flagship_lab.Auth.{issue_token}
use flagship_lab.Taxflow.Review.{workflow, review_run, request_review}
use flagship_lab.Taxflow.Runs.{run_rules, findings}
use flagship_lab.Prelude.{String, Option, none, some, List, Bool, true, not, ◌==◌, ◌∷◌, []}

unfoldable pub dev_token : Context → App → TokenRequest → Tx Body
unfolding issue_token
dev_token ctx app r = do
  raise_if (not app.settings.allow_dev_tokens)
      (http_exception 404 "development token endpoint disabled")
  token ← lift (
      issue_token ctx.env ctx.encode ctx.now r.subject r.roles app.settings.jwt_secret r.ttl_minutes
        r.tenant_id (some r.resource_scopes))
  pure (access_token token)

-- `[TaxTransaction(**item.model_dump()) for item in items]`
unfoldable pub post_init_all : List TaxTransaction → Result (List TaxTransaction)
unfolding post_init
post_init_all [] = ok []
post_init_all (t ∷ ts) = post_init t >=> λ row. post_init_all ts >=> λ rows. ok (row ∷ rows)

unfoldable pub ingest_tax : Context → List TaxTransaction → Option String → Fields → Tx Body
unfolding post_init_all ingest claim
ingest_tax ctx items key claims = do
  authorize claims "tax_data" "transactions" "write"
  tenant ← lift (claim "tenant_id" claims)
  number ← on_value_error ctx 409 (do
    rows ← lift (post_init_all items)
    ingest ctx.env (record { tenant_id = tenant }) rows key)
  actor ← lift (claim "sub" claims)
  pure (ingested number actor)

abbrev pub as_dict : Json → Result Fields
as_dict (obj fs) = ok fs
as_dict _ = err type_error

-- `workflow or tax.request_review(run_id, actor)`
abbrev pub workflow_or :
    Env → TaxFlowService → String → String → Option TaxRunWorkflow → Tx TaxRunWorkflow
workflow_or env tax run_id actor (some w) = pure w
workflow_or env tax run_id actor none = request_review env tax run_id actor

unfoldable pub run_tax : Context → Option String → Option Fields → Option String → Fields → Tx Body
unfolding run_rules workflow claim
run_tax ctx version pack key claims = do
  authorize claims "tax_run" "new" "create"
  tenant ← lift (claim "tenant_id" claims)
  let tax : TaxFlowService = record { tenant_id = tenant }
  answer ← on_value_error ctx 409 (run_rules ctx.env tax version pack key)
  result ← lift (as_dict answer)
  actor ← lift (claim "sub" claims)
  run_id ← lift (claim "run_id" result)
  found ← workflow ctx.env tax run_id
  review ← workflow_or ctx.env tax run_id actor found
  pure (run_result result actor review)

unfoldable pub review_tax_run : Context → String → String → String → Fields → Tx Body
unfolding review_run claim
review_tax_run ctx run_id decision comment claims = do
  authorize claims "tax_run" run_id "review"
  tenant ← lift (claim "tenant_id" claims)
  decided ← on_value_error ctx 400 (do
    reviewer ← lift (claim "sub" claims)
    review_run ctx.env (record { tenant_id = tenant }) run_id reviewer decision comment)
  pure (reviewed decided)

unfoldable pub findings_of_run : Context → String → Fields → Tx Body
unfolding findings claim
findings_of_run ctx run_id claims = do
  authorize claims "tax_run" run_id "read"
  tenant ← lift (claim "tenant_id" claims)
  rows ← findings ctx.env (record { tenant_id = tenant }) run_id
  pure (tax_findings rows)

-- `workflow is None or workflow["status"] != "APPROVED"`
abbrev pub not_approved : Option TaxRunWorkflow → Bool
not_approved none = true
not_approved (some w) = not (w.status == "APPROVED")

-- The package of an approved run: preserved and read back, or exported.
unfoldable pub deliver : Context → App → String → String → Option EvidenceService → Tx Body
unfolding preserve_tax_run read_evidence export_tax_run
deliver ctx app tenant run_id (some service) = do
  stored ← preserve_tax_run ctx.env ctx.lib service tenant run_id
  content ← read_evidence service stored
  pure (managed_evidence content stored)
deliver ctx app tenant run_id none = do
  written ← connect ctx.env (some tenant) (
      export_tax_run ctx.env ctx.lib run_id
        (record {
          signing_secret = some app.signing_secret;
          key_id = "flagship-api-signing-v1";
          signing_private_key_pem = app.settings.evidence_signing_private_key_pem;
        })
        tenant)
  pure (evidence_file written.0)

-- The `try` of the handler.
unfoldable pub approved_evidence : Context → App → String → String → Tx Body
unfolding workflow deliver
approved_evidence ctx app tenant run_id = do
  found ← workflow ctx.env (record { tenant_id = tenant }) run_id
  raise_if (not_approved found) (http_exception 409 "tax run requires independent approval")
  deliver ctx app tenant run_id app.managed_evidence

unfoldable pub tax_evidence : Context → App → String → Fields → Tx Body
unfolding approved_evidence claim
tax_evidence ctx app run_id claims = do
  authorize claims "tax_run" run_id "evidence"
  tenant ← lift (claim "tenant_id" claims)
  on_value_error ctx 404 (approved_evidence ctx app tenant run_id)
