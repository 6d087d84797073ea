-- ===== src/Taxflow/Review.antt =====
-- src/flagship_lab/taxflow.py, `request_review`, `review_run` and `workflow`: the review of a run.
pub mod Decision
pub mod Outcome
use flagship_lab.Json.{obj, field, text, end, Json}
use flagship_lab.Prelude.Text.{is_blank}
use flagship_lab.Result.{value_error, integrity_error}
use flagship_lab.Schema.{Store, TaxRunWorkflow, TaxRuleRun}
use flagship_lab.Tx.{
  Env, Tx, raise, raise_if, gets, pure, one_or_none, lift, modify, one, ◌>>◌, ◌>>=◌,
}
use flagship_lab.Prelude.{
  String, Option, Bool, if◌then◌else◌, List, ℕ, some, select, false, true, none, ◌+◌, ◌==◌, ◌∷◌,
  ◌&&◌, not, length, ◌||◌, eqb, [], ◌++◌, update,
}
use flagship_lab.Taxflow.{TaxFlowService}
use flagship_lab.Core.{connect, utc_now, append_audit_event}

abbrev pub is_run : String → String → TaxRuleRun → Bool
is_run tenant run_id r = r.run_id == run_id && r.tenant_id == tenant

abbrev pub is_workflow : String → String → TaxRunWorkflow → Bool
is_workflow tenant run_id r = r.run_id == run_id && r.tenant_id == tenant

unfoldable pub workflows_of : String → String → Store → List TaxRunWorkflow
workflows_of tenant run_id s = select (is_workflow tenant run_id) s.tax_run_workflow

abbrev pub requested : String → String → String → TaxRunWorkflow
requested tenant run_id requested_by = record {
  run_id = run_id;
  tenant_id = tenant;
  requested_by = requested_by;
  status = "PENDING_REVIEW";
  version = 1;
  reviewed_by = none;
  reviewed_at = none;
  decision_comment = none;
}

-- The primary key of the workflow is the run alone.
abbrev run_taken : String → List TaxRunWorkflow → Bool
run_taken run_id [] = false
run_taken run_id (r ∷ rs) = r.run_id == run_id || run_taken run_id rs

abbrev pub insert_request : Env → String → String → String → Option TaxRunWorkflow → Tx (Unit {0})
insert_request env tenant run_id requested_by (some _) = pure tt
insert_request env tenant run_id requested_by none = do
  taken ← gets (λ s. run_taken run_id s.tax_run_workflow)
  raise_if taken (integrity_error "tax_run_workflow.run_id")
  modify (λ s. record s {
    tax_run_workflow = s.tax_run_workflow ++ requested tenant run_id requested_by ∷ [];
  })
  append_audit_event env "taxflow" "REVIEW_REQUESTED" run_id
      (obj (field "requested_by" (text requested_by) end)) tenant
  pure tt

abbrev is_none {ℓ} : {A : Type ℓ} → Option A → Bool
is_none none = true
is_none (some _) = false

abbrev pub request_body : Env → String → String → String → Tx TaxRunWorkflow
request_body env tenant run_id requested_by = do
  runs ← gets (λ s. one_or_none (select (is_run tenant run_id) s.tax_rule_runs))
  exists ← lift runs
  raise_if (is_none exists) (value_error "unknown run_id")
  found ← gets (λ s. one_or_none (workflows_of tenant run_id s))
  current ← lift found
  insert_request env tenant run_id requested_by current
  final ← gets (λ s. one (workflows_of tenant run_id s))
  lift final

unfoldable pub request_review : Env → TaxFlowService → String → String → Tx TaxRunWorkflow
unfolding workflows_of
request_review env service run_id requested_by = do
  raise_if (is_blank requested_by) (value_error "requested_by is required")
  connect env (some service.tenant_id) (request_body env service.tenant_id run_id requested_by)

-- The rows that the decision may touch: still pending, at the version that was read.
abbrev pub still_pending : String → String → ℕ → TaxRunWorkflow → Bool
still_pending tenant run_id version r =
    r.run_id == run_id
    && r.tenant_id == tenant
    && r.status == "PENDING_REVIEW"
    && eqb r.version version

abbrev pub decided : String → ℕ → String → String → String → TaxRunWorkflow → TaxRunWorkflow
decided status version reviewer now comment r = record r {
  status = status;
  version = version + 1;
  reviewed_by = some reviewer;
  reviewed_at = some now;
  decision_comment = some comment;
}

abbrev pub decision_json : String → String → String → Json
decision_json status reviewer comment = obj (
    field "status" (text status)
      (field "reviewed_by" (text reviewer) (field "comment" (text comment) end)))

-- From the audit event to the end of the method.
abbrev pub log_decision : Env → String → String → String → String → String → Tx TaxRunWorkflow
log_decision env tenant run_id reviewer status comment = do
  append_audit_event env "taxflow" "REVIEW_DECIDED" run_id (decision_json status reviewer comment)
      tenant
  final ← gets (λ s. one (workflows_of tenant run_id s))
  lift final

-- From the update to the end of the method.
unfoldable pub write_decision :
    Env → String → String → String → String → String → ℕ → Tx TaxRunWorkflow
unfolding workflows_of utc_now
write_decision env tenant run_id reviewer status comment version = do
  now ← utc_now env
  touched ← gets (λ s. length (select (still_pending tenant run_id version) s.tax_run_workflow))
  modify (λ s. record s {
    tax_run_workflow =
        update (still_pending tenant run_id version) (decided status version reviewer now comment)
          s.tax_run_workflow;
  })
  raise_if (not (eqb touched 1)) (value_error "concurrent review conflict")
  log_decision env tenant run_id reviewer status comment

abbrev pub status_of : String → String
status_of normalized = if normalized == "APPROVE" then "APPROVED" else "REJECTED"

-- The guards between the read and the update.
abbrev pub judge :
    Env → String → String → String → String → String → Option TaxRunWorkflow → Tx TaxRunWorkflow
judge env tenant run_id reviewer normalized comment none =
    raise (value_error "review was not requested")
judge env tenant run_id reviewer normalized comment (some row) = do
  raise_if (not (row.status == "PENDING_REVIEW")) (value_error "review is already final")
  raise_if (row.requested_by == reviewer)
      (value_error "four-eyes control requires an independent reviewer")
  write_decision env tenant run_id reviewer (status_of normalized) comment row.version

abbrev pub review_body : Env → String → String → String → String → String → Tx TaxRunWorkflow
review_body env tenant run_id reviewer normalized comment = do
  found ← gets (λ s. one_or_none (workflows_of tenant run_id s))
  row ← lift found
  judge env tenant run_id reviewer normalized comment row

unfoldable pub review_run :
    Env → TaxFlowService → String → String → String → String → Tx TaxRunWorkflow
unfolding workflows_of
review_run env service run_id reviewer decision comment = do
  let normalized = env.upper decision
  raise_if (not (normalized == "APPROVE" || normalized == "REJECT"))
      (value_error "decision must be APPROVE or REJECT")
  raise_if (is_blank comment) (value_error "review comment is required")
  connect env (some service.tenant_id)
      (review_body env service.tenant_id run_id reviewer normalized comment)

unfoldable pub workflow : Env → TaxFlowService → String → Tx (Option TaxRunWorkflow)
unfolding workflows_of
workflow env service run_id =
    connect env (some service.tenant_id)
      (do found ← gets (λ s. one_or_none (workflows_of service.tenant_id run_id s)); lift found)
