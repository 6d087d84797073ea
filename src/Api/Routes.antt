-- ===== src/Api/Routes.antt =====
-- src/flagship_lab/fastapi_app.py: the routes, and the statuses of their answers.
use flagship_lab.Api.Domain.{
  add_reg_document, answer_reg, add_control_event, control_cases_open, transition_control_case,
  control_case_history, add_graph_entities, add_graph_edges, investigate_graph, audit_verify,
  config_check,
}
use flagship_lab.Decimal.{Decimal}
use flagship_lab.Tx.{Tx, World, pure, ◌>>◌, raise_if, ◌>>=◌}
use flagship_lab.Result.{Result, ok, err, http_exception}
use flagship_lab.Api.{Context, App, depends, can_analyze, can_review, can_view, admin_only}
use flagship_lab.Core.Health.{database_health}
use flagship_lab.Api.Tax.{
  dev_token, ingest_tax, run_tax, review_tax_run, findings_of_run, tax_evidence,
}
use flagship_lab.Api.Requests.{
  valid_review, Request, post_transactions, Body, post_run, ready, post_document,
  post_control_event, post_entities, post_edges, valid_token_request, valid_transaction,
  valid_review, valid_transition, alive, healthy, post_dev_token, post_review, get_tax_findings,
  get_evidence, post_answer, post_transition, get_history, get_live, get_ready, get_health,
  get_cases, get_graph_findings, get_audit, get_config,
}
use flagship_lab.Prelude.{String, Option, ℕ, Bool, all, not, true, ◌==◌}

abbrev pub unavailable : Result String × World → Result Body × World
unavailable (ok dialect, w) = (ok (ready dialect), w)
unavailable (err _, w) = (err (http_exception 503 "not_ready"), w)

unfoldable pub readiness : Context → Tx Body
unfolding database_health
readiness ctx w = unavailable (database_health ctx.env w)

-- Every route: its dependency, then its handler. The tables of a request are those of the tenant
-- that the claims name.
unfoldable pub handle : Context → App → (ℕ → ℕ → Decimal → Bool) → Option String → Request → Tx Body
unfolding dev_token ingest_tax run_tax review_tax_run findings_of_run tax_evidence add_reg_document
    answer_reg add_control_event control_cases_open transition_control_case control_case_history
    add_graph_entities add_graph_edges investigate_graph audit_verify config_check readiness
    valid_token_request valid_transaction valid_review valid_transition all
handle ctx app fits bearer get_live = pure alive
handle ctx app fits bearer get_ready = readiness ctx
handle ctx app fits bearer get_health = pure healthy
handle ctx app fits bearer (post_dev_token r) = do
  raise_if (not (valid_token_request r)) (http_exception 422 "validation error")
  dev_token ctx app r
handle ctx app fits bearer (post_transactions items key) =
    depends app can_analyze bearer (all (valid_transaction fits) items) >>= ingest_tax ctx items key
handle ctx app fits bearer (post_run version pack key) =
    depends app can_analyze bearer true >>= run_tax ctx version pack key
handle ctx app fits bearer (post_review run_id decision comment) =
    depends app can_review bearer (valid_review decision comment)
    >>= review_tax_run ctx run_id decision comment
handle ctx app fits bearer (get_tax_findings run_id) =
    depends app can_view bearer true >>= findings_of_run ctx run_id
handle ctx app fits bearer (get_evidence run_id) =
    depends app can_review bearer true >>= tax_evidence ctx app run_id
handle ctx app fits bearer (post_document d) =
    depends app can_analyze bearer (not (d.content == "")) >>= add_reg_document ctx d
handle ctx app fits bearer (post_answer query) =
    depends app can_view bearer (not (query == "")) >>= answer_reg ctx query
handle ctx app fits bearer (post_control_event e) =
    depends app can_analyze bearer true >>= add_control_event ctx e
handle ctx app fits bearer get_cases = depends app can_review bearer true >>= control_cases_open ctx
handle ctx app fits bearer (post_transition case_id to_status reason) =
    depends app can_review bearer (valid_transition to_status reason)
    >>= transition_control_case ctx case_id to_status reason
handle ctx app fits bearer (get_history case_id) =
    depends app can_review bearer true >>= control_case_history ctx case_id
handle ctx app fits bearer (post_entities items) =
    depends app can_analyze bearer true >>= add_graph_entities ctx items
handle ctx app fits bearer (post_edges items) =
    depends app can_analyze bearer true >>= add_graph_edges ctx items
handle ctx app fits bearer get_graph_findings =
    depends app can_view bearer true >>= investigate_graph ctx
handle ctx app fits bearer get_audit = depends app can_review bearer true >>= audit_verify ctx
handle ctx app fits bearer get_config = depends app admin_only bearer true >>= config_check app

pub data Response : Type 0 where
  answer : ℕ → Body → Response
  failed : ℕ → String → Response

-- The `status_code` of a route.
abbrev pub success_status : Request → ℕ
success_status (post_transactions _ _) = 201
success_status (post_run _ _ _) = 201
success_status (post_document _) = 201
success_status (post_control_event _) = 201
success_status (post_entities _) = 201
success_status (post_edges _) = 201
success_status _ = 200

-- An HTTPException is answered as it says, and any other exception with 500.
abbrev pub respond : Request → Result Body × World → Response × World
respond request (ok body, w) = (answer (success_status request) body, w)
respond request (err (http_exception status detail), w) = (failed status detail, w)
respond request (err _, w) = (failed 500 "Internal Server Error", w)

unfoldable pub serve :
    Context → App → (ℕ → ℕ → Decimal → Bool) → Option String → Request → World → Response × World
unfolding handle
serve ctx app fits bearer request w = respond request (handle ctx app fits bearer request w)
