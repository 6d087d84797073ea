-- ===== src/Api/Guarded.antt =====
-- src/flagship_lab/fastapi_app.py: every route but the public ones acts only for claims that the
-- verifier returned, that have a role of the route and a scope for what is asked.
use flagship_lab.Tx.Bind.{Result-cases}
use flagship_lab.Decimal.{Decimal}
use flagship_lab.Api.Domain.{
  add_reg_document, answer_reg, add_control_event, control_cases_open, transition_control_case,
  control_case_history, add_graph_entities, add_graph_edges, investigate_graph, audit_verify,
  config_check,
}
use flagship_lab.Api.Tax.{ingest_tax, run_tax, review_tax_run, findings_of_run, tax_evidence}
use flagship_lab.Api.Routes.{handle}
use flagship_lab.Prelude.Text.{str_nat}
use flagship_lab.Result.{Failure, err, ok, http_exception}
use flagship_lab.Auth.{dependency, granted, refused, Access, failed}
use flagship_lab.Authorization.{authorize_resource, required_scope}
use flagship_lab.Tx.{Tx, World, ◌>>=◌, ◌>>◌}
use flagship_lab.Api.{
  App, depends, authorize, can_view, can_analyze, admin_only, can_review, claim, Context, admit,
}
use flagship_lab.Json.{Fields}
use flagship_lab.Api.Requests.{
  Request, Body, post_transactions, post_run, post_dev_token, get_tax_findings, post_review,
  get_evidence, post_answer, post_document, post_control_event, post_transition, post_entities,
  post_edges, get_history, get_live, get_cases, get_ready, get_health, get_graph_findings,
  get_config, get_audit, valid_transaction, valid_review, valid_transition,
}
use flagship_lab.Prelude.{
  String, Option, none, some, ◌≡◌, List, Bool, ◌⊎◌, inr, inl, if◌then◌else◌, ℕ, true, false, refl,
  Bool-cases, all, not, ◌==◌,
}

-- The roles of a route; `none` is a public route.
abbrev pub roles_of : Request → Option (List String)
roles_of get_live = none
roles_of get_ready = none
roles_of get_health = none
roles_of (post_dev_token _) = none
roles_of (get_tax_findings _) = some can_view
roles_of (post_answer _) = some can_view
roles_of get_graph_findings = some can_view
roles_of (post_transactions _ _) = some can_analyze
roles_of (post_run _ _ _) = some can_analyze
roles_of (post_document _) = some can_analyze
roles_of (post_control_event _) = some can_analyze
roles_of (post_entities _) = some can_analyze
roles_of (post_edges _) = some can_analyze
roles_of get_config = some admin_only
roles_of _ = some can_review

abbrev Grants : Fields → String → String → String → Type 0
Grants claims kind id action = authorize_resource claims kind id action ≡ granted claims

-- The scope that a request needs.
abbrev pub Permits : Fields → Request → Type 0
Permits c (post_transactions _ _) = Grants c "tax_data" "transactions" "write"
Permits c (post_run _ _ _) = Grants c "tax_run" "new" "create"
Permits c (post_review run_id _ _) = Grants c "tax_run" run_id "review"
Permits c (get_tax_findings run_id) = Grants c "tax_run" run_id "read"
Permits c (get_evidence run_id) = Grants c "tax_run" run_id "evidence"
Permits c (post_document d) = Grants c "reg_document" d.document_key "write"
Permits c (post_answer _) = Grants c "reg_corpus" "documents" "read"
Permits c (post_control_event e) = Grants c "control_event" e.event_id "write"
Permits c get_cases = Grants c "control_case" "*" "list"
Permits c (post_transition id _ _) = Grants c "control_case" (str_nat id) "transition"
Permits c (get_history id) = Grants c "control_case" (str_nat id) "read"
Permits c (post_entities _) = Grants c "risk_graph" "entities" "write"
Permits c (post_edges _) = Grants c "risk_graph" "edges" "write"
Permits c get_graph_findings = Grants c "risk_graph" "findings" "read"
Permits c get_audit =
    (tenant : String) × (claim "tenant_id" c ≡ ok tenant) × Grants c "audit_chain" tenant "verify"
Permits c get_config = Grants c "platform_config" "runtime" "read"
Permits c _ = Unit

-- The request is public, or its token is good for it.
abbrev pub IsPermitted : App → Option String → Request → Type 0
IsPermitted app bearer request = elim (roles_of request) [
  | none ↦ Unit
  | some roles ↦
      (claims : Fields) × (dependency app.verify roles bearer ≡ granted claims)
      × Permits claims request
]

-- The block raises and changes nothing at all.
abbrev pub IsRefused : Tx Body → World → Type 0
IsRefused m w = (e : Failure) × (m w ≡ (err e, w))

either {ℓ} :
    {A : Type ℓ} (b : Bool) (x y : A) → ((if b then x else y) ≡ x) ⊎ ((if b then x else y) ≡ y)
either true x y = inl refl
either false x y = inr refl

Access-cases :
    (a : Access)
    → ((claims : Fields) × (a ≡ granted claims))
      ⊎ ((e : Failure) × ((w : World) → admit a w ≡ (err e, w)))
Access-cases (granted claims) = inl (claims, refl)
Access-cases (refused status detail) = inr (http_exception status detail, λ w. refl)
Access-cases (failed e) = inr (e, λ w. refl)

module _ (claims : Fields) (kind id action : String) where
  authorize_resource-cases :
      Grants claims kind id action
      ⊎ (authorize_resource claims kind id action ≡ refused 403 (required_scope kind id action))
  unfolding authorize_resource
  authorize_resource-cases = either _ (granted claims) (refused 403 (required_scope kind id action))

  scoped :
      (k : Tx Body) (w : World)
      → Grants claims kind id action ⊎ IsRefused (authorize claims kind id action >> k) w
  scoped k w = elim authorize_resource-cases [
    | inl granted_it ↦ inl granted_it
    | inr shut ↦ inr (http_exception 403 (required_scope kind id action), rw shut refl)
  ]

module _ (app : App) (roles : List String) (bearer : Option String) (valid : Bool)
    (h : Fields → Tx Body) (w : World) where
  protected :
      (P : Fields → Type 0)
      → ((claims : Fields) → P claims ⊎ IsRefused (h claims) w)
      → ((claims : Fields) × (dependency app.verify roles bearer ≡ granted claims) × P claims)
        ⊎ IsRefused (depends app roles bearer valid >>= h) w
  protected P guarded = elim (Access-cases (dependency app.verify roles bearer)) [
    | inr (e, shut) ↦ inr (e, rw (shut w) refl)
    | inl (claims, passed) ↦ elim (Bool-cases valid) [
      | inr bad ↦ inr (http_exception 422 "validation error", rw passed (rw bad refl))
      | inl good ↦ elim (guarded claims) [
        | inl holds ↦ inl (claims, passed, holds)
        | inr (e, raised) ↦ inr (e, rw passed (rw good raised))
      ]
    ]
  ]

audit_scoped :
    (ctx : Context) (w : World) (c : Fields)
    → Permits c get_audit ⊎ IsRefused (audit_verify ctx c) w
unfolding audit_verify
audit_scoped ctx w c = elim (Result-cases (claim "tenant_id" c)) [
  | inr (e, bad) ↦ inr (e, rw bad refl)
  | inl (tenant, named) ↦ elim (scoped c "audit_chain" tenant "verify" _ w) [
    | inl holds ↦ inl (tenant, named, holds)
    | inr (e, raised) ↦ inr (e, rw named raised)
  ]
]

-- A request is public or permitted, or it is answered with an exception and changes nothing: not
-- the database, nor the clock, the messages or the objects. Permitted means that the token gave
-- claims with a role of the route, and that these have the scope of what the request names.
pub handle-IsPermitted :
    (ctx : Context) (app : App) (fits : ℕ → ℕ → Decimal → Bool) (bearer : Option String)
    (request : Request) (w : World)
    → IsPermitted app bearer request ⊎ IsRefused (handle ctx app fits bearer request) w
unfolding handle ingest_tax run_tax review_tax_run findings_of_run tax_evidence add_reg_document
    answer_reg add_control_event control_cases_open transition_control_case control_case_history
    add_graph_entities add_graph_edges investigate_graph audit_verify config_check
handle-IsPermitted ctx app fits bearer get_live w = inl tt
handle-IsPermitted ctx app fits bearer get_ready w = inl tt
handle-IsPermitted ctx app fits bearer get_health w = inl tt
handle-IsPermitted ctx app fits bearer (post_dev_token r) w = inl tt
handle-IsPermitted ctx app fits bearer (post_transactions items key) w =
    protected app can_analyze bearer (all (valid_transaction fits) items) (ingest_tax ctx items key)
      w _ (λ c. scoped c "tax_data" "transactions" "write" _ w)
handle-IsPermitted ctx app fits bearer (post_run version pack key) w =
    protected app can_analyze bearer true (run_tax ctx version pack key) w _
      (λ c. scoped c "tax_run" "new" "create" _ w)
handle-IsPermitted ctx app fits bearer (post_review run_id decision comment) w =
    protected app can_review bearer (valid_review decision comment)
      (review_tax_run ctx run_id decision comment) w _ (λ c. scoped c "tax_run" run_id "review" _ w)
handle-IsPermitted ctx app fits bearer (get_tax_findings run_id) w =
    protected app can_view bearer true (findings_of_run ctx run_id) w _
      (λ c. scoped c "tax_run" run_id "read" _ w)
handle-IsPermitted ctx app fits bearer (get_evidence run_id) w =
    protected app can_review bearer true (tax_evidence ctx app run_id) w _
      (λ c. scoped c "tax_run" run_id "evidence" _ w)
handle-IsPermitted ctx app fits bearer (post_document d) w =
    protected app can_analyze bearer (not (d.content == "")) (add_reg_document ctx d) w _
      (λ c. scoped c "reg_document" d.document_key "write" _ w)
handle-IsPermitted ctx app fits bearer (post_answer query) w =
    protected app can_view bearer (not (query == "")) (answer_reg ctx query) w _
      (λ c. scoped c "reg_corpus" "documents" "read" _ w)
handle-IsPermitted ctx app fits bearer (post_control_event e) w =
    protected app can_analyze bearer true (add_control_event ctx e) w _
      (λ c. scoped c "control_event" e.event_id "write" _ w)
handle-IsPermitted ctx app fits bearer get_cases w =
    protected app can_review bearer true (control_cases_open ctx) w _
      (λ c. scoped c "control_case" "*" "list" _ w)
handle-IsPermitted ctx app fits bearer (post_transition id to_status reason) w =
    protected app can_review bearer (valid_transition to_status reason)
      (transition_control_case ctx id to_status reason) w _
      (λ c. scoped c "control_case" (str_nat id) "transition" _ w)
handle-IsPermitted ctx app fits bearer (get_history id) w =
    protected app can_review bearer true (control_case_history ctx id) w _
      (λ c. scoped c "control_case" (str_nat id) "read" _ w)
handle-IsPermitted ctx app fits bearer (post_entities items) w =
    protected app can_analyze bearer true (add_graph_entities ctx items) w _
      (λ c. scoped c "risk_graph" "entities" "write" _ w)
handle-IsPermitted ctx app fits bearer (post_edges items) w =
    protected app can_analyze bearer true (add_graph_edges ctx items) w _
      (λ c. scoped c "risk_graph" "edges" "write" _ w)
handle-IsPermitted ctx app fits bearer get_graph_findings w =
    protected app can_view bearer true (investigate_graph ctx) w _
      (λ c. scoped c "risk_graph" "findings" "read" _ w)
handle-IsPermitted ctx app fits bearer get_audit w =
    protected app can_review bearer true (audit_verify ctx) w _ (audit_scoped ctx w)
handle-IsPermitted ctx app fits bearer get_config w =
    protected app admin_only bearer true (config_check app) w _
      (λ c. scoped c "platform_config" "runtime" "read" _ w)
