-- ===== src/Api/Domain.antt =====
-- src/flagship_lab/fastapi_app.py: the handlers of regulations, controls, the risk graph, the audit
-- chain and the configuration.
use flagship_lab.Api.Requests.{
  version_hash, Document, Body, answered, upserted, inserted, open_case_list, graph_findings,
  history, config, cases_opened, moved_case, audit_verdict,
}
use flagship_lab.Prelude.Text.{str_nat}
use flagship_lab.Tx.{Tx, ◌>>=◌, ◌>>◌, lift, pure, gets}
use flagship_lab.Json.{Fields}
use flagship_lab.Api.{App, claim, Context, authorize, on_value_error}
use flagship_lab.RegIntel.{answer, add_document}
use flagship_lab.RiskGraph.{add_edges, add_entities, Edge, Entity}
use flagship_lab.RiskGraph.Investigate.{investigate}
use flagship_lab.ControlPulse.Transition.{transition_case, case_history, open_cases}
use flagship_lab.ControlPulse.{ingest_and_evaluate, ControlEvent}
use flagship_lab.Core.{verify_audit_chain, connect}
use flagship_lab.Prelude.{
  String, Option, none, some, Bool, false, true, List, ℕ, ◌&&◌, length, not, ◌==◌,
}

unfoldable pub add_reg_document : Context → Document → Fields → Tx Body
unfolding add_document claim
add_reg_document ctx d claims = do
  authorize claims "reg_document" d.document_key "write"
  tenant ← lift (claim "tenant_id" claims)
  hash ←
      add_document ctx.env (record { tenant_id = tenant }) d.document_key d.title d.source_url
        d.published_at d.content
  actor ← lift (claim "sub" claims)
  pure (version_hash hash actor)

unfoldable pub answer_reg : Context → String → Fields → Tx Body
unfolding answer claim
answer_reg ctx query claims = do
  authorize claims "reg_corpus" "documents" "read"
  lift (claim "tenant_id" claims)
  pure (answered (answer ctx.hybrid_search query))

unfoldable pub add_control_event : Context → ControlEvent → Fields → Tx Body
unfolding ingest_and_evaluate claim
add_control_event ctx e claims = do
  authorize claims "control_event" e.event_id "write"
  tenant ← lift (claim "tenant_id" claims)
  cases ← ingest_and_evaluate ctx.env (record { tenant_id = tenant }) e
  actor ← lift (claim "sub" claims)
  pure (cases_opened cases actor)

unfoldable pub control_cases_open : Context → Fields → Tx Body
unfolding open_cases claim
control_cases_open ctx claims = do
  authorize claims "control_case" "*" "list"
  tenant ← lift (claim "tenant_id" claims)
  rows ← open_cases ctx.env (record { tenant_id = tenant })
  pure (open_case_list rows)

unfoldable pub transition_control_case : Context → ℕ → String → String → Fields → Tx Body
unfolding transition_case claim str_nat
transition_control_case ctx case_id to_status reason claims = do
  authorize claims "control_case" (str_nat case_id) "transition"
  tenant ← lift (claim "tenant_id" claims)
  done ← on_value_error ctx 400 (do
    actor ← lift (claim "sub" claims)
    transition_case ctx.env (record { tenant_id = tenant }) case_id actor to_status reason)
  pure (moved_case done)

unfoldable pub control_case_history : Context → ℕ → Fields → Tx Body
unfolding case_history claim str_nat
control_case_history ctx case_id claims = do
  authorize claims "control_case" (str_nat case_id) "read"
  tenant ← lift (claim "tenant_id" claims)
  rows ← case_history ctx.env (record { tenant_id = tenant }) case_id
  pure (history rows)

unfoldable pub add_graph_entities : Context → List Entity → Fields → Tx Body
unfolding add_entities claim
add_graph_entities ctx items claims = do
  authorize claims "risk_graph" "entities" "write"
  tenant ← lift (claim "tenant_id" claims)
  add_entities ctx.env (record { tenant_id = tenant }) items
  actor ← lift (claim "sub" claims)
  pure (upserted (length items) actor)

unfoldable pub add_graph_edges : Context → List Edge → Fields → Tx Body
unfolding add_edges claim
add_graph_edges ctx items claims = do
  authorize claims "risk_graph" "edges" "write"
  tenant ← lift (claim "tenant_id" claims)
  add_edges ctx.env (record { tenant_id = tenant }) items
  actor ← lift (claim "sub" claims)
  pure (inserted (length items) actor)

unfoldable pub investigate_graph : Context → Fields → Tx Body
unfolding investigate claim
investigate_graph ctx claims = do
  authorize claims "risk_graph" "findings" "read"
  tenant ← lift (claim "tenant_id" claims)
  found ← investigate ctx.env (record { tenant_id = tenant })
  pure (graph_findings found)

unfoldable pub audit_verify : Context → Fields → Tx Body
unfolding verify_audit_chain claim
audit_verify ctx claims = do
  tenant ← lift (claim "tenant_id" claims)
  authorize claims "audit_chain" tenant "verify"
  verdict ←
      connect ctx.env (some tenant)
        (do checked ← gets (verify_audit_chain ctx.env tenant); lift checked)
  pure (audit_verdict verdict)

abbrev is_some {ℓ} : {A : Type ℓ} → Option A → Bool
is_some none = false
is_some (some _) = true

unfoldable pub config_check : App → Fields → Tx Body
config_check app claims = do
  authorize claims "platform_config" "runtime" "read"
  pure (
      config (record {
        jwt_secret_configured = true;
        evidence_signing_key_separated =
            is_some app.settings.evidence_signing_secret
            && not (app.signing_secret == app.settings.jwt_secret);
        development_tokens_enabled = app.settings.allow_dev_tokens;
        external_token_verifier = is_some app.settings.token_verifier;
        asymmetric_evidence_signing = is_some app.settings.evidence_signing_private_key_pem;
        managed_immutable_evidence = is_some app.managed_evidence;
      }))
