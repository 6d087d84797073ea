-- ===== src/Evidence/Rows.antt =====
-- src/flagship_lab/evidence.py: the rows of a package as `dict(row)` gives them.
use flagship_lab.Prelude.Int.{pos}
use flagship_lab.Json.{Json, int, null, obj, Items, field, text, nil, end, cons}
use flagship_lab.Schema.{TaxRuleRun, TaxRunWorkflow, AuditEvent, TaxFinding}
use flagship_lab.Prelude.{String, Option, ℕ, List, some, none, ◌∷◌, []}

abbrev number : ℕ → Json
number n = int (pos n)

abbrev text_or_null : Option String → Json
text_or_null none = null
text_or_null (some s) = text s

abbrev number_or_null : Option ℕ → Json
number_or_null none = null
number_or_null (some n) = number n

unfoldable pub run_dict : TaxRuleRun → Json
run_dict r = obj (
    field "run_id" (text r.run_id) (
      field "tenant_id" (text r.tenant_id) (
        field "rule_version" (text r.rule_version) (
          field "rule_pack_json" (text r.rule_pack_json) (
            field "started_at" (text r.started_at) (
              field "completed_at" (text_or_null r.completed_at) (
                field "transaction_count" (number r.transaction_count)
                  (field "finding_count" (number r.finding_count) end))))))))

unfoldable pub finding_dict : TaxFinding → Json
finding_dict f = obj (
    field "id" (number f.id) (
      field "tenant_id" (text f.tenant_id) (
        field "run_id" (text f.run_id) (
          field "transaction_id" (number_or_null f.transaction_id) (
            field "invoice_id" (text f.invoice_id) (
              field "rule_code" (text f.rule_code) (
                field "severity" (text f.severity) (
                  field "explanation" (text f.explanation)
                    (field "evidence_json" (text f.evidence_json) end)))))))))

unfoldable pub audit_dict : AuditEvent → Json
audit_dict e = obj (
    field "id" (number e.id) (
      field "tenant_id" (text e.tenant_id) (
        field "module" (text e.source_module) (
          field "event_type" (text e.event_type) (
            field "entity_id" (text e.entity_id) (
              field "occurred_at" (text e.occurred_at) (
                field "payload_json" (text e.payload_json) (
                  field "previous_hash" (text e.previous_hash)
                    (field "event_hash" (text e.event_hash) end)))))))))

unfoldable pub workflow_dict : TaxRunWorkflow → Json
workflow_dict w = obj (
    field "run_id" (text w.run_id) (
      field "tenant_id" (text w.tenant_id) (
        field "requested_by" (text w.requested_by) (
          field "status" (text w.status) (
            field "version" (number w.version) (
              field "reviewed_by" (text_or_null w.reviewed_by) (
                field "reviewed_at" (text_or_null w.reviewed_at)
                  (field "decision_comment" (text_or_null w.decision_comment) end))))))))

-- `[dict(row) for row in rows]`
abbrev pub dicts : {A : Type 0} → (A → Json) → List A → Items
dicts f [] = nil
dicts f (x ∷ xs) = cons (f x) (dicts f xs)

-- `dict(workflow) if workflow else None`
abbrev pub review_json : Option TaxRunWorkflow → Json
unfolding workflow_dict
review_json none = null
review_json (some w) = workflow_dict w
