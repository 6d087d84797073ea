-- ===== src/ControlPulse.antt =====
-- src/flagship_lab/controlpulse.py: control events, the cases they open, and the life of a case.
pub mod Transition
pub mod Life
use flagship_lab.Prelude.Int.{pos}
use flagship_lab.Core.{sha256_json, append_audit_event, connect}
use flagship_lab.Tx.{
  Env, Result, Tx, lift, modify, gets, one_or_none, err, pure, value_error, ok, ◌>>=◌, ◌>>◌,
}
use flagship_lab.Json.{Json, canonical_json, obj, int, Fields, field, text, bool, end}
use flagship_lab.Json.Get.{get_field, equals_text}
use flagship_lab.Schema.{Store, ControlEventRow, ControlCase, Table, add_row}
use flagship_lab.Prelude.{
  String, ℕ, List, Bool, if◌then◌else◌, true, ◌==◌, map, ◌&&◌, Option, select, ltb, ◌∷◌, some,
  false, ◌||◌, [], leb, none, length, ◌++◌, not,
}

pub record ControlEvent : Type 0 where
  pub event_id : String
  pub event_type : String
  pub actor : String
  pub resource : String
  pub occurred_at : String
  pub approved : Bool
  pub privileged : Bool
  pub outcome : String
  pub payload : Fields

-- `asdict(event)`
unfoldable pub asdict : ControlEvent → Json
asdict e = obj (
    field "event_id" (text e.event_id) (
      field "event_type" (text e.event_type) (
        field "actor" (text e.actor) (
          field "resource" (text e.resource) (
            field "occurred_at" (text e.occurred_at) (
              field "approved" (bool e.approved) (
                field "privileged" (bool e.privileged)
                  (field "outcome" (text e.outcome) (field "payload" (obj e.payload) end)))))))))

pub record ControlPulseService : Type 0 where
  pub tenant_id : String

-- One item of the list that an ingestion returns.
pub record CaseItem : Type 0 where
  pub control_id : String
  pub severity : String
  pub explanation : String
  pub evidence_hash : String

-- `if test: cases.append({...})`
abbrev case_if : Bool → String → String → String → String → List CaseItem
case_if test control_id severity explanation evidence_hash =
    if test
    then record {
      control_id = control_id;
      severity = severity;
      explanation = explanation;
      evidence_hash = evidence_hash;
    }
      ∷ []
    else []

-- The four controls, at a known hour of day.
unfoldable pub evaluate_at : ControlEvent → String → ℕ → List CaseItem
unfolding get_field
evaluate_at e hash hour =
    case_if (e.privileged && (ltb hour 7 || leb 22 hour)) "AC-PRIV-001" "HIGH" "特权操作发生在非工作时段" hash
    ++ (case_if (e.event_type == "DEPLOYMENT" && not e.approved) "CM-APPROVAL-001" "HIGH" "生产变更缺少审批"
          hash
        ++ (case_if (e.event_type == "BACKUP" && not (e.outcome == "SUCCESS")) "OP-BACKUP-001"
              "HIGH" "备份任务失败" hash
            ++ case_if
                (e.event_type == "LOGIN"
                  && e.outcome == "SUCCESS"
                  && equals_text (get_field "account_status" e.payload) "DISABLED")
                "AC-TERM-001" "CRITICAL" "已停用账号登录成功" hash))

unfoldable pub evaluate : Env → ControlEvent → String → Result (List CaseItem)
unfolding evaluate_at
evaluate env e hash = elim (env.iso_hour e.occurred_at) [
  | none ↦ err (value_error "Invalid isoformat string")
  | some hour ↦ ok (evaluate_at e hash hour)
]

abbrev pub is_event : String → String → ControlEventRow → Bool
is_event tenant event_id r = r.tenant_id == tenant && r.event_id == event_id

unfoldable pub events_with_id : String → String → Store → List ControlEventRow
events_with_id tenant event_id s = select (is_event tenant event_id) s.control_events.rows

abbrev pub is_case_of : String → String → ControlCase → Bool
is_case_of tenant event_id c = c.tenant_id == tenant && c.event_id == event_id

abbrev pub to_item : ControlCase → CaseItem
to_item c = record {
  control_id = c.control_id;
  severity = c.severity;
  explanation = c.explanation;
  evidence_hash = c.evidence_hash;
}

-- The cases that were stored for an event, in the order of their ids.
unfoldable pub stored_cases : String → String → Store → List CaseItem
stored_cases tenant event_id s =
    map to_item (select (is_case_of tenant event_id) s.control_cases.rows)

-- `int(flag)`
abbrev pub int_of : Bool → ℕ
int_of true = 1
int_of false = 0

abbrev pub event_row : String → ControlEvent → String → ℕ → ControlEventRow
event_row tenant e hash id = record {
  id = id;
  tenant_id = tenant;
  event_id = e.event_id;
  event_type = e.event_type;
  actor = e.actor;
  resource = e.resource;
  occurred_at = e.occurred_at;
  approved = int_of e.approved;
  privileged = int_of e.privileged;
  outcome = e.outcome;
  payload_json = canonical_json (obj e.payload);
  evidence_hash = hash;
}

abbrev pub case_row : String → String → String → CaseItem → ℕ → ControlCase
case_row tenant event_id hash item id = record {
  id = id;
  tenant_id = tenant;
  event_id = event_id;
  control_id = item.control_id;
  severity = item.severity;
  explanation = item.explanation;
  evidence_hash = hash;
  status = "OPEN";
  version = 1;
}

-- `conn.execute(insert(ControlCase), [... for item in cases])`
unfoldable pub insert_cases :
    String → String → String → List CaseItem → Table ControlCase → Table ControlCase
insert_cases tenant event_id hash [] t = t
insert_cases tenant event_id hash (item ∷ items) t =
    insert_cases tenant event_id hash items (add_row (case_row tenant event_id hash item) t)

abbrev pub count_json : ℕ → Json
count_json n = int (pos n)

abbrev pub ingest_new : Env → String → ControlEvent → String → List CaseItem → Tx (List CaseItem)
ingest_new env tenant e hash cases = do
  modify (λ s. record s {
    control_events = add_row (event_row tenant e hash) s.control_events;
    control_cases = insert_cases tenant e.event_id hash cases s.control_cases;
  })
  append_audit_event env "controlpulse" "EVENT_EVALUATED" e.event_id
      (obj (field "evidence_hash" (text hash) (field "case_count" (count_json (length cases)) end)))
      tenant
  pure cases

abbrev pub ingest_found :
    Env
    → String
    → ControlEvent
    → String
    → List CaseItem
    → Option ControlEventRow
    → Tx (List CaseItem)
ingest_found env tenant e hash cases (some _) = gets (stored_cases tenant e.event_id)
ingest_found env tenant e hash cases none = ingest_new env tenant e hash cases

abbrev pub ingest_body : Env → String → ControlEvent → String → List CaseItem → Tx (List CaseItem)
ingest_body env tenant e hash cases = do
  found ← gets (λ s. one_or_none (events_with_id tenant e.event_id s))
  existing ← lift found
  ingest_found env tenant e hash cases existing

unfoldable pub ingest_and_evaluate : Env → ControlPulseService → ControlEvent → Tx (List CaseItem)
ingest_and_evaluate env service e = do
  let hash = sha256_json env (asdict e)
  cases ← lift (evaluate env e hash)
  connect env (some service.tenant_id) (ingest_body env service.tenant_id e hash cases)
