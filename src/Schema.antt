-- ===== src/Schema.antt =====
-- src/flagship_lab/sql_models.py: the tables. A table is its rows in the order of insertion and the
-- next value of its autoincrement key. Rows are appended and updated in place, so the order of a
-- table is the order of its ids, and `ORDER BY id` is the order of the list.
mod Audit
mod Tax
mod Domain
pub use Audit.*
pub use Tax.*
pub use Domain.*
use flagship_lab.Prelude.{ℕ, ◌+◌, List, [], ◌∷◌, ◌++◌}

pub record Table (A : Type 0) : Type 0 where
  pub rows : List A
  pub next_id : ℕ

abbrev pub empty_table : {A : Type 0} → Table A
empty_table = record { rows = []; next_id = 1 }

-- An insert: the row is made from its new id.
abbrev pub add_row : {A : Type 0} → (ℕ → A) → Table A → Table A
add_row mk t = record { rows = t.rows ++ mk t.next_id ∷ []; next_id = t.next_id + 1 }

abbrev pub set_rows : {A : Type 0} → List A → Table A → Table A
set_rows rows t = record t { rows = rows }

pub record Store : Type 0 where
  pub audit_events : Table AuditEvent
  pub outbox_events : Table OutboxEvent
  pub dead_letter_events : Table DeadLetterEvent
  pub consumer_receipts : List ConsumerReceipt
  pub idempotency_records : List IdempotencyRecord
  pub tax_transactions : Table TaxTransactionRow
  pub tax_rule_runs : List TaxRuleRun
  pub tax_findings : Table TaxFinding
  pub tax_run_workflow : List TaxRunWorkflow
  pub regulation_documents : Table RegulationDocument
  pub control_events : Table ControlEventRow
  pub control_cases : Table ControlCase
  pub control_case_transitions : Table ControlCaseTransition
  pub graph_entities : List GraphEntity
  pub graph_edges : Table GraphEdge

-- The database as `Base.metadata.create_all` makes it.
abbrev pub empty_store : Store
empty_store = record {
  audit_events = empty_table;
  outbox_events = empty_table;
  dead_letter_events = empty_table;
  consumer_receipts = [];
  idempotency_records = [];
  tax_transactions = empty_table;
  tax_rule_runs = [];
  tax_findings = empty_table;
  tax_run_workflow = [];
  regulation_documents = empty_table;
  control_events = empty_table;
  control_cases = empty_table;
  control_case_transitions = empty_table;
  graph_entities = [];
  graph_edges = empty_table;
}
