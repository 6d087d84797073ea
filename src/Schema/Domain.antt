-- ===== src/Schema/Domain.antt =====
-- src/flagship_lab/sql_models.py: the rows of regulations, control events and cases, and the risk
-- graph.
use flagship_lab.Prelude.{ℕ, String}
use flagship_lab.Decimal.{Decimal}

pub record RegulationDocument : Type 0 where
  pub id : ℕ
  pub tenant_id : String
  pub document_key : String
  pub title : String
  pub source_url : String
  pub published_at : String
  pub version_hash : String
  pub content : String

pub record ControlEventRow : Type 0 where
  pub id : ℕ
  pub tenant_id : String
  pub event_id : String
  pub event_type : String
  pub actor : String
  pub resource : String
  pub occurred_at : String
  pub approved : ℕ
  pub privileged : ℕ
  pub outcome : String
  pub payload_json : String
  pub evidence_hash : String

pub record ControlCase : Type 0 where
  pub id : ℕ
  pub tenant_id : String
  pub event_id : String
  pub control_id : String
  pub severity : String
  pub explanation : String
  pub evidence_hash : String
  pub status : String
  pub version : ℕ

pub record ControlCaseTransition : Type 0 where
  pub id : ℕ
  pub tenant_id : String
  pub case_id : ℕ
  pub from_status : String
  pub to_status : String
  pub actor : String
  pub reason : String
  pub occurred_at : String

pub record GraphEntity : Type 0 where
  pub tenant_id : String
  pub entity_id : String
  pub entity_type : String
  pub attributes_json : String

pub record GraphEdge : Type 0 where
  pub id : ℕ
  pub tenant_id : String
  pub source_id : String
  pub target_id : String
  pub relation : String
  pub amount : Decimal
  pub occurred_at : String
  pub evidence_json : String
