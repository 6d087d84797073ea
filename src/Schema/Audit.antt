-- ===== src/Schema/Audit.antt =====
-- src/flagship_lab/sql_models.py: the rows of the audit chain, the outbox, its dead letters and
-- receipts, and the idempotency records.
use flagship_lab.Prelude.{ℕ, String, Option}

pub record AuditEvent : Type 0 where
  pub id : ℕ
  pub tenant_id : String
  pub source_module : String
  pub event_type : String
  pub entity_id : String
  pub occurred_at : String
  pub payload_json : String
  pub previous_hash : String
  pub event_hash : String

pub record OutboxEvent : Type 0 where
  pub id : ℕ
  pub tenant_id : String
  pub topic : String
  pub aggregate_id : String
  pub payload_json : String
  pub created_at : String
  pub published_at : Option String
  pub attempts : ℕ
  pub last_error : Option String
  pub dead_lettered_at : Option String

pub record DeadLetterEvent : Type 0 where
  pub id : ℕ
  pub outbox_id : ℕ
  pub tenant_id : String
  pub topic : String
  pub aggregate_id : String
  pub payload_json : String
  pub failure_reason : String
  pub failed_at : String
  pub replayed_at : Option String

pub record ConsumerReceipt : Type 0 where
  pub consumer_name : String
  pub event_id : String
  pub tenant_id : String
  pub processed_at : String

pub record IdempotencyRecord : Type 0 where
  pub tenant_id : String
  pub operation : String
  pub idempotency_key : String
  pub request_hash : String
  pub response_json : String
  pub status_code : ℕ
  pub created_at : String
