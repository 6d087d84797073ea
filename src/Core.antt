-- ===== src/Core.antt =====
-- src/flagship_lab/core.py: hashing, the clock, transactions, the outbox and the audit chain.
pub mod Connect
pub mod Chain
pub mod Append
pub mod Frame
pub mod Verified
pub mod Health
pub mod Log
use flagship_lab.Prelude.{
  ℕ, suc, String, Bool, true, false, not, ◌&&◌, ◌||◌, Option, none, some, List, [], ◌∷◌, ltb, ◌==◌,
  if◌then◌else◌, select, last?,
}
use flagship_lab.Prelude.Text.{count, drop_char}
use flagship_lab.Json.{Json, text, obj, field, end, canonical_json}
use flagship_lab.Schema.{Store, AuditEvent, OutboxEvent, add_row}
use flagship_lab.Tx.{
  Env, value_error, json_error, integrity_error, Result, ok, err, World, Tx, ◌>>◌, pure, raise_if,
  gets, modify, ◌>>=◌,
}

-- `not tenant_id or len(tenant_id) > 64 or not tenant_id.replace("_", "").replace("-",
-- "").isalnum()`
unfoldable pub invalid_tenant : Env → String → Bool
unfolding drop_char
invalid_tenant env tenant =
    tenant == ""
    || ltb 64 (count tenant)
    || not (env.isalnum (drop_char b'-' (drop_char b'_' tenant)))

abbrev pub connect_check : Env → Option String → Tx (Unit {0})
connect_check env none = pure tt
connect_check env (some tenant) =
    raise_if (env.postgresql && invalid_tenant env tenant) (value_error "invalid tenant_id")

-- The end of `engine.begin()`: a commit, or a rollback of the database where the block raises.
abbrev pub finish {ℓ} : {A : Type ℓ} → Store → Result A × World → Result A × World
finish before (ok a, w) = (ok a, w)
finish before (err e, w) = (err e, record w { store = before })

-- `with db.connect(tenant_id) as conn: body`
unfoldable pub connect {ℓ} : {A : Type ℓ} → Env → Option String → Tx A → Tx A
connect env tenant body w = finish w.store ((connect_check env tenant >> body) w)

-- `utc_now()`: the next reading of the clock.
unfoldable pub utc_now : Env → Tx String
utc_now env w = (ok (env.clock w.ticks), record w { ticks = suc w.ticks })

-- `str(uuid.uuid4())`
unfoldable pub new_uuid : Env → Tx String
new_uuid env w = (ok (env.uuid4 w.ticks), record w { ticks = suc w.ticks })

unfoldable pub sha256_json : Env → Json → String
sha256_json env v = env.sha256_text (canonical_json v)

abbrev pub outbox_row : String → String → String → Json → String → ℕ → OutboxEvent
outbox_row tenant topic aggregate payload now id = record {
  id = id;
  tenant_id = tenant;
  topic = topic;
  aggregate_id = aggregate;
  payload_json = canonical_json payload;
  created_at = now;
  published_at = none;
  attempts = 0;
  last_error = none;
  dead_lettered_at = none;
}

unfoldable pub append_outbox_event : Env → String → String → String → Json → Tx (Unit {0})
unfolding utc_now
append_outbox_event env tenant topic aggregate payload = do
  now ← utc_now env
  modify (λ s. record s {
    outbox_events = add_row (outbox_row tenant topic aggregate payload now) s.outbox_events;
  })

-- `json.loads`
unfoldable pub loads : Env → String → Result Json
loads env s = elim (env.json_loads s) [ none ↦ err json_error | some v ↦ ok v ]

-- The text that is hashed: every field of an event but its own hash.
unfoldable pub material : String → String → String → String → String → Json → String → Json
material tenant module_name event_type entity occurred_at payload previous = obj (
    field "tenant_id" (text tenant) (
      field "module" (text module_name) (
        field "event_type" (text event_type) (
          field "entity_id" (text entity) (
            field "occurred_at" (text occurred_at)
              (field "payload" payload (field "previous_hash" (text previous) end)))))))

abbrev pub of_tenant : String → AuditEvent → Bool
of_tenant tenant e = e.tenant_id == tenant

-- The tenant's events, in the order of their ids.
unfoldable pub tenant_events : String → Store → List AuditEvent
tenant_events tenant s = select (of_tenant tenant) s.audit_events.rows

-- `previous or "GENESIS"`
abbrev pub hash_or_genesis : Option AuditEvent → String
hash_or_genesis none = "GENESIS"
hash_or_genesis (some e) = if e.event_hash == "" then "GENESIS" else e.event_hash

unfoldable pub previous_hash : String → Store → String
unfolding tenant_events
previous_hash tenant s = hash_or_genesis (last? (tenant_events tenant s))

abbrev pub audit_row :
    String → String → String → String → String → Json → String → String → ℕ → AuditEvent
audit_row tenant module_name event_type entity occurred_at payload previous hash id = record {
  id = id;
  tenant_id = tenant;
  source_module = module_name;
  event_type = event_type;
  entity_id = entity;
  occurred_at = occurred_at;
  payload_json = canonical_json payload;
  previous_hash = previous;
  event_hash = hash;
}

-- The unique constraint `uq_audit_tenant_hash`.
unfoldable pub hash_taken : String → String → List AuditEvent → Bool
hash_taken tenant hash [] = false
hash_taken tenant hash (e ∷ es) =
    (e.tenant_id == tenant && e.event_hash == hash) || hash_taken tenant hash es

unfoldable pub append_audit_event : Env → String → String → String → Json → String → Tx String
unfolding utc_now previous_hash sha256_json append_outbox_event
append_audit_event env module_name event_type entity payload tenant = do
  previous ← gets (previous_hash tenant)
  occurred_at ← utc_now env
  let hash =
      sha256_json env (material tenant module_name event_type entity occurred_at payload previous)
  taken ← gets (λ s. hash_taken tenant hash s.audit_events.rows)
  raise_if taken (integrity_error "uq_audit_tenant_hash")
  modify (λ s. record s {
    audit_events =
        add_row (audit_row tenant module_name event_type entity occurred_at payload previous hash)
          s.audit_events;
  })
  append_outbox_event env tenant "audit.event.created" entity (
      obj (
        field "module" (text module_name)
          (field "event_type" (text event_type) (field "event_hash" (text hash) end))))
  pure hash

-- The result of a verification: whether the chain holds, how many events were accepted, and the
-- hash of the first that was not.
pub record Verdict : Type 0 where
  pub valid : Bool
  pub events : ℕ
  pub broken_hash : Option String

abbrev pub check_event : Env → String → AuditEvent → String → Json → Bool
check_event env tenant e previous payload =
    not (e.previous_hash == previous)
    || not (
        sha256_json env (
          material tenant e.source_module e.event_type e.entity_id e.occurred_at payload
            e.previous_hash)
        == e.event_hash)

-- The loop over the rows; a payload that is no JSON text raises.
unfoldable pub verify_from : Env → String → String → ℕ → List AuditEvent → Result Verdict
verify_from env tenant previous n [] = ok (record { valid = true; events = n; broken_hash = none })
verify_from env tenant previous n (e ∷ es) =
    let rest = verify_from env tenant e.event_hash (suc n) es in
    elim (env.json_loads e.payload_json) [
      | none ↦ err json_error
      | some payload ↦
          if check_event env tenant e previous payload
          then ok (record { valid = false; events = n; broken_hash = some e.event_hash })
          else rest
    ]

unfoldable pub verify_audit_chain : Env → String → Store → Result Verdict
unfolding verify_from tenant_events
verify_audit_chain env tenant s = verify_from env tenant "GENESIS" 0 (tenant_events tenant s)
