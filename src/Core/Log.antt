-- ===== src/Core/Log.antt =====
-- src/flagship_lab/core.py: the audit table as what it promises, a log for each tenant that only
-- grows at its end. Ids and hashes are forgotten.
use flagship_lab.Result.{ok, Failure, err, integrity_error}
use flagship_lab.Core.Append.{logged, next_hash, append_audit_event-eq}
use flagship_lab.Core.{
  tenant_events, append_audit_event, audit_row, previous_hash, hash_taken, of_tenant,
}
use flagship_lab.Json.{Json, canonical_json}
use flagship_lab.Tx.{Env, World}
use flagship_lab.Schema.{AuditEvent, Store}
use flagship_lab.Prelude.{
  String, List, if◌then◌else◌, map, ◌==◌, ◌++◌, ◌∷◌, [], ◌≡◌, ap, ◌⊎◌, refl, Bool-cases, inl,
  select-last, inr, ◌∙◌, select, select-last-other,
}

pub record Entry : Type 0 where
  pub source_module : String
  pub event_type : String
  pub entity_id : String
  pub occurred_at : String
  pub payload_json : String

abbrev pub entry_of : AuditEvent → Entry
entry_of e = record {
  source_module = e.source_module;
  event_type = e.event_type;
  entity_id = e.entity_id;
  occurred_at = e.occurred_at;
  payload_json = e.payload_json;
}

-- The log of a tenant, as the table holds it.
abbrev pub log_of : String → Store → List Entry
log_of tenant s = map entry_of (tenant_events tenant s)

-- What an append promises: the tenant's log has one entry more at its end, the others none.
abbrev pub recorded : String → Entry → (String → List Entry) → String → List Entry
recorded tenant entry log u = if tenant == u then log u ++ entry ∷ [] else log u

map-append-one :
    (f : AuditEvent → Entry) (es : List AuditEvent) (e : AuditEvent)
    → map f (es ++ e ∷ []) ≡ map f es ++ f e ∷ []
map-append-one f [] e = refl
map-append-one f (x ∷ xs) e = ap (λ ys. f x ∷ ys) (map-append-one f xs e)

module _ (env : Env) (module_name event_type entity : String) (payload : Json) (tenant : String)
    (w : World) where
  abbrev pub new_entry : Entry
  new_entry = record {
    source_module = module_name;
    event_type = event_type;
    entity_id = entity;
    occurred_at = env.clock w.ticks;
    payload_json = canonical_json payload;
  }

  log_of-logged :
      (u : String)
      → log_of u (logged env module_name event_type entity payload tenant w).store
        ≡ recorded tenant new_entry (λ t. log_of t w.store) u
  unfolding logged tenant_events
  log_of-logged u =
      let row =
        audit_row tenant module_name event_type entity (env.clock w.ticks) payload
          (previous_hash tenant w.store)
          (next_hash env module_name event_type entity payload tenant w)
          w.store.audit_events.next_id in
      elim (Bool-cases (tenant == u)) [
        | inl own ↦
            ap (map entry_of) (select-last (of_tenant u) w.store.audit_events.rows row own)
            ∙ rw own (map-append-one entry_of (select (of_tenant u) w.store.audit_events.rows) row)
        | inr other ↦
            ap (map entry_of) (select-last-other (of_tenant u) w.store.audit_events.rows row other)
            ∙ rw other refl
      ]

  -- An append that returns has recorded its entry, at the time that it read, at the end of the
  -- tenant's log, and nothing in the log of any other tenant; one that raises has left every log
  -- as it was.
  pub append_audit_event-recorded :
      (u : String)
      → let after = append_audit_event env module_name event_type entity payload tenant w in
        ((hash : String) × (after.0 ≡ ok hash)
          × (log_of u after.1.store ≡ recorded tenant new_entry (λ t. log_of t w.store) u))
        ⊎ ((e : Failure) × (after.0 ≡ err e) × (log_of u after.1.store ≡ log_of u w.store))
  append_audit_event-recorded u =
      let hash = next_hash env module_name event_type entity payload tenant w in
      let run = append_audit_event-eq env module_name event_type entity payload tenant w in
      elim (Bool-cases (hash_taken tenant hash w.store.audit_events.rows)) [
        | inl taken ↦
            inr (integrity_error "uq_audit_tenant_hash", rw (run, taken) refl, rw (run, taken) refl)
        | inr free ↦ inl (hash, rw (run, free) refl, rw (run, free) (log_of-logged u))
      ]
