-- ===== src/Core/Append.antt =====
-- src/flagship_lab/core.py, `append_audit_event`: what an append reads and writes.
use flagship_lab.Prelude.{
  suc, String, ◌≡◌, refl, ◌≢◌, ap, Option, none, some, List, [], ◌∷◌, ◌++◌, arith, eq_iff,
  Bool-cases, inl, inr, select, select-append, last?, last?-cons, ◌∙◌, if◌then◌else◌,
}
use mathlib.Core.Path.{subst}
use mathlib.Core.List.{append-nil}
use flagship_lab.Json.{
  Json, text, obj, field, end, canonical_json, canon, Fields, write, insert_field,
}
use flagship_lab.Schema.{Store, AuditEvent, add_row}
use flagship_lab.Tx.{Env, World, ok, err, integrity_error}
use flagship_lab.Core.{
  sha256_json, material, tenant_events, of_tenant, previous_hash, hash_taken, append_audit_event,
  audit_row, hash_or_genesis, outbox_row,
}
use flagship_lab.Core.Chain.{Link, Chained, IsIntact, last_hash}

-- `sha256(...).hexdigest()` is never the empty text.
abbrev pub HasDigests : Env → Type 0
HasDigests env = (s : String) → env.sha256_text s ≢ ""

-- The reader gives back the value that was printed, up to the order of keys and `default=str`.
abbrev pub RoundTrips : Env → Json → Type 0
RoundTrips env p = (q : Json) × (env.json_loads (canonical_json p) ≡ some q) × (canon q ≡ canon p)

abbrev sorted_material : String → String → String → String → String → Json → String → Fields
sorted_material tenant module_name event_type entity occurred_at c previous =
    insert_field "tenant_id" (text tenant) (
      insert_field "module" (text module_name) (
        insert_field "event_type" (text event_type) (
          insert_field "entity_id" (text entity) (
            insert_field "occurred_at" (text occurred_at)
              (insert_field "payload" c (insert_field "previous_hash" (text previous) end))))))

sha256_json-material :
    (env : Env) (tenant module_name event_type entity occurred_at : String) (p q : Json)
    (previous : String)
    → canon q ≡ canon p
    → sha256_json env (material tenant module_name event_type entity occurred_at q previous)
      ≡ sha256_json env (material tenant module_name event_type entity occurred_at p previous)
unfolding sha256_json canonical_json canon material
sha256_json-material env tenant module_name event_type entity occurred_at p q previous h =
    ap
      (λ c. env.sha256_text (
        write (obj (sorted_material tenant module_name event_type entity occurred_at c previous))
          ""))
      h

Chained-append :
    (env : Env) (tenant previous : String) (es : List AuditEvent) (e : AuditEvent)
    → Chained env tenant previous es
    → Link env tenant (last_hash previous es) e
    → Chained env tenant previous (es ++ e ∷ [])
Chained-append env tenant previous [] e h link = (link, tt)
Chained-append env tenant previous (d ∷ es) e (first, rest) link =
    (first, Chained-append env tenant d.event_hash es e rest link)

abbrev pick : String → Option AuditEvent → String
pick previous none = previous
pick previous (some e) = hash_or_genesis (some e)

pick-some :
    (p q : String) {o : Option AuditEvent} {e : AuditEvent} → o ≡ some e → pick p o ≡ pick q o
pick-some p q h = rw h

module _ (env : Env) (digests : HasDigests env) where
  Link-hash :
      {tenant previous : String} {e : AuditEvent} → Link env tenant previous e → e.event_hash ≢ ""
  unfolding sha256_json
  Link-hash link blank = digests _ (link.hashed ∙ blank)

  pick-last? :
      (tenant previous : String) (es : List AuditEvent)
      → Chained env tenant previous es
      → pick previous (last? es) ≡ last_hash previous es
  unfolding last?
  pick-last? tenant previous [] h = refl
  pick-last? tenant previous (e ∷ []) (link, _) =
      ground (arith, eq_iff e.event_hash "", Link-hash link)
  pick-last? tenant previous (d ∷ e ∷ es) (link, rest) =
      pick-some previous d.event_hash (last?-cons e es).1
      ∙ pick-last? tenant d.event_hash (e ∷ es) rest

  -- In an intact chain, the hash that `append_audit_event` reads is the one that the next event
  -- must name.
  previous_hash-eq-last_hash :
      (tenant : String) (s : Store)
      → IsIntact env tenant s
      → previous_hash tenant s ≡ last_hash "GENESIS" (tenant_events tenant s)
  unfolding previous_hash
  previous_hash-eq-last_hash tenant s h =
      to_pick (last? (tenant_events tenant s))
      ∙ pick-last? tenant "GENESIS" (tenant_events tenant s) h
    where
      to_pick : (o : Option AuditEvent) → hash_or_genesis o ≡ pick "GENESIS" o
      to_pick none = refl
      to_pick (some e) = refl

-- The hash that an append in `w` computes.
unfoldable pub next_hash : Env → String → String → String → Json → String → World → String
next_hash env module_name event_type entity payload tenant w = sha256_json env (
    material tenant module_name event_type entity (env.clock w.ticks) payload
      (previous_hash tenant w.store))

-- The world after a successful append: one audit event, one message of the outbox, two clock
-- readings.
unfoldable pub logged : Env → String → String → String → Json → String → World → World
logged env module_name event_type entity payload tenant w =
    let hash = next_hash env module_name event_type entity payload tenant w in
    record w {
      store = record w.store {
        audit_events =
            add_row
              (audit_row tenant module_name event_type entity (env.clock w.ticks) payload
                (previous_hash tenant w.store) hash)
              w.store.audit_events;
        outbox_events =
            add_row
              (outbox_row tenant "audit.event.created" entity
                (obj (
                  field "module" (text module_name)
                    (field "event_type" (text event_type) (field "event_hash" (text hash) end))))
                (env.clock (suc w.ticks)))
              w.store.outbox_events;
      };
      ticks = suc (suc w.ticks);
    }

module _ (env : Env) (module_name event_type entity : String) (payload : Json) (tenant : String)
    (w : World) where
  -- The append is refused by the unique constraint, or logs the event.
  pub append_audit_event-eq :
      append_audit_event env module_name event_type entity payload tenant w ≡ (
        if hash_taken tenant
          (next_hash env module_name event_type entity payload tenant w)
          w.store.audit_events.rows
        then (err (integrity_error "uq_audit_tenant_hash"), record w { ticks = suc w.ticks })
        else (
          ok (next_hash env module_name event_type entity payload tenant w),
          logged env module_name event_type entity payload tenant w,
        ))
  unfolding append_audit_event next_hash logged
  append_audit_event-eq =
      elim (Bool-cases (
        hash_taken tenant
          (sha256_json env (
            material tenant module_name event_type entity (env.clock w.ticks) payload
              (previous_hash tenant w.store)))
          w.store.audit_events.rows)) [ inl taken ↦ rw taken | inr free ↦ rw free ]

-- One more row is one more link of its own tenant's chain, and of no other's.
Chained-select :
    (env : Env) (u : String) (rows : List AuditEvent) (e : AuditEvent)
    → (e.tenant_id ≡ u → Link env u (last_hash "GENESIS" (select (of_tenant u) rows)) e)
    → Chained env u "GENESIS" (select (of_tenant u) rows)
    → Chained env u "GENESIS" (select (of_tenant u) (rows ++ e ∷ []))
unfolding select
Chained-select env u rows e link intact = rw select-append (elim (Bool-cases (of_tenant u e)) [
  | inl own ↦ rw own (
      Chained-append env u "GENESIS" (select (of_tenant u) rows) e intact
        (link ((eq_iff e.tenant_id u).0 own)))
  | inr other ↦ rw (other, append-nil) intact
])

module _ (env : Env) (module_name event_type entity : String) (payload : Json) (tenant : String)
    (w : World) (digests : HasDigests env) (readable : RoundTrips env payload) where
  abbrev new_row : AuditEvent
  new_row =
      audit_row tenant module_name event_type entity (env.clock w.ticks) payload
        (previous_hash tenant w.store)
        (next_hash env module_name event_type entity payload tenant w) w.store.audit_events.next_id

  logged-Link :
      IsIntact env tenant w.store
      → Link env tenant (last_hash "GENESIS" (tenant_events tenant w.store)) new_row
  unfolding next_hash
  logged-Link intact =
      let (q, read, same) = readable in
      record {
        payload = q;
        readable = read;
        follows = previous_hash-eq-last_hash env digests tenant w.store intact;
        hashed =
            sha256_json-material env tenant module_name event_type entity (env.clock w.ticks)
              payload q (previous_hash tenant w.store) same;
      }

  -- A logged event keeps the chains of all tenants intact.
  pub logged-IsIntact :
      (u : String)
      → IsIntact env u w.store
      → IsIntact env u (logged env module_name event_type entity payload tenant w).store
  unfolding logged tenant_events
  logged-IsIntact u intact =
      Chained-select env u w.store.audit_events.rows new_row
        (λ same.
          subst
            (λ t.
              IsIntact env t w.store
              → Link env t (last_hash "GENESIS" (tenant_events t w.store)) new_row)
            same logged-Link intact)
        intact
