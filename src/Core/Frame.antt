-- ===== src/Core/Frame.antt =====
-- src/flagship_lab/core.py, `append_audit_event`: what an append leaves alone.
use flagship_lab.Result.{ok}
use flagship_lab.Json.{Json}
use flagship_lab.Prelude.{◌≡◌, String, Bool-cases, suc, inl, arith, inr, refl}
use flagship_lab.Schema.{Store}
use flagship_lab.Tx.{Env, World}
use flagship_lab.Core.{append_audit_event, hash_taken}
use flagship_lab.Core.Append.{append_audit_event-eq, next_hash, logged}

-- Two databases that agree on every table but the audit events and the outbox.
abbrev pub IsFramed : Store → Store → Type 0
IsFramed s t = record s { audit_events = t.audit_events; outbox_events = t.outbox_events } ≡ t

module _ (env : Env) (module_name event_type entity : String) (payload : Json) (tenant : String)
    (w : World) where
  -- An append, refused or not, changes no other table.
  pub append_audit_event-IsFramed :
      IsFramed w.store
        (append_audit_event env module_name event_type entity payload tenant w).1.store
  unfolding logged
  append_audit_event-IsFramed =
      rw (append_audit_event-eq env module_name event_type entity payload tenant w)
        (elim (Bool-cases (
          hash_taken tenant (next_hash env module_name event_type entity payload tenant w)
            w.store.audit_events.rows)) [ inl taken ↦ rw taken refl | inr free ↦ rw free refl ])

  -- A successful append reads the clock twice.
  pub append_audit_event-ticks :
      {hash : String}
      → (append_audit_event env module_name event_type entity payload tenant w).0 ≡ ok hash
      → (append_audit_event env module_name event_type entity payload tenant w).1.ticks
        ≡ suc (suc w.ticks)
  unfolding logged
  append_audit_event-ticks h =
      ground (arith, append_audit_event-eq env module_name event_type entity payload tenant w)
