-- ===== src/Core/Chain.antt =====
-- src/flagship_lab/core.py, `verify_audit_chain`: what an intact chain is, and that the loop
-- decides it.
use flagship_lab.Prelude.{
  ℕ, suc, ◌+◌, String, ◌≡◌, refl, ◌↔◌, true, false, none, some, List, [], ◌∷◌, ◌++◌, arith, length,
  eq_iff, Bool-cases, Option-cases, inl, inr, ap,
}
use flagship_lab.Json.{Json}
use flagship_lab.Schema.{Store, AuditEvent}
use flagship_lab.Tx.{Env, ok}
use flagship_lab.Core.{
  sha256_json, material, tenant_events, Verdict, check_event, verify_from, verify_audit_chain,
}

-- The hash of an event's row whose payload reads as `payload`.
abbrev pub hash_of : Env → String → AuditEvent → Json → String
hash_of env tenant e payload =
    sha256_json env (
      material tenant e.source_module e.event_type e.entity_id e.occurred_at payload
        e.previous_hash)

-- One link: the payload is readable, the event names its predecessor, and its hash is its own.
pub record Link (env : Env) (tenant : String) (previous : String) (e : AuditEvent) : Type 0 where
  pub payload : Json
  pub readable : env.json_loads e.payload_json ≡ some payload
  pub follows : e.previous_hash ≡ previous
  pub hashed : hash_of env tenant e payload ≡ e.event_hash

abbrev pub Chained : Env → String → String → List AuditEvent → Type 0
Chained env tenant previous [] = Unit
Chained env tenant previous (e ∷ es) =
    Link env tenant previous e × Chained env tenant e.event_hash es

-- The tenant's chain is intact from its start.
abbrev pub IsIntact : Env → String → Store → Type 0
IsIntact env tenant s = Chained env tenant "GENESIS" (tenant_events tenant s)

abbrev pub sound : ℕ → Verdict
sound n = record { valid = true; events = n; broken_hash = none }

module _ (env : Env) (tenant : String) where
  pub verify_from-sound :
      (previous : String) (n : ℕ) (es : List AuditEvent)
      → Chained env tenant previous es
      → verify_from env tenant previous n es ≡ ok (sound (n + length es))
  unfolding verify_from
  verify_from-sound previous n [] h = ground arith
  verify_from-sound previous n (e ∷ es) (link, rest) = ground (
    arith,
    link.readable,
    link.follows,
    link.hashed,
    eq_iff e.previous_hash previous,
    eq_iff (hash_of env tenant e link.payload) e.event_hash,
    verify_from-sound e.event_hash (suc n) es rest,
  )

  accepted-Link :
      (previous : String) (e : AuditEvent) (payload : Json)
      → env.json_loads e.payload_json ≡ some payload
      → check_event env tenant e previous payload ≡ false
      → Link env tenant previous e
  accepted-Link previous e payload read passed = record {
    payload = payload;
    readable = read;
    follows = ground (arith, eq_iff e.previous_hash previous);
    hashed = ground (arith, eq_iff (hash_of env tenant e payload) e.event_hash);
  }

  pub verify_from_complete :
      (previous : String) (n m : ℕ) (es : List AuditEvent)
      → verify_from env tenant previous n es ≡ ok (sound m)
      → Chained env tenant previous es
  unfolding verify_from
  verify_from_complete previous n m [] h = tt
  verify_from_complete previous n m (e ∷ es) h =
      elim (Option-cases (env.json_loads e.payload_json)) [
        | inl unreadable ↦ absurd (ground arith)
        | inr (payload, read) ↦ elim (Bool-cases (check_event env tenant e previous payload)) [
          | inl broken ↦ absurd (ground arith)
          | inr passed ↦ (
            accepted-Link previous e payload read passed,
            verify_from_complete e.event_hash (suc n) m es (ground arith),
          )
        ]
      ]

-- The hash that an event after these must name.
abbrev pub last_hash : String → List AuditEvent → String
last_hash previous [] = previous
last_hash previous (e ∷ es) = last_hash e.event_hash es

-- Where and why a chain breaks: intact events, then one that is no link after them.
pub record Break (env : Env) (tenant previous : String) (n : ℕ) (es : List AuditEvent) (v : Verdict)
    : Type 0 where
  pub intact : List AuditEvent
  pub broken : AuditEvent
  pub later : List AuditEvent
  pub splits : es ≡ intact ++ broken ∷ later
  pub chained : Chained env tenant previous intact
  pub counted : v.events ≡ n + length intact
  pub named : v.broken_hash ≡ some broken.event_hash
  pub no_link : ¬ Link env tenant (last_hash previous intact) broken

module _ (env : Env) (tenant : String) where
  refused-Link :
      (previous : String) (e : AuditEvent) (payload : Json)
      → env.json_loads e.payload_json ≡ some payload
      → check_event env tenant e previous payload ≡ true
      → ¬ Link env tenant previous e
  refused-Link previous e payload read failed link = ground (
    arith,
    link.readable,
    link.follows,
    link.hashed,
    eq_iff e.previous_hash previous,
    eq_iff (hash_of env tenant e payload) e.event_hash,
  )

  verify_from-Break :
      (previous : String) (n : ℕ) (es : List AuditEvent) (v : Verdict)
      → verify_from env tenant previous n es ≡ ok v
      → v.valid ≡ false
      → Break env tenant previous n es v
  unfolding verify_from
  verify_from-Break previous n [] v h f = absurd (ground arith)
  verify_from-Break previous n (e ∷ es) v h f =
      elim (Option-cases (env.json_loads e.payload_json)) [
        | inl unreadable ↦ absurd (ground arith)
        | inr (payload, read) ↦ elim (Bool-cases (check_event env tenant e previous payload)) [
          | inl broken ↦ record {
            intact = [];
            broken = e;
            later = es;
            splits = refl;
            chained = tt;
            counted = ground arith;
            named = ground arith;
            no_link = refused-Link previous e payload read broken;
          }
          | inr passed ↦
              let b = verify_from-Break e.event_hash (suc n) es v (ground arith) f in
              record {
                intact = e ∷ b.intact;
                broken = b.broken;
                later = b.later;
                splits = ap (λ r. e ∷ r) b.splits;
                chained = (accepted-Link env tenant previous e payload read passed, b.chained);
                counted = omega (arith, b.counted);
                named = b.named;
                no_link = b.no_link;
              }
        ]
      ]

  -- The verification accepts all of a tenant's events exactly when their chain is intact.
  pub verify_audit_chain-IsIntact :
      (s : Store)
      → (verify_audit_chain env tenant s ≡ ok (sound (length (tenant_events tenant s))))
        ↔ IsIntact env tenant s
  unfolding verify_audit_chain
  verify_audit_chain-IsIntact s = (
    verify_from_complete env tenant "GENESIS" 0 _ (tenant_events tenant s),
    λ intact. rw (verify_from-sound env tenant "GENESIS" 0 _ intact) (ground arith),
  )

  -- A verdict that is not valid names the first event that is no link after the events before it,
  -- and counts those, which form an intact chain.
  pub verify_audit_chain-Break :
      (s : Store) (v : Verdict)
      → verify_audit_chain env tenant s ≡ ok v
      → v.valid ≡ false
      → Break env tenant "GENESIS" 0 (tenant_events tenant s) v
  unfolding verify_audit_chain
  verify_audit_chain-Break s v h f = verify_from-Break "GENESIS" 0 (tenant_events tenant s) v h f
