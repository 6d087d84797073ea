-- ===== src/Examples.antt =====
-- The theorems at concrete inputs: a small environment, and databases with a few rows.
mod Messages
mod Reviews
mod Cases
mod Graphs
mod Access
mod Archives
mod Deployments
mod Releases
mod Requests
mod Governed
mod Scrapes
use flagship_lab.Core.Log.{log_of, recorded, new_entry, append_audit_event-recorded}
use flagship_lab.Result.{ok, Failure, err}
use flagship_lab.Core.Verified.{append_audit_event-IsIntact, verify-append_audit_event}
use flagship_lab.Core.{append_audit_event, verify_audit_chain, Verdict, tenant_events, hash_taken}
use flagship_lab.Taxflow.Replay.{ingested_json}
use flagship_lab.Prelude.Text.{◌<>◌, count}
use flagship_lab.Prelude.{
  refl, [], arith, if◌then◌else◌, ◌==◌, some, none, true, false, ◌∷◌, ap, String, ◌≡◌, length, ◌↔◌,
  ◌⊎◌,
}
use flagship_lab.Schema.{Store, empty_store, AuditEvent}
use flagship_lab.Json.{Json, obj, end}
use flagship_lab.Core.Append.{RoundTrips, HasDigests, next_hash, append_audit_event-eq}
use flagship_lab.Tx.{Env, World}
use flagship_lab.Core.Chain.{
  verify_audit_chain-IsIntact, verify_audit_chain-Break, Break, IsIntact, sound,
}

abbrev pub sample_payload : Json
sample_payload = obj end

-- A digest is the text behind a letter, and the reader knows two texts.
abbrev pub sample_env : Env
sample_env = record {
  sha256_text = λ s. "h" <> s;
  json_loads = λ s.
      if s == "{}"
      then some sample_payload
      else (if s == "{\"ingested\":1}" then some (ingested_json 1) else none);
  clock = λ n. "2026-01-01";
  uuid4 = λ n. "7b0c";
  upper = λ s. s;
  isalnum = λ s. true;
  iso_hour = λ s. some 12;
  str = λ v. "";
  bind_text = λ v. some "";
  postgresql = false;
}

sample_digests : HasDigests sample_env
sample_digests s h = absurd (omega (arith, ap count h))

abbrev pub world_of : Store → World
world_of s = record { store = s; ticks = 0; sent = []; objects = [] }

abbrev pub start : World
start = world_of empty_store

sample_readable : RoundTrips sample_env sample_payload
unfolding flagship_lab.Json.canonical_json
sample_readable = (sample_payload, refl, refl)

abbrev tampered : AuditEvent
tampered = record {
  id = 1;
  tenant_id = "acme";
  source_module = "taxflow";
  event_type = "RUN";
  entity_id = "1";
  occurred_at = "2026-01-01";
  payload_json = "{}";
  previous_hash = "GENESIS";
  event_hash = "f00d";
}

abbrev tampered_store : Store
tampered_store = record empty_store { audit_events = record { rows = tampered ∷ []; next_id = 2 } }

abbrev tampered_verdict : Verdict
tampered_verdict = record { valid = false; events = 0; broken_hash = some "f00d" }

verify_audit_chain-IsIntact_example :
    (verify_audit_chain sample_env "acme" tampered_store
      ≡ ok (sound (length (tenant_events "acme" tampered_store))))
    ↔ IsIntact sample_env "acme" tampered_store
verify_audit_chain-IsIntact_example = verify_audit_chain-IsIntact sample_env "acme" tampered_store

tampered_verified : verify_audit_chain sample_env "acme" tampered_store ≡ ok tampered_verdict
unfolding verify_audit_chain flagship_lab.Prelude.select flagship_lab.Core.sha256_json
    flagship_lab.Json.canonical_json flagship_lab.Core.material flagship_lab.Prelude.Text.str_leb
tampered_verified = refl

verify_audit_chain-Break_example :
    Break sample_env "acme" "GENESIS" 0 (tenant_events "acme" tampered_store) tampered_verdict
verify_audit_chain-Break_example =
    verify_audit_chain-Break sample_env "acme" tampered_store tampered_verdict tampered_verified
      refl

start-IsIntact : IsIntact sample_env "acme" start.store
unfolding tenant_events flagship_lab.Prelude.select
start-IsIntact = tt

append_audit_event-IsIntact_example :
    IsIntact sample_env "acme"
      (append_audit_event sample_env "taxflow" "RUN" "1" sample_payload "acme" start).1.store
append_audit_event-IsIntact_example =
    append_audit_event-IsIntact sample_env sample_digests "taxflow" "RUN" "1" sample_payload "acme"
      start "acme" sample_readable start-IsIntact

start_verified : verify_audit_chain sample_env "acme" start.store ≡ ok (sound 0)
unfolding verify_audit_chain flagship_lab.Prelude.select
start_verified = refl

abbrev first_hash : String
first_hash = next_hash sample_env "taxflow" "RUN" "1" sample_payload "acme" start

first_appended :
    (append_audit_event sample_env "taxflow" "RUN" "1" sample_payload "acme" start).0
    ≡ ok first_hash
unfolding hash_taken
first_appended =
    rw (append_audit_event-eq sample_env "taxflow" "RUN" "1" sample_payload "acme" start) refl

verify-append_audit_event_example :
    verify_audit_chain sample_env "acme"
      (append_audit_event sample_env "taxflow" "RUN" "1" sample_payload "acme" start).1.store
    ≡ ok (sound 1)
verify-append_audit_event_example =
    verify-append_audit_event sample_env sample_digests "taxflow" "RUN" "1" sample_payload "acme"
      start 0 first_hash sample_readable start_verified first_appended

append_audit_event-recorded_example :
    ((hash : String) × ((append_audit_event sample_env "taxflow" "RUN" "1" sample_payload "acme"
          start).0
        ≡ ok hash)
      × (log_of "acme"
            (append_audit_event sample_env "taxflow" "RUN" "1" sample_payload "acme" start).1.store
          ≡ recorded "acme"
              (new_entry sample_env "taxflow" "RUN" "1" sample_payload "acme" start)
              (λ t. log_of t start.store)
              "acme"))
    ⊎ ((e : Failure) × ((append_audit_event sample_env "taxflow" "RUN" "1" sample_payload "acme"
            start).0
          ≡ err e)
        × (log_of "acme"
              (append_audit_event sample_env "taxflow" "RUN" "1" sample_payload "acme"
                start).1.store
            ≡ log_of "acme" start.store))
append_audit_event-recorded_example =
    append_audit_event-recorded sample_env "taxflow" "RUN" "1" sample_payload "acme" start "acme"
