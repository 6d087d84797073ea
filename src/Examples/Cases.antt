-- ===== src/Examples/Cases.antt =====
-- The theorems on cases, at one open case.
use flagship_lab.ControlPulse.Life.FourEyes.{transition_all, Call, transition_all-closed_by}
use flagship_lab.ControlPulse.Life.{HasLife, of_case}
use flagship_lab.ControlPulse.Life.Kept.{transition_case-HasLife}
use flagship_lab.Result.{err, ok, value_error}
use flagship_lab.Prelude.{some, ◌≡◌, refl, ◌∷◌, [], last?, String, select, List, all, ◌==◌, false}
use flagship_lab.Schema.{ControlCase, ControlEventRow, Store, empty_store, ControlCaseTransition}
use flagship_lab.Examples.{sample_env, world_of}
use flagship_lab.ControlPulse.{ControlPulseService}
use flagship_lab.ControlPulse.Transition.{
  CaseView, Transitioned, transition_case, decide, is_case, join_events,
}
use flagship_lab.ControlPulse.Transition.Decision.{
  IsTransitioned, transition_case-IsTransitioned, transition_race,
}

abbrev acme : ControlPulseService
acme = record { tenant_id = "acme" }

abbrev open_case : ControlCase
open_case = record {
  id = 1;
  tenant_id = "acme";
  event_id = "ev-1";
  control_id = "CM-APPROVAL-001";
  severity = "HIGH";
  explanation = "";
  evidence_hash = "f00d";
  status = "OPEN";
  version = 1;
}

abbrev deployment : ControlEventRow
deployment = record {
  id = 1;
  tenant_id = "acme";
  event_id = "ev-1";
  event_type = "DEPLOYMENT";
  actor = "ann";
  resource = "api";
  occurred_at = "2026-01-01";
  approved = 0;
  privileged = 0;
  outcome = "SUCCESS";
  payload_json = "{}";
  evidence_hash = "f00d";
}

abbrev case_store : Store
case_store = record empty_store {
  control_events = record { rows = deployment ∷ []; next_id = 2 };
  control_cases = record { rows = open_case ∷ []; next_id = 2 };
}

abbrev taken_up : Transitioned
taken_up = record { case_id = 1; from_status = "OPEN"; to_status = "IN_REVIEW"; actor = "bob" }

taken_up_run :
    (transition_case sample_env acme 1 "bob" "IN_REVIEW" "triage" (world_of case_store)).0
    ≡ ok taken_up
unfolding transition_case flagship_lab.Prelude.Text.is_blank flagship_lab.Core.connect
    flagship_lab.ControlPulse.Transition.read_case flagship_lab.Prelude.select
    flagship_lab.ControlPulse.Transition.write_transition flagship_lab.Core.append_audit_event
    flagship_lab.Core.hash_taken
taken_up_run = refl

transition_case-IsTransitioned_example :
    IsTransitioned sample_env "acme" 1 "bob" "IN_REVIEW" "triage"
      (world_of case_store)
      taken_up
      (transition_case sample_env acme 1 "bob" "IN_REVIEW" "triage" (world_of case_store)).1.store
transition_case-IsTransitioned_example =
    transition_case-IsTransitioned sample_env acme 1 "bob" "IN_REVIEW" "triage"
      (world_of case_store) taken_up taken_up_run

abbrev view : CaseView
view = record { control_case = open_case; event_actor = "ann" }

case_decided :
    (decide sample_env "acme" 1 "bob" "IN_REVIEW" "triage" (some view) (world_of case_store)).0
    ≡ ok taken_up
unfolding flagship_lab.ControlPulse.Transition.write_transition flagship_lab.Prelude.select
    flagship_lab.Core.append_audit_event flagship_lab.Core.hash_taken
case_decided = refl

transition_race_example :
    (decide sample_env "acme" 1 "eve" "IN_REVIEW" "mine"
      (some view)
      (decide sample_env "acme" 1 "bob" "IN_REVIEW" "triage" (some view) (world_of case_store)).1).0
    ≡ err (value_error "concurrent case transition conflict")
transition_race_example =
    transition_race sample_env "acme" 1 view "bob" "eve" "IN_REVIEW" "IN_REVIEW" "triage" "mine"
      taken_up (world_of case_store) case_decided refl refl

closing_refused :
    (transition_case sample_env acme 1 "bob" "CLOSED" "done" (world_of case_store)).0
    ≡ err (value_error "invalid transition OPEN->CLOSED")
unfolding transition_case flagship_lab.Prelude.Text.is_blank flagship_lab.Core.connect
    flagship_lab.ControlPulse.Transition.read_case flagship_lab.Prelude.select
closing_refused = refl

open_case_life : HasLife "acme" 1 case_store
unfolding flagship_lab.Prelude.select
open_case_life = record { row = open_case; only_row = refl; walked = refl }

transition_case-HasLife_example :
    HasLife "acme" 1
      (transition_case sample_env acme 1 "bob" "IN_REVIEW" "triage" (world_of case_store)).1.store
transition_case-HasLife_example =
    transition_case-HasLife sample_env acme 1 "bob" "IN_REVIEW" "triage" (world_of case_store)
      "acme" 1 open_case_life

abbrev call_by : String → String → Call
call_by actor target = record {
  service = acme;
  case_id = 1;
  actor = actor;
  to_status = target;
  reason = "done";
}

-- The third call is refused: ann is the actor of the event.
abbrev four_calls : List Call
four_calls =
    call_by "bob" "IN_REVIEW"
    ∷ call_by "bob" "REMEDIATED"
    ∷ call_by "ann" "CLOSED"
    ∷ call_by "eve" "CLOSED"
    ∷ []

abbrev closed_case : ControlCase
closed_case = record open_case { status = "CLOSED"; version = 4 }

first_selected : select (is_case "acme" 1) case_store.control_cases.rows ≡ open_case ∷ []
unfolding select
first_selected = refl

first_joined : join_events open_case case_store.control_events.rows ≡ view ∷ []
unfolding join_events
first_joined = refl

no_history : select (of_case "acme" 1) case_store.control_case_transitions.rows ≡ []
unfolding select
no_history = refl

finally_closed :
    select
      (is_case "acme" 1)
      (transition_all sample_env four_calls (world_of case_store)).store.control_cases.rows
    ≡ closed_case ∷ []
unfolding transition_all transition_case flagship_lab.Prelude.Text.is_blank
    flagship_lab.Core.connect flagship_lab.ControlPulse.Transition.read_case
    flagship_lab.Prelude.select flagship_lab.ControlPulse.Transition.write_transition
    flagship_lab.Core.append_audit_event flagship_lab.Core.hash_taken flagship_lab.Prelude.update
    flagship_lab.Json.canonical_json flagship_lab.Core.material flagship_lab.Prelude.Text.str_leb
    flagship_lab.Prelude.Text.str_nat last?
finally_closed = refl

transition_all-closed_by_example :
    (t : ControlCaseTransition) × (last? (
        select
          (of_case "acme" 1)
          (transition_all sample_env four_calls
            (world_of case_store)).store.control_case_transitions.rows)
      ≡ some t)
    × (t.from_status ≡ "REMEDIATED")
    × (t.to_status ≡ "CLOSED")
    × ((t.actor == "ann") ≡ false)
transition_all-closed_by_example =
    transition_all-closed_by sample_env four_calls (world_of case_store) "acme" 1 "ann" open_case
      closed_case first_selected refl first_joined no_history finally_closed refl
