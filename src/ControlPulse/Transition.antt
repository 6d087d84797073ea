-- ===== src/ControlPulse/Transition.antt =====
-- src/flagship_lab/controlpulse.py, `transition_case`, `open_cases` and `case_history`: the life of
-- a case. The method reads the case, decides, and writes under the status and version that it read.
pub mod Decision
use flagship_lab.Prelude.Text.{is_blank, ◌<>◌, str_nat}
use flagship_lab.ControlPulse.{ControlPulseService}
use flagship_lab.Json.{obj, field, text, end, Json}
use flagship_lab.Schema.{
  ControlCase, Store, ControlCaseTransition, ControlEventRow, set_rows, add_row,
}
use flagship_lab.Tx.{
  Env, Tx, Result, raise, raise_if, one_or_none, gets, value_error, lift, modify, pure, ◌>>=◌, ◌>>◌,
}
use flagship_lab.Core.{utc_now, connect, append_audit_event}
use flagship_lab.Prelude.{
  String, ℕ, Bool, List, Option, eqb, ◌==◌, ◌&&◌, ◌∷◌, ◌||◌, some, ◌++◌, select, length, not, [],
  none, update, ◌+◌, if◌then◌else◌,
}

abbrev pub allowed : String → String → Bool
allowed current target =
    current == "OPEN" && target == "IN_REVIEW"
    || current == "IN_REVIEW" && target == "REMEDIATED"
    || current == "REMEDIATED" && target == "CLOSED"
    || current == "CLOSED" && target == "OPEN"

-- A case with the actor of its event, as the join returns it.
pub record CaseView : Type 0 where
  pub control_case : ControlCase
  pub event_actor : String

abbrev pub is_case : String → ℕ → ControlCase → Bool
is_case tenant id c = eqb c.id id && c.tenant_id == tenant

unfoldable pub join_events : ControlCase → List ControlEventRow → List CaseView
join_events c [] = []
join_events c (e ∷ es) =
    let rest = join_events c es in
    if e.tenant_id == c.tenant_id && e.event_id == c.event_id
    then record { control_case = c; event_actor = e.actor } ∷ rest
    else rest

unfoldable pub join_cases : List ControlCase → List ControlEventRow → List CaseView
unfolding join_events
join_cases [] es = []
join_cases (c ∷ cs) es = join_events c es ++ join_cases cs es

unfoldable pub read_case : String → ℕ → Store → Result (Option CaseView)
unfolding join_cases
read_case tenant id s =
    one_or_none (join_cases (select (is_case tenant id) s.control_cases.rows) s.control_events.rows)

-- The rows that the update may touch: unchanged since the case was read.
abbrev pub unchanged : String → ℕ → ControlCase → ControlCase → Bool
unchanged tenant id seen c =
    eqb c.id id && c.tenant_id == tenant && c.status == seen.status && eqb c.version seen.version

pub record Transitioned : Type 0 where
  pub case_id : ℕ
  pub from_status : String
  pub to_status : String
  pub actor : String

abbrev pub transition_row :
    String → ℕ → String → String → String → String → String → ℕ → ControlCaseTransition
transition_row tenant case_id current target actor reason now id = record {
  id = id;
  tenant_id = tenant;
  case_id = case_id;
  from_status = current;
  to_status = target;
  actor = actor;
  reason = reason;
  occurred_at = now;
}

abbrev pub transition_json : String → String → String → String → Json
transition_json current target actor reason = obj (
    field "from" (text current)
      (field "to" (text target) (field "actor" (text actor) (field "reason" (text reason) end))))

-- From the insert of the history row to the end of the method.
abbrev pub log_transition : Env → String → ℕ → String → String → String → String → Tx Transitioned
log_transition env tenant case_id actor target reason current = do
  occurred_at ← utc_now env
  modify (λ s. record s {
    control_case_transitions =
        add_row (transition_row tenant case_id current target actor reason occurred_at)
          s.control_case_transitions;
  })
  append_audit_event env "controlpulse" "CASE_TRANSITIONED" (str_nat case_id)
      (transition_json current target actor reason) tenant
  pure (record { case_id = case_id; from_status = current; to_status = target; actor = actor })

abbrev pub moved : String → ControlCase → ControlCase → ControlCase
moved target seen c = record c { status = target; version = seen.version + 1 }

-- From the update to the end of the method.
unfoldable pub write_transition :
    Env → String → ℕ → String → String → String → ControlCase → Tx Transitioned
unfolding utc_now
write_transition env tenant case_id actor target reason seen = do
  touched ← gets (λ s. length (select (unchanged tenant case_id seen) s.control_cases.rows))
  modify (λ s. record s {
    control_cases =
        set_rows (update (unchanged tenant case_id seen) (moved target seen) s.control_cases.rows)
          s.control_cases;
  })
  raise_if (not (eqb touched 1)) (value_error "concurrent case transition conflict")
  log_transition env tenant case_id actor target reason seen.status

-- The guards between the read and the update.
abbrev pub decide : Env → String → ℕ → String → String → String → Option CaseView → Tx Transitioned
decide env tenant case_id actor target reason none = raise (value_error "unknown case_id")
decide env tenant case_id actor target reason (some view) = do
  let current = view.control_case.status
  raise_if (not (allowed current target))
      (value_error ("invalid transition " <> current <> "->" <> target))
  raise_if (target == "CLOSED" && actor == view.event_actor)
      (value_error "four-eyes control requires an independent closer")
  write_transition env tenant case_id actor target reason view.control_case

abbrev pub transition_body : Env → String → ℕ → String → String → String → Tx Transitioned
transition_body env tenant case_id actor target reason = do
  found ← gets (read_case tenant case_id)
  view ← lift found
  decide env tenant case_id actor target reason view

unfoldable pub transition_case :
    Env → ControlPulseService → ℕ → String → String → String → Tx Transitioned
transition_case env service case_id actor to_status reason = do
  raise_if (is_blank reason) (value_error "transition reason is required")
  connect env (some service.tenant_id)
      (transition_body env service.tenant_id case_id actor (env.upper to_status) reason)

unfoldable pub open_cases : Env → ControlPulseService → Tx (List ControlCase)
open_cases env service = connect env (some service.tenant_id) (
    gets (λ s.
      select (λ c. c.tenant_id == service.tenant_id && not (c.status == "CLOSED"))
        s.control_cases.rows))

unfoldable pub case_history : Env → ControlPulseService → ℕ → Tx (List ControlCaseTransition)
case_history env service case_id = connect env (some service.tenant_id) (
    gets (λ s.
      select (λ t. t.tenant_id == service.tenant_id && eqb t.case_id case_id)
        s.control_case_transitions.rows))
