-- ===== src/ControlPulse/Life/Events.antt =====
-- src/flagship_lab/controlpulse.py, `transition_case`: the events are only read.
use flagship_lab.Core.Connect.{connect-eq-ok}
use flagship_lab.Prelude.Text.{is_blank, str_nat}
use flagship_lab.ControlPulse.Transition.Decision.{noted, transition_case-rollback, after_update}
use flagship_lab.Core.Frame.{IsFramed, append_audit_event-IsFramed}
use flagship_lab.Tx.Bind.{Result-cases, raise_if-ok, and_then-keeps}
use flagship_lab.Result.{ok, value_error}
use flagship_lab.Schema.{ControlCase, Store}
use flagship_lab.Core.{utc_now, append_audit_event, connect}
use flagship_lab.ControlPulse.Transition.{
  write_transition, log_transition, CaseView, transition_case, decide, Transitioned,
  transition_body, allowed, unchanged, transition_json, read_case,
}
use flagship_lab.Prelude.{
  String, ℕ, Option, ◌≡◌, some, Bool-cases, eqb, inr, length, sym, ap, inl, ◌==◌, select, ◌&&◌,
  none, refl, ◌∙◌,
}
use flagship_lab.ControlPulse.{ControlPulseService}
use flagship_lab.Tx.{Env, World}

module _ (env : Env) (tenant : String) (case_id : ℕ) (actor target reason : String) where
  log_transition-events :
      (current : String) (w : World)
      → (log_transition env tenant case_id actor target reason current w).1.store.control_events
        ≡ w.store.control_events
  unfolding utc_now
  log_transition-events current w =
      let v = noted env tenant case_id actor target reason current w in
      let entry =
        append_audit_event env "controlpulse" "CASE_TRANSITIONED" (str_nat case_id)
          (transition_json current target actor reason) tenant v in
      let kept = same v.store entry.1.store (
        append_audit_event-IsFramed env "controlpulse" "CASE_TRANSITIONED" (str_nat case_id)
          (transition_json current target actor reason) tenant v) in
      and_then-keeps (λ u. u.store.control_events ≡ v.store.control_events) entry _ kept (λ _. kept)
    where
      same : (s t : Store) → IsFramed s t → t.control_events ≡ s.control_events
      same s t framed = sym (ap (λ s. s.control_events) framed)

  write_transition-events :
      (seen : ControlCase) (w : World)
      → (write_transition env tenant case_id actor target reason seen w).1.store.control_events
        ≡ w.store.control_events
  unfolding write_transition
  write_transition-events seen w =
      elim (Bool-cases
        (eqb (length (select (unchanged tenant case_id seen) w.store.control_cases.rows)) 1)) [
          | inl one_row ↦
              rw one_row
                (log_transition-events seen.status (after_update env tenant case_id target seen w))
          | inr other ↦ rw other refl
        ]

  decide-events :
      (found : Option CaseView) (w : World)
      → (decide env tenant case_id actor target reason found w).1.store.control_events
        ≡ w.store.control_events
  decide-events none w = refl
  decide-events (some view) w = elim (Bool-cases (allowed view.control_case.status target)) [
    | inr shut ↦ rw shut refl
    | inl edge ↦ elim (Bool-cases (target == "CLOSED" && actor == view.event_actor)) [
      | inl own ↦ rw (edge, own) refl
      | inr apart ↦ rw (edge, apart) (write_transition-events view.control_case w)
    ]
  ]

module _ (env : Env) (service : ControlPulseService) (case_id : ℕ) (actor to_status reason : String)
    (w : World) where
  returned-events :
      (result : Transitioned)
      → (transition_case env service case_id actor to_status reason w).0 ≡ ok result
      → (transition_case env service case_id actor to_status reason w).1.store.control_events
        ≡ w.store.control_events
  unfolding transition_case
  returned-events result h =
      let body = transition_body env service.tenant_id case_id actor (env.upper to_status) reason in
      let (reasoned, run, rest) =
        raise_if-ok (is_blank reason) (value_error "transition reason is required")
          (connect env (some service.tenant_id) body) w h in
      let (committed, returned) = connect-eq-ok env (some service.tenant_id) body w rest in
      rw (run ∙ committed) (
        and_then-keeps (λ u. u.store.control_events ≡ w.store.control_events)
          (read_case service.tenant_id case_id w.store, w)
          (decide env service.tenant_id case_id actor (env.upper to_status) reason) refl
          (λ found.
            decide-events env service.tenant_id case_id actor (env.upper to_status) reason found w))

  -- No transition changes the table of events.
  pub transition_case-events :
      (transition_case env service case_id actor to_status reason w).1.store.control_events
      ≡ w.store.control_events
  transition_case-events =
      elim (Result-cases (transition_case env service case_id actor to_status reason w).0) [
        | inr (e, raised) ↦
            ap (λ s. s.control_events)
              (transition_case-rollback env service case_id actor to_status reason w e raised)
        | inl (result, returned) ↦ returned-events result returned
      ]
