-- ===== src/ControlPulse/Transition/Decision.antt =====
-- src/flagship_lab/controlpulse.py, `transition_case`: what a transition requires and writes, and
-- two actors who read the same case.
use flagship_lab.Core.Connect.{connect-rollback, connect-eq-ok}
use flagship_lab.Tx.Bind.{and_then-keeps, and_then-eq-ok, raise_if-ok, raise_if-rollback}
use flagship_lab.Prelude.Text.{str_nat, is_blank}
use flagship_lab.Core.Frame.{IsFramed, append_audit_event-IsFramed}
use flagship_lab.Result.{ok, err, value_error, Failure}
use flagship_lab.Core.{utc_now, append_audit_event, connect}
use flagship_lab.Schema.{ControlCase, set_rows, Store, add_row}
use flagship_lab.Prelude.{
  String, ℕ, select, ◌≡◌, suc, update, [], Bool-cases, select-update-none, sym, some, arith, ap,
  eqb, eqb-next, refl, length, inl, true, inr, ◌==◌, ◌&&◌, false, eqb_iff, Option, none, ◌∙◌,
}
use flagship_lab.Tx.{Env, World}
use flagship_lab.ControlPulse.{ControlPulseService}
use flagship_lab.ControlPulse.Transition.{
  write_transition, decide, transition_case, CaseView, transition_body, Transitioned,
  log_transition, unchanged, read_case, moved, transition_row, allowed, transition_json,
}

-- What a transition by `actor` in `w` needs, and what it leaves in `s`.
pub record IsTransitioned (env : Env) (tenant : String) (case_id : ℕ) (actor target reason : String)
    (w : World) (result : Transitioned) (s : Store) : Type 0 where
  pub view : CaseView
  pub read : read_case tenant case_id w.store ≡ ok (some view)
  pub edge : allowed view.control_case.status target ≡ true
  pub independent : (target == "CLOSED" && actor == view.event_actor) ≡ false
  pub reasoned : is_blank reason ≡ false
  pub single :
      length (select (unchanged tenant case_id view.control_case) w.store.control_cases.rows) ≡ 1
  pub rows :
      s.control_cases.rows
      ≡ update
          (unchanged tenant case_id view.control_case)
          (moved target view.control_case)
          w.store.control_cases.rows
  pub history :
      s.control_case_transitions
      ≡ add_row
          (transition_row tenant case_id view.control_case.status target actor reason
            (env.clock w.ticks))
          w.store.control_case_transitions
  pub returned : result ≡ record {
    case_id = case_id;
    from_status = view.control_case.status;
    to_status = target;
    actor = actor;
  }

module _ (env : Env) (tenant : String) (case_id : ℕ) where
  -- The world in which the audit event of a transition is written.
  abbrev pub noted : String → String → String → String → World → World
  noted actor target reason current w = record w {
    ticks = suc w.ticks;
    store = record w.store {
      control_case_transitions =
          add_row (transition_row tenant case_id current target actor reason (env.clock w.ticks))
            w.store.control_case_transitions;
    };
  }

  log_transition-tables :
      (actor target reason current : String) (w : World)
      → ((log_transition env tenant case_id actor target reason current w).1.store.control_cases
          ≡ w.store.control_cases)
        × ((log_transition env tenant case_id actor target reason current
              w).1.store.control_case_transitions
            ≡ (noted actor target reason current w).store.control_case_transitions)
  unfolding utc_now
  log_transition-tables actor target reason current w =
      let v = noted actor target reason current w in
      let entry =
        append_audit_event env "controlpulse" "CASE_TRANSITIONED" (str_nat case_id)
          (transition_json current target actor reason) tenant v in
      let kept = both v.store entry.1.store (
        append_audit_event-IsFramed env "controlpulse" "CASE_TRANSITIONED" (str_nat case_id)
          (transition_json current target actor reason) tenant v) in
      and_then-keeps
        (λ u.
          (u.store.control_cases ≡ v.store.control_cases)
          × (u.store.control_case_transitions ≡ v.store.control_case_transitions))
        entry _ kept (λ _. kept)
    where
      both :
          (s t : Store)
          → IsFramed s t
          → (t.control_cases ≡ s.control_cases)
            × (t.control_case_transitions ≡ s.control_case_transitions)
      both s t framed = (
        sym (ap (λ s. s.control_cases) framed),
        sym (ap (λ s. s.control_case_transitions) framed),
      )

  log_transition-returned :
      (actor target reason current : String) (w : World) {result : Transitioned}
      → (log_transition env tenant case_id actor target reason current w).0 ≡ ok result
      → result
        ≡ record { case_id = case_id; from_status = current; to_status = target; actor = actor }
  unfolding utc_now
  log_transition-returned actor target reason current w h =
      let (hash, appended, run, returned) =
        and_then-eq-ok
          (append_audit_event env "controlpulse" "CASE_TRANSITIONED" (str_nat case_id)
            (transition_json current target actor reason) tenant
            (noted actor target reason current w))
          _ _ h in
      ground (arith, returned)

  abbrev pub after_update : String → ControlCase → World → World
  after_update target seen w = record w {
    store = record w.store {
      control_cases =
          set_rows
            (update (unchanged tenant case_id seen) (moved target seen) w.store.control_cases.rows)
            w.store.control_cases;
    };
  }

  -- The case table after the update, whatever follows it.
  write_transition-rows :
      (actor target reason : String) (seen : ControlCase) (w : World)
      → (write_transition env tenant case_id actor target reason seen w).1.store.control_cases.rows
        ≡ update (unchanged tenant case_id seen) (moved target seen) w.store.control_cases.rows
  unfolding write_transition utc_now
  write_transition-rows actor target reason seen w =
      elim (Bool-cases
        (eqb (length (select (unchanged tenant case_id seen) w.store.control_cases.rows)) 1)) [
          | inl one_row ↦ rw one_row (
              ap (λ t. t.rows)
                (log_transition-tables actor target reason seen.status
                  (after_update target seen w)).0)
          | inr other ↦ rw other refl
        ]

  write_transition-conflict :
      (actor target reason : String) (seen : ControlCase) (w : World)
      → select (unchanged tenant case_id seen) w.store.control_cases.rows ≡ []
      → (write_transition env tenant case_id actor target reason seen w).0
        ≡ err (value_error "concurrent case transition conflict")
  unfolding write_transition
  write_transition-conflict actor target reason seen w h = rw h refl

  none_unchanged :
      (actor target reason : String) (seen : ControlCase) (w : World)
      → select
          (unchanged tenant case_id seen)
          (write_transition env tenant case_id actor target reason seen
            w).1.store.control_cases.rows
        ≡ []
  none_unchanged actor target reason seen w =
      rw (write_transition-rows actor target reason seen w) (
        select-update-none (unchanged tenant case_id seen) (moved target seen)
          (λ c same. ground (arith, eqb-next seen.version)) w.store.control_cases.rows)

  write_transition-ok :
      (actor target reason : String) (seen : ControlCase) (w : World) {result : Transitioned}
      → (write_transition env tenant case_id actor target reason seen w).0 ≡ ok result
      → (length (select (unchanged tenant case_id seen) w.store.control_cases.rows) ≡ 1)
        × ((write_transition env tenant case_id actor target reason seen
              w).1.store.control_case_transitions
            ≡ (noted actor target reason seen.status w).store.control_case_transitions)
        × (result ≡ record {
          case_id = case_id;
          from_status = seen.status;
          to_status = target;
          actor = actor;
        })
  unfolding write_transition
  write_transition-ok actor target reason seen w h =
      elim (Bool-cases
        (eqb (length (select (unchanged tenant case_id seen) w.store.control_cases.rows)) 1)) [
          | inl one_row ↦ (
            (eqb_iff _ _).0 one_row,
            rw one_row
                (log_transition-tables actor target reason seen.status
                  (after_update target seen w)).1,
            log_transition-returned actor target reason seen.status (after_update target seen w)
                (rw one_row at h),
          )
          | inr other ↦ absurd (ground (arith, rw other at h))
        ]

  decide-ok :
      (actor target reason : String) (view : CaseView) (w : World) {result : Transitioned}
      → (decide env tenant case_id actor target reason (some view) w).0 ≡ ok result
      → (allowed view.control_case.status target ≡ true)
        × ((target == "CLOSED" && actor == view.event_actor) ≡ false)
        × (decide env tenant case_id actor target reason (some view) w
            ≡ write_transition env tenant case_id actor target reason view.control_case w)
  decide-ok actor target reason view w h =
      elim (Bool-cases (allowed view.control_case.status target)) [
        | inl edge ↦ elim (Bool-cases (target == "CLOSED" && actor == view.event_actor)) [
          | inl own ↦ absurd (ground (arith, rw (edge, own) at h))
          | inr apart ↦ (edge, apart, rw (edge, apart) refl)
        ]
        | inr refused ↦ absurd (ground (arith, rw refused at h))
      ]

  -- Two actors have read the same case. When the first has moved it, every move of the second that
  -- the guards let through is refused as a concurrent transition.
  pub transition_race :
      (view : CaseView) (actor actor' target target' reason reason' : String)
      (result : Transitioned) (w : World)
      → (decide env tenant case_id actor target reason (some view) w).0 ≡ ok result
      → allowed view.control_case.status target' ≡ true
      → (target' == "CLOSED" && actor' == view.event_actor) ≡ false
      → (decide env tenant case_id actor' target' reason'
          (some view)
          (decide env tenant case_id actor target reason (some view) w).1).0
        ≡ err (value_error "concurrent case transition conflict")
  transition_race view actor actor' target target' reason reason' result w first edge' apart' =
      let (edge, apart, run) = decide-ok actor target reason view w first in
      rw (run, edge', apart')
        (write_transition-conflict actor' target' reason' view.control_case _
          (none_unchanged actor target reason view.control_case w))

module _ (env : Env) (service : ControlPulseService) (case_id : ℕ) (actor to_status reason : String)
    (w : World) where
  transitioned :
      (found : Option CaseView) (result : Transitioned)
      → is_blank reason ≡ false
      → read_case service.tenant_id case_id w.store ≡ ok found
      → (decide env service.tenant_id case_id actor (env.upper to_status) reason found w).0
        ≡ ok result
      → IsTransitioned env service.tenant_id case_id actor
          (env.upper to_status)
          reason
          w
          result
          (decide env service.tenant_id case_id actor (env.upper to_status) reason found w).1.store
  transitioned none result reasoned read decided = absurd (ground arith)
  transitioned (some view) result reasoned read decided =
      let target = env.upper to_status in
      let (edge, independent, run) =
        decide-ok env service.tenant_id case_id actor target reason view w decided in
      let (single, history, returned) =
        write_transition-ok env service.tenant_id case_id actor target reason view.control_case w
          (rw run at decided) in
      rw run (record {
        view = view;
        read = read;
        edge = edge;
        independent = independent;
        reasoned = reasoned;
        single = single;
        rows =
            write_transition-rows env service.tenant_id case_id actor target reason
              view.control_case w;
        history = history;
        returned = returned;
      })

  -- A transition that returns had a reason, read one case whose status the target may follow, was
  -- not a closing by the actor of the event, changed exactly one row, which is the case at the
  -- version read, to the target and the next version, and added one row to the history.
  pub transition_case-IsTransitioned :
      (result : Transitioned)
      → (transition_case env service case_id actor to_status reason w).0 ≡ ok result
      → IsTransitioned env service.tenant_id case_id actor
          (env.upper to_status)
          reason
          w
          result
          (transition_case env service case_id actor to_status reason w).1.store
  unfolding transition_case
  transition_case-IsTransitioned result h =
      let body = transition_body env service.tenant_id case_id actor (env.upper to_status) reason in
      let (reasoned, run, rest) =
        raise_if-ok (is_blank reason) (value_error "transition reason is required")
          (connect env (some service.tenant_id) body) w h in
      let (committed, returned) = connect-eq-ok env (some service.tenant_id) body w rest in
      let (found, read, decided, final) =
        and_then-eq-ok (read_case service.tenant_id case_id w.store, w)
          (decide env service.tenant_id case_id actor (env.upper to_status) reason) result
          returned in
      rw (run ∙ committed ∙ decided) (transitioned found result reasoned read final)

  -- A transition that raises leaves the database as it was.
  pub transition_case-rollback :
      (e : Failure)
      → (transition_case env service case_id actor to_status reason w).0 ≡ err e
      → (transition_case env service case_id actor to_status reason w).1.store ≡ w.store
  unfolding transition_case
  transition_case-rollback =
      raise_if-rollback (is_blank reason) (value_error "transition reason is required")
        (connect env (some service.tenant_id)
          (transition_body env service.tenant_id case_id actor (env.upper to_status) reason))
        w
        (λ d h.
          connect-rollback env (some service.tenant_id)
            (transition_body env service.tenant_id case_id actor (env.upper to_status) reason) w h)
