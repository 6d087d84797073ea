-- ===== src/ControlPulse/Life/Kept.antt =====
-- src/flagship_lab/controlpulse.py, `transition_case`: every case keeps its history through every
-- transition.
use flagship_lab.ControlPulse.Life.{
  join_events-case, HasLife, of_case, Walk-append, other_row, updated_row,
}
use flagship_lab.ControlPulse.{ControlPulseService}
use flagship_lab.Tx.Bind.{one_or_none-some, Result-cases}
use flagship_lab.ControlPulse.Transition.Decision.{
  IsTransitioned, transition_case-rollback, transition_case-IsTransitioned,
}
use flagship_lab.Result.{ok}
use flagship_lab.Tx.{Env, World}
use flagship_lab.Schema.{ControlCase, ControlCaseTransition, Store}
use flagship_lab.ControlPulse.Transition.{
  join_events, is_case, CaseView, moved, read_case, join_cases, Transitioned, transition_row,
  transition_case,
}
use flagship_lab.Prelude.{
  String, ℕ, select, ◌≡◌, ◌==◌, true, ◌&&◌, ◌∷◌, ◌++◌, [], eqb, false, Bool-cases, ◌∙◌, arith, sym,
  inl, inr, ap, refl, eq_refl, eqb_refl, and_true, eq_iff, some, select-last, select-last-other,
  eqb_iff,
}

pub own_row :
    (tenant : String) (id : ℕ) (t : ControlCaseTransition)
    → t.tenant_id ≡ tenant
    → t.case_id ≡ id
    → of_case tenant id t ≡ true
own_row tenant id t a b = rw a (rw b (rw (eq_refl tenant) (eqb_refl id)))

pub foreign_row :
    (tenant tenant' : String) (id id' : ℕ)
    → (eqb id id' && tenant == tenant') ≡ false
    → (tenant == tenant' && eqb id id') ≡ false
foreign_row tenant tenant' id id' h = ground arith

seen_case :
    (tenant : String) (id : ℕ) (s : Store) (view : CaseView) (c : ControlCase)
    → read_case tenant id s ≡ ok (some view)
    → select (is_case tenant id) s.control_cases.rows ≡ c ∷ []
    → view.control_case ≡ c
unfolding read_case join_cases
seen_case tenant id s view c read only =
    join_events-case c s.control_events.rows []
      (one_or_none-some (join_events c s.control_events.rows ++ []) (rw only at read))

module _ (env : Env) (actor target reason : String) (w : World) (result : Transitioned) (s : Store)
    (tenant : String) (id : ℕ)
    (moved_it : IsTransitioned env tenant id actor target reason w result s) where
  same_life : HasLife tenant id w.store → HasLife tenant id s
  unfolding select
  same_life life =
      let c = moved_it.view.control_case in
      let same = seen_case tenant id w.store moved_it.view life.row moved_it.read life.only_row in
      let only : select (is_case tenant id) w.store.control_cases.rows ≡ c ∷ [] =
        life.only_row ∙ ap (λ x. x ∷ []) (sym same) in
      let new_row =
        transition_row tenant id c.status target actor reason (env.clock w.ticks)
          w.store.control_case_transitions.next_id in
      let before = select (of_case tenant id) w.store.control_case_transitions.rows in
      let walk =
        Walk-append "OPEN" c.status before new_row (rw (sym same) at life.walked) refl
          moved_it.edge in
      record {
        row = moved target c c;
        only_row =
            rw moved_it.rows (updated_row tenant id target c w.store.control_cases.rows only);
        walked = rw (moved_it.history) (
            rw
              (select-last (of_case tenant id) w.store.control_case_transitions.rows new_row
                (own_row tenant id new_row refl refl))
              walk);
      }

  other_life :
      (tenant' : String) (id' : ℕ)
      → (eqb id id' && tenant == tenant') ≡ false
      → HasLife tenant' id' w.store
      → HasLife tenant' id' s
  other_life tenant' id' differs life = record {
    row = life.row;
    only_row = rw moved_it.rows (
        other_row tenant id target moved_it.view.control_case tenant' id' w.store.control_cases.rows
          differs
        ∙ life.only_row);
    walked = rw (moved_it.history) (
        rw
          (select-last-other (of_case tenant' id') w.store.control_case_transitions.rows
            (transition_row tenant id moved_it.view.control_case.status target actor reason
              (env.clock w.ticks) w.store.control_case_transitions.next_id)
            (foreign_row tenant tenant' id id' differs))
          life.walked);
  }

-- Every case of the database keeps a history that leads from OPEN to its status, whatever a
-- transition of any case does: where the transition returns, and where it raises.
pub transition_case-HasLife :
    (env : Env) (service : ControlPulseService) (case_id : ℕ) (actor to_status reason : String)
    (w : World) (tenant : String) (id : ℕ)
    → HasLife tenant id w.store
    → HasLife tenant id (transition_case env service case_id actor to_status reason w).1.store
transition_case-HasLife env service case_id actor to_status reason w tenant id life =
    let done = transition_case env service case_id actor to_status reason w in
    elim (Result-cases done.0) [
      | inr (e, raised) ↦
          rw (transition_case-rollback env service case_id actor to_status reason w e raised) life
      | inl (result, returned) ↦
          let moved_it =
            transition_case-IsTransitioned env service case_id actor to_status reason w result
              returned in
          elim (Bool-cases (eqb case_id id && service.tenant_id == tenant)) [
            | inr differs ↦
                other_life env actor (env.upper to_status) reason w result done.1.store
                  service.tenant_id case_id moved_it tenant id differs life
            | inl both ↦
                let (same_id, same_tenant) =
                  and_true (eqb case_id id) (service.tenant_id == tenant) both in
                let e1 : service.tenant_id ≡ tenant =
                  (eq_iff service.tenant_id tenant).0 same_tenant in
                let e2 : case_id ≡ id = (eqb_iff case_id id).0 same_id in
                rw (sym e1, sym e2)
                  (same_life env actor (env.upper to_status) reason w result done.1.store
                    service.tenant_id case_id moved_it (rw (e1, e2) life))
          ]
    ]
