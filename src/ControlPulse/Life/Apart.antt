-- ===== src/ControlPulse/Life/Apart.antt =====
-- src/flagship_lab/controlpulse.py, `transition_case`: the reporter of a case does not close it.
use flagship_lab.ControlPulse.Life.Kept.{own_row, foreign_row}
use flagship_lab.ControlPulse.Life.{of_case, other_row, updated_row}
use flagship_lab.Result.{ok}
use flagship_lab.ControlPulse.Transition.Decision.{IsTransitioned}
use flagship_lab.Schema.{ControlCaseTransition, ControlCase, Store, ControlEventRow}
use flagship_lab.Prelude.{
  String, List, All, ℕ, ◌++◌, Bool, ◌∷◌, select, ◌==◌, [], ◌&&◌, ◌≡◌, false, map, eqb, some,
  Bool-cases, arith, select-last, ◌∙◌, inl, ap, select-last-other, refl, inr,
}
use flagship_lab.Tx.{Env, World}
use flagship_lab.ControlPulse.Transition.{
  join_events, read_case, join_cases, Transitioned, moved, CaseView, is_case, transition_row,
}

-- A row of a history that closes the case, by the actor of its event.
abbrev pub closed_by : String → ControlCaseTransition → Bool
closed_by reporter t = t.to_status == "CLOSED" && t.actor == reporter

-- One row has the id in the tenant, one event is its event, whose actor is the reporter, and no row
-- of its history is a closing by the reporter.
pub record IsApart (tenant : String) (id : ℕ) (reporter : String) (s : Store) : Type 0 where
  pub row : ControlCase
  pub only_row : select (is_case tenant id) s.control_cases.rows ≡ row ∷ []
  pub joined :
      join_events row s.control_events.rows
      ≡ record { control_case = row; event_actor = reporter } ∷ []
  pub apart :
      All
        (λ t. closed_by reporter t ≡ false)
        (select (of_case tenant id) s.control_case_transitions.rows)

-- A case that has moved is joined with the same events.
join_events-moved :
    (target : String) (c : ControlCase) (es : List ControlEventRow)
    → join_events (moved target c c) es
      ≡ map
          (λ v. record { control_case = moved target c c; event_actor = v.event_actor })
          (join_events c es)
unfolding join_events
join_events-moved target c [] = refl
join_events-moved target c (e ∷ es) =
    elim (Bool-cases (e.tenant_id == c.tenant_id && e.event_id == c.event_id)) [
      | inl here ↦ rw here (
          ap (λ vs. record { control_case = moved target c c; event_actor = e.actor } ∷ vs)
            (join_events-moved target c es))
      | inr other ↦ rw other (join_events-moved target c es)
    ]

All-append {ℓ κ} :
    {A : Type ℓ} (P : A → Type κ) (xs : List A) (x : A) → All P xs → P x → All P (xs ++ x ∷ [])
All-append P [] x h hx = (hx, tt)
All-append P (y ∷ ys) x h hx = (h.0, All-append P ys x h.1 hx)

seen_view :
    (tenant : String) (id : ℕ) (s : Store) (view : CaseView) (c : ControlCase) (reporter : String)
    → read_case tenant id s ≡ ok (some view)
    → select (is_case tenant id) s.control_cases.rows ≡ c ∷ []
    → join_events c s.control_events.rows ≡ record { control_case = c; event_actor = reporter } ∷ []
    → view ≡ record { control_case = c; event_actor = reporter }
unfolding read_case join_cases
seen_view tenant id s view c reporter read only joined = ground (arith, rw (only, joined) at read)

module _ (env : Env) (actor target reason reporter : String) (w : World) (result : Transitioned)
    (s : Store) (tenant : String) (id : ℕ)
    (moved_it : IsTransitioned env tenant id actor target reason w result s)
    (same_events : s.control_events ≡ w.store.control_events) where
  pub same-IsApart : IsApart tenant id reporter w.store → IsApart tenant id reporter s
  same-IsApart a =
      let c = a.row in
      let same =
        seen_view tenant id w.store moved_it.view c reporter moved_it.read a.only_row a.joined in
      let new_row =
        transition_row tenant id c.status target actor reason (env.clock w.ticks)
          w.store.control_case_transitions.next_id in
      let by : (target == "CLOSED" && actor == reporter) ≡ false =
        rw same at moved_it.independent in
      record {
        row = moved target c c;
        only_row =
            rw (moved_it.rows, same)
              (updated_row tenant id target c w.store.control_cases.rows a.only_row);
        joined =
            rw (same_events, join_events-moved target c w.store.control_events.rows, a.joined) refl;
        apart =
            rw (moved_it.history, same)
              (rw
                (select-last (of_case tenant id) w.store.control_case_transitions.rows new_row
                  (own_row tenant id new_row refl refl))
                (All-append (λ t. closed_by reporter t ≡ false) _ new_row a.apart by));
      }

  pub other-IsApart :
      (tenant' : String) (id' : ℕ)
      → (eqb id id' && tenant == tenant') ≡ false
      → IsApart tenant' id' reporter w.store
      → IsApart tenant' id' reporter s
  other-IsApart tenant' id' differs a = record {
    row = a.row;
    only_row = rw moved_it.rows (
        other_row tenant id target moved_it.view.control_case tenant' id' w.store.control_cases.rows
          differs
        ∙ a.only_row);
    joined = rw same_events a.joined;
    apart = rw (moved_it.history) (
        rw
          (select-last-other (of_case tenant' id') w.store.control_case_transitions.rows
            (transition_row tenant id moved_it.view.control_case.status target actor reason
              (env.clock w.ticks) w.store.control_case_transitions.next_id)
            (foreign_row tenant tenant' id id' differs))
          a.apart);
  }
