-- ===== src/ControlPulse/Life/FourEyes.antt =====
-- src/flagship_lab/controlpulse.py: a case through any sequence of calls of `transition_case`.
use flagship_lab.ControlPulse.Life.Apart.{closed_by, IsApart, other-IsApart, same-IsApart}
use flagship_lab.ControlPulse.Life.Closed.{HasLife-closed}
use flagship_lab.Tx.Bind.{Result-cases}
use mathlib.Core.Path.{subst}
use flagship_lab.ControlPulse.Life.Events.{transition_case-events}
use flagship_lab.ControlPulse.Life.Kept.{transition_case-HasLife}
use flagship_lab.ControlPulse.Life.{of_case, HasLife}
use flagship_lab.ControlPulse.Transition.Decision.{
  transition_case-rollback, transition_case-IsTransitioned,
}
use flagship_lab.Schema.{ControlCaseTransition, ControlCase}
use flagship_lab.Prelude.{
  String, List, All, ℕ, ◌∷◌, select, ◌==◌, [], ◌&&◌, ◌≡◌, false, eqb, some, Bool-cases, arith, ◌∙◌,
  inl, ap, inr, last?, sym, and_true, eq_iff, eqb_iff,
}
use flagship_lab.Tx.{Env, World}
use flagship_lab.ControlPulse.Transition.{join_events, transition_case, is_case}
use flagship_lab.ControlPulse.{ControlPulseService}

-- The arguments of a call, each a transaction of its own.
pub record Call : Type 0 where
  pub service : ControlPulseService
  pub case_id : ℕ
  pub actor : String
  pub to_status : String
  pub reason : String

abbrev pub transition_once : Env → Call → World → World
transition_once env c w = (transition_case env c.service c.case_id c.actor c.to_status c.reason w).1

-- The calls in their order, those that raise included.
unfoldable pub transition_all : Env → List Call → World → World
transition_all env [] w = w
transition_all env (c ∷ cs) w = transition_all env cs (transition_once env c w)

-- What one call keeps of a case, whatever case it is for and however it ends.
transition_case-IsApart :
    (env : Env) (call : Call) (w : World) (tenant : String) (id : ℕ) (reporter : String)
    → IsApart tenant id reporter w.store
    → IsApart tenant id reporter (transition_once env call w).store
transition_case-IsApart env call w tenant id reporter a =
    let done =
      transition_case env call.service call.case_id call.actor call.to_status call.reason w in
    let events =
      transition_case-events env call.service call.case_id call.actor call.to_status call.reason
        w in
    elim (Result-cases done.0) [
      | inr (e, raised) ↦
          rw
            (transition_case-rollback env call.service call.case_id call.actor call.to_status
              call.reason w e raised)
            a
      | inl (result, returned) ↦
          let moved_it =
            transition_case-IsTransitioned env call.service call.case_id call.actor call.to_status
              call.reason w result returned in
          elim (Bool-cases (eqb call.case_id id && call.service.tenant_id == tenant)) [
            | inr differs ↦
                other-IsApart env call.actor (env.upper call.to_status) call.reason reporter w
                  result done.1.store call.service.tenant_id call.case_id moved_it events tenant id
                  differs a
            | inl both ↦
                let (same_id, same_tenant) =
                  and_true (eqb call.case_id id) (call.service.tenant_id == tenant) both in
                let e1 : call.service.tenant_id ≡ tenant =
                  (eq_iff call.service.tenant_id tenant).0 same_tenant in
                let e2 : call.case_id ≡ id = (eqb_iff call.case_id id).0 same_id in
                rw (sym e1, sym e2)
                  (same-IsApart env call.actor (env.upper call.to_status) call.reason reporter w
                    result done.1.store call.service.tenant_id call.case_id moved_it events
                    (rw (e1, e2) a))
          ]
    ]

module _ (env : Env) (tenant : String) (id : ℕ) where
  transition_all-IsApart :
      (reporter : String) (calls : List Call) (w : World)
      → IsApart tenant id reporter w.store
      → IsApart tenant id reporter (transition_all env calls w).store
  unfolding transition_all
  transition_all-IsApart reporter [] w a = a
  transition_all-IsApart reporter (c ∷ cs) w a =
      transition_all-IsApart reporter cs (transition_once env c w)
        (transition_case-IsApart env c w tenant id reporter a)

  transition_all-HasLife :
      (calls : List Call) (w : World)
      → HasLife tenant id w.store
      → HasLife tenant id (transition_all env calls w).store
  unfolding transition_all
  transition_all-HasLife [] w life = life
  transition_all-HasLife (c ∷ cs) w life = transition_all-HasLife cs (transition_once env c w) (
      transition_case-HasLife env c.service c.case_id c.actor c.to_status c.reason w tenant id life)

All-last {ℓ κ} :
    {A : Type ℓ} (P : A → Type κ) (xs : List A) {x : A} → All P xs → last? xs ≡ some x → P x
unfolding last?
All-last P [] h found = absurd (ground arith)
All-last P (y ∷ []) h found = let e : y ≡ _ = ground arith in subst P e h.0
All-last P (y ∷ z ∷ zs) h found = All-last P (z ∷ zs) h.1 found

-- Start from an open case without a history, whose one event has the reporter as its actor. If the
-- case is closed after any sequence of calls of transition_case, for any cases and tenants and
-- whether they return or raise, then the last row of its history moved it from REMEDIATED to CLOSED,
-- by an actor who is not the reporter.
pub transition_all-closed_by :
    (env : Env) (calls : List Call) (w : World) (tenant : String) (id : ℕ) (reporter : String)
    (first final : ControlCase)
    → select (is_case tenant id) w.store.control_cases.rows ≡ first ∷ []
    → first.status ≡ "OPEN"
    → join_events first w.store.control_events.rows
      ≡ record { control_case = first; event_actor = reporter } ∷ []
    → select (of_case tenant id) w.store.control_case_transitions.rows ≡ []
    → select (is_case tenant id) (transition_all env calls w).store.control_cases.rows ≡ final ∷ []
    → final.status ≡ "CLOSED"
    → (t : ControlCaseTransition) × (last? (
          select
            (of_case tenant id)
            (transition_all env calls w).store.control_case_transitions.rows)
        ≡ some t)
      × (t.from_status ≡ "REMEDIATED")
      × (t.to_status ≡ "CLOSED")
      × ((t.actor == reporter) ≡ false)
transition_all-closed_by env calls w tenant id reporter first final only opened joined fresh after
      closed =
    let life =
      transition_all-HasLife env tenant id calls w
        (record { row = first; only_row = only; walked = rw fresh (sym opened) }) in
    let a =
      transition_all-IsApart env tenant id reporter calls w
        (record { row = first; only_row = only; joined = joined; apart = rw fresh tt }) in
    let same : life.row ≡ final = ground (arith, life.only_row, after) in
    let (t, last, from, to) =
      HasLife-closed tenant id (transition_all env calls w).store life
        (ap (λ c. c.status) same ∙ closed) in
    let by : closed_by reporter t ≡ false =
      All-last (λ t. closed_by reporter t ≡ false) _ a.apart last in
    (t, last, from, to, rw to at by)
