-- ===== src/ControlPulse/Life/Closed.antt =====
-- src/flagship_lab/controlpulse.py: how a case that is closed was closed.
use flagship_lab.ControlPulse.Life.{Walk, HasLife, of_case}
use flagship_lab.Schema.{ControlCaseTransition, Store}
use flagship_lab.ControlPulse.Transition.{allowed}
use flagship_lab.Prelude.{
  String, List, ℕ, select, ◌≡◌, ◌==◌, true, ◌∷◌, [], false, ◌∙◌, arith, inl, inr, ap, refl, eq_iff,
  some, last?, ◌⊎◌,
}

Walk-last :
    (start final : String) (ts : List ControlCaseTransition)
    → Walk start ts final
    → ((ts ≡ []) × (start ≡ final))
      ⊎ ((t : ControlCaseTransition) × (last? ts ≡ some t)
          × (allowed t.from_status t.to_status ≡ true)
          × (t.to_status ≡ final))
unfolding last?
Walk-last start final [] w = inl (refl, w)
Walk-last start final (t ∷ []) w = inr (t, refl, rw w.0 w.1, w.2)
Walk-last start final (t ∷ u ∷ ts) w = elim (Walk-last t.to_status final (u ∷ ts) w.2) [
  | inl (empty, same) ↦ absurd (ground arith)
  | inr found ↦ inr found
]

allowed-closed : (from : String) → allowed from "CLOSED" ≡ true → from ≡ "REMEDIATED"
allowed-closed from h = ground (arith, eq_iff from "REMEDIATED")

-- A case that is closed, and whose history leads from OPEN to its status, was closed by the last
-- row of its history, from REMEDIATED.
pub HasLife-closed :
    (tenant : String) (id : ℕ) (s : Store) (life : HasLife tenant id s)
    → life.row.status ≡ "CLOSED"
    → (t : ControlCaseTransition) × (last?
          (select (of_case tenant id) s.control_case_transitions.rows)
        ≡ some t)
      × (t.from_status ≡ "REMEDIATED")
      × (t.to_status ≡ "CLOSED")
HasLife-closed tenant id s life closed = elim (Walk-last "OPEN" life.row.status _ life.walked) [
  | inl (empty, same) ↦
      let bad : true ≡ false = ap (λ s. s == "OPEN") (same ∙ closed) in absurd (ground arith)
  | inr (t, last, edge, to) ↦
      (t, last, allowed-closed t.from_status (rw (to ∙ closed) at edge), to ∙ closed)
]
