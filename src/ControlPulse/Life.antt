-- ===== src/ControlPulse/Life.antt =====
-- src/flagship_lab/controlpulse.py: the history of a case is a walk through the statuses from OPEN
-- to the status that the case has.
pub mod Kept
pub mod Closed
pub mod Events
pub mod Apart
pub mod FourEyes
use flagship_lab.Schema.{ControlCase, ControlCaseTransition, Store, ControlEventRow}
use flagship_lab.ControlPulse.Transition.{join_events, is_case, allowed, CaseView, unchanged, moved}
use flagship_lab.Prelude.{
  String, Bool, List, ℕ, select, update, ◌≡◌, ◌==◌, true, ◌&&◌, ◌∷◌, ◌++◌, [], eqb, false,
  Bool-cases, ◌∙◌, arith, sym, inl, inr, ap, refl, select-update, select-head, eq_refl, eqb_refl,
  and_true, eq_iff,
}

-- A history that leads from one status to another along allowed edges.
abbrev pub Walk : String → List ControlCaseTransition → String → Type 0
Walk start [] final = start ≡ final
Walk start (t ∷ ts) final =
    (t.from_status ≡ start) × (allowed start t.to_status ≡ true) × Walk t.to_status ts final

abbrev pub of_case : String → ℕ → ControlCaseTransition → Bool
of_case tenant id t = t.tenant_id == tenant && eqb t.case_id id

-- One row has the id in the tenant, and its history leads from OPEN to its status.
pub record HasLife (tenant : String) (id : ℕ) (s : Store) : Type 0 where
  pub row : ControlCase
  pub only_row : select (is_case tenant id) s.control_cases.rows ≡ row ∷ []
  pub walked : Walk "OPEN" (select (of_case tenant id) s.control_case_transitions.rows) row.status

pub Walk-append :
    (start current : String) (ts : List ControlCaseTransition) (t : ControlCaseTransition)
    → Walk start ts current
    → t.from_status ≡ current
    → allowed current t.to_status ≡ true
    → Walk start (ts ++ t ∷ []) t.to_status
Walk-append start current [] t w from edge = (from ∙ sym w, rw w edge, refl)
Walk-append start current (u ∷ us) t w from edge =
    (w.0, w.1, Walk-append u.to_status current us t w.2 from edge)

pub join_events-case :
    (c : ControlCase) (es : List ControlEventRow) (rest : List CaseView) {v : CaseView}
    → join_events c es ++ [] ≡ v ∷ []
    → v.control_case ≡ c
unfolding join_events
join_events-case c [] rest h = absurd (ground arith)
join_events-case c (e ∷ es) rest h =
    elim (Bool-cases (e.tenant_id == c.tenant_id && e.event_id == c.event_id)) [
      | inl joined ↦ ground (arith, rw joined at h)
      | inr other ↦ join_events-case c es rest (rw other at h)
    ]

module _ {A : Type 0} (p q : A → Bool) (f : A → A) where
  -- An update leaves the rows that another test selects.
  pub update-select-other :
      ((x : A) → q x ≡ true → p x ≡ false) → (xs : List A) → update p f (select q xs) ≡ select q xs
  unfolding select update
  update-select-other h [] = refl
  update-select-other h (x ∷ xs) = elim (Bool-cases (q x)) [
    | inl holds ↦ rw holds (rw (h x holds) (ap (λ ys. x ∷ ys) (update-select-other h xs)))
    | inr fails ↦ rw fails (update-select-other h xs)
  ]

pub update-one :
    {A : Type 0} (p : A → Bool) (f : A → A) (x : A) → p x ≡ true → update p f (x ∷ []) ≡ f x ∷ []
unfolding update
update-one p f x h = rw h refl

module _ (tenant : String) (id : ℕ) (target : String) (seen : ControlCase) where
  pub unchanged-seen : is_case tenant id seen ≡ true → unchanged tenant id seen seen ≡ true
  unchanged-seen h =
      let same_status = eq_refl seen.status in
      let same_version = eqb_refl seen.version in
      let both = and_true (eqb seen.id id) (seen.tenant_id == tenant) h in
      rw both.0 (rw both.1 (rw same_status same_version))

  -- The row of a case after the update that was made under its own status and version.
  pub updated_row :
      (rows : List ControlCase)
      → select (is_case tenant id) rows ≡ seen ∷ []
      → select (is_case tenant id) (update (unchanged tenant id seen) (moved target seen) rows)
        ≡ moved target seen seen ∷ []
  updated_row rows only =
      select-update (unchanged tenant id seen) (moved target seen) (is_case tenant id) (λ x h. refl)
        rows
      ∙ rw only (
          update-one (unchanged tenant id seen) (moved target seen) seen
            (unchanged-seen (select-head (is_case tenant id) rows only)))

  pub other_unchanged :
      (tenant' : String) (id' : ℕ) (x : ControlCase)
      → (eqb id id' && tenant == tenant') ≡ false
      → is_case tenant' id' x ≡ true
      → unchanged tenant id seen x ≡ false
  other_unchanged tenant' id' x differs h = elim (Bool-cases (unchanged tenant id seen x)) [
    | inr fails ↦ fails
    | inl holds ↦ absurd (
        ground
          (arith, eq_iff x.tenant_id tenant, eq_iff x.tenant_id tenant', eq_iff tenant tenant'))
  ]

  -- The row of another case.
  pub other_row :
      (tenant' : String) (id' : ℕ) (rows : List ControlCase)
      → (eqb id id' && tenant == tenant') ≡ false
      → select (is_case tenant' id') (update (unchanged tenant id seen) (moved target seen) rows)
        ≡ select (is_case tenant' id') rows
  other_row tenant' id' rows differs =
      select-update (unchanged tenant id seen) (moved target seen) (is_case tenant' id')
        (λ x h. refl) rows
      ∙ update-select-other (unchanged tenant id seen) (is_case tenant' id') (moved target seen)
          (λ x h. other_unchanged tenant' id' x differs h) rows
