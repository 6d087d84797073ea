-- ===== src/Taxflow/Review/Decision.antt =====
-- src/flagship_lab/taxflow.py, `review_run`: what a decision requires and leaves, and two reviewers
-- who read the same request.
use flagship_lab.Result.{err, ok, value_error}
use flagship_lab.Schema.{TaxRunWorkflow}
use flagship_lab.Core.Frame.{append_audit_event-IsFramed}
use flagship_lab.Core.{utc_now, append_audit_event}
use flagship_lab.Prelude.{
  String, ℕ, suc, ◌≡◌, List, eqb, Bool-cases, update, length, sym, select, inl, ap, inr, refl, [],
  some, select-update-none, arith, ◌==◌, false, eqb-next, true, ◌∷◌,
}
use flagship_lab.Tx.{Env, World}
use flagship_lab.Taxflow.Review.{
  workflows_of, write_decision, judge, log_decision, decision_json, still_pending, decided,
  status_of,
}
use flagship_lab.Tx.Bind.{and_then-keeps, and_then-eq-ok, one-ok}

module _ (env : Env) (tenant run_id : String) where
  -- The workflow table after the update of a decision.
  abbrev pub updated : String → String → String → ℕ → World → List TaxRunWorkflow
  updated reviewer status comment version w =
      update (still_pending tenant run_id version)
        (decided status version reviewer (env.clock w.ticks) comment) w.store.tax_run_workflow

  abbrev after_update : String → String → String → ℕ → World → World
  after_update reviewer status comment version w = record w {
    ticks = suc w.ticks;
    store = record w.store { tax_run_workflow = updated reviewer status comment version w };
  }

  log_decision-rows :
      (reviewer status comment : String) (w : World)
      → (log_decision env tenant run_id reviewer status comment w).1.store.tax_run_workflow
        ≡ w.store.tax_run_workflow
  unfolding workflows_of
  log_decision-rows reviewer status comment w =
      let framed =
        append_audit_event-IsFramed env "taxflow" "REVIEW_DECIDED" run_id
          (decision_json status reviewer comment) tenant w in
      let kept = sym (ap (λ s. s.tax_run_workflow) framed) in
      and_then-keeps (λ v. v.store.tax_run_workflow ≡ w.store.tax_run_workflow)
        (append_audit_event env "taxflow" "REVIEW_DECIDED" run_id
          (decision_json status reviewer comment) tenant w)
        _ kept (λ _. kept)

  log_decision-read :
      (reviewer status comment : String) (w : World) {row : TaxRunWorkflow}
      → (log_decision env tenant run_id reviewer status comment w).0 ≡ ok row
      → workflows_of tenant run_id
          (log_decision env tenant run_id reviewer status comment w).1.store
        ≡ row ∷ []
  unfolding workflows_of
  log_decision-read reviewer status comment w h =
      let (hash, appended, run, found) =
        and_then-eq-ok
          (append_audit_event env "taxflow" "REVIEW_DECIDED" run_id
            (decision_json status reviewer comment) tenant w)
          _ _ h in
      rw run (one-ok _ found)

  -- Whether the audit event is written or refused, the workflow table is the updated one.
  pub write_decision-rows :
      (reviewer status comment : String) (version : ℕ) (w : World)
      → (write_decision env tenant run_id reviewer status comment version
          w).1.store.tax_run_workflow
        ≡ updated reviewer status comment version w
  unfolding write_decision utc_now
  write_decision-rows reviewer status comment version w =
      elim (Bool-cases
        (eqb (length (select (still_pending tenant run_id version) w.store.tax_run_workflow)) 1)) [
          | inl one_row ↦ rw one_row (
              log_decision-rows reviewer status comment
                (after_update reviewer status comment version w))
          | inr other ↦ rw other refl
        ]

  -- What a decision returns is the one row that is then in the table.
  pub write_decision-read :
      (reviewer status comment : String) (version : ℕ) (w : World) {row : TaxRunWorkflow}
      → (write_decision env tenant run_id reviewer status comment version w).0 ≡ ok row
      → workflows_of tenant run_id
          (write_decision env tenant run_id reviewer status comment version w).1.store
        ≡ row ∷ []
  unfolding write_decision utc_now
  write_decision-read reviewer status comment version w h =
      elim (Bool-cases
        (eqb (length (select (still_pending tenant run_id version) w.store.tax_run_workflow)) 1)) [
          | inl one_row ↦ rw one_row (
              log_decision-read reviewer status comment
                (after_update reviewer status comment version w) (rw one_row at h))
          | inr other ↦ absurd (ground (arith, rw other at h))
        ]

  -- No row is left that a decision at the same version could touch.
  none_pending :
      (reviewer status comment : String) (version : ℕ) (w : World)
      → select
          (still_pending tenant run_id version)
          (write_decision env tenant run_id reviewer status comment version
            w).1.store.tax_run_workflow
        ≡ []
  none_pending reviewer status comment version w =
      rw (write_decision-rows reviewer status comment version w) (
        select-update-none (still_pending tenant run_id version)
          (decided status version reviewer (env.clock w.ticks) comment)
          (λ r pending. ground (arith, eqb-next version)) w.store.tax_run_workflow)

  write_decision-conflict :
      (reviewer status comment : String) (version : ℕ) (w : World)
      → select (still_pending tenant run_id version) w.store.tax_run_workflow ≡ []
      → (write_decision env tenant run_id reviewer status comment version w).0
        ≡ err (value_error "concurrent review conflict")
  unfolding write_decision utc_now
  write_decision-conflict reviewer status comment version w h = rw h refl

  -- A decision that is taken has passed the guards.
  pub judge-ok :
      (row : TaxRunWorkflow) (reviewer normalized comment : String) {final : TaxRunWorkflow}
      (w : World)
      → (judge env tenant run_id reviewer normalized comment (some row) w).0 ≡ ok final
      → ((row.status == "PENDING_REVIEW") ≡ true)
        × ((row.requested_by == reviewer) ≡ false)
        × (judge env tenant run_id reviewer normalized comment (some row) w
            ≡ write_decision env tenant run_id reviewer
                (status_of normalized)
                comment
                row.version
                w)
  judge-ok row reviewer normalized comment w h =
      elim (Bool-cases (row.status == "PENDING_REVIEW")) [
        | inl pending ↦ elim (Bool-cases (row.requested_by == reviewer)) [
          | inl own ↦ absurd (ground (arith, rw (pending, own) at h))
          | inr apart ↦ (pending, apart, rw (pending, apart) refl)
        ]
        | inr decided_before ↦ absurd (ground (arith, rw decided_before at h))
      ]

  -- Two reviewers have read the same request. When the first has decided, the decision of the
  -- second, who is not the one that asked for the review, is refused as a concurrent review.
  pub review_race :
      (row : TaxRunWorkflow) (reviewer reviewer' normalized normalized' comment comment' : String)
      (final : TaxRunWorkflow) (w : World)
      → (judge env tenant run_id reviewer normalized comment (some row) w).0 ≡ ok final
      → (row.requested_by == reviewer') ≡ false
      → (judge env tenant run_id reviewer' normalized' comment'
          (some row)
          (judge env tenant run_id reviewer normalized comment (some row) w).1).0
        ≡ err (value_error "concurrent review conflict")
  review_race row reviewer reviewer' normalized normalized' comment comment' final w first apart =
      let (pending, independent, run) = judge-ok row reviewer normalized comment w first in
      rw (run, pending, apart)
        (write_decision-conflict reviewer' (status_of normalized') comment' row.version _
          (none_pending reviewer (status_of normalized) comment row.version w))
