-- ===== src/Taxflow/Review/Outcome.antt =====
-- src/flagship_lab/taxflow.py, `review_run`: what a review that returns has found and has left.
use flagship_lab.Core.{connect}
use flagship_lab.Core.Connect.{connect-eq-ok, connect-rollback}
use flagship_lab.Prelude.Text.{is_blank}
use flagship_lab.Result.{ok, Failure, err, value_error}
use flagship_lab.Schema.{TaxRunWorkflow, Store}
use flagship_lab.Prelude.{
  String, ℕ, ◌≡◌, true, ◌∷◌, [], select, arith, ◌==◌, update, false, select-update, refl,
  select-head, eqb_refl, sym, ◌∙◌, Option, some, none, inl, inr, not, ◌||◌,
}
use flagship_lab.Tx.{Env, World, one_or_none, raise_if, ◌>>◌}
use flagship_lab.Taxflow.{TaxFlowService}
use flagship_lab.Taxflow.Review.{
  workflows_of, write_decision, review_run, judge, review_body, still_pending, is_workflow, decided,
  status_of,
}
use flagship_lab.Taxflow.Review.Decision.{
  write_decision-rows, judge-ok, updated, write_decision-read,
}
use flagship_lab.Tx.Bind.{
  and_then-eq-ok, raise_if-ok, one_or_none-some, Result-cases, raise_if-rollback,
}

-- What a review by `reviewer` in `w` needs, and what it leaves in `s`.
pub record IsReviewed (env : Env) (tenant run_id reviewer decision comment : String) (w : World)
    (row : TaxRunWorkflow) (s : Store) : Type 0 where
  pub before : TaxRunWorkflow
  pub read : workflows_of tenant run_id w.store ≡ before ∷ []
  pub pending : (before.status == "PENDING_REVIEW") ≡ true
  pub independent : (before.requested_by == reviewer) ≡ false
  pub commented : is_blank comment ≡ false
  pub returned :
      row
      ≡ decided
          (status_of (env.upper decision))
          before.version
          reviewer
          (env.clock w.ticks)
          comment
          before
  pub stored : workflows_of tenant run_id s ≡ row ∷ []

module _ (env : Env) (tenant run_id reviewer status comment : String) (w : World) where
  still_pending-is_workflow :
      (version : ℕ) (r : TaxRunWorkflow)
      → still_pending tenant run_id version r ≡ true
      → is_workflow tenant run_id r ≡ true
  still_pending-is_workflow version r h = ground arith

  -- The rows that the read finds after the update are the rows found before it, updated.
  workflows_of-updated :
      (version : ℕ) (before : TaxRunWorkflow)
      → workflows_of tenant run_id w.store ≡ before ∷ []
      → select
          (is_workflow tenant run_id)
          (updated env tenant run_id reviewer status comment version w)
        ≡ update
            (still_pending tenant run_id version)
            (decided status version reviewer (env.clock w.ticks) comment)
            (before ∷ [])
  unfolding workflows_of
  workflows_of-updated version before h =
      rw
        (
          select-update (still_pending tenant run_id version)
              (decided status version reviewer (env.clock w.ticks) comment)
              (is_workflow tenant run_id) (λ r pending. refl) w.store.tax_run_workflow,
          h,
        )
        refl

  -- A decision at the version that was read: the table holds the decided row, and it is returned.
  write_decision-ok :
      (before row : TaxRunWorkflow)
      → workflows_of tenant run_id w.store ≡ before ∷ []
      → (before.status == "PENDING_REVIEW") ≡ true
      → (write_decision env tenant run_id reviewer status comment before.version w).0 ≡ ok row
      → row ≡ decided status before.version reviewer (env.clock w.ticks) comment before
  unfolding workflows_of update
  write_decision-ok before row h pending wrote =
      let mine = select-head (is_workflow tenant run_id) w.store.tax_run_workflow h in
      let read =
        write_decision-read env tenant run_id reviewer status comment before.version w wrote in
      let rows = workflows_of-updated before.version before h in
      let still : still_pending tenant run_id before.version before ≡ true =
        ground (arith, mine, pending, eqb_refl before.version) in
      let both =
        sym (
          rw (write_decision-rows env tenant run_id reviewer status comment before.version w) at
            read)
        ∙ rows in
      (ground (arith, both, still))

module _ (env : Env) (service : TaxFlowService) (run_id reviewer decision comment : String)
    (w : World) where
  reviewed :
      (current : Option TaxRunWorkflow) (row : TaxRunWorkflow)
      → is_blank comment ≡ false
      → one_or_none (workflows_of service.tenant_id run_id w.store) ≡ ok current
      → (judge env service.tenant_id run_id reviewer (env.upper decision) comment current w).0
        ≡ ok row
      → IsReviewed env service.tenant_id run_id reviewer decision comment w row
          (judge env service.tenant_id run_id reviewer
            (env.upper decision)
            comment
            current
            w).1.store
  reviewed none row commented found judged = absurd (ground arith)
  reviewed (some before) row commented found judged =
      let (pending, independent, run) =
        judge-ok env service.tenant_id run_id before reviewer (env.upper decision) comment w
          judged in
      let read = one_or_none-some _ found in
      rw run (record {
        before = before;
        read = read;
        pending = pending;
        independent = independent;
        commented = commented;
        returned =
            write_decision-ok env service.tenant_id run_id reviewer (status_of (env.upper decision))
              comment w before row read pending (rw run at judged);
        stored =
            write_decision-read env service.tenant_id run_id reviewer
              (status_of (env.upper decision)) comment before.version w (rw run at judged);
      })

  -- A review that returns found one request for the run, still pending and made by another subject,
  -- and had a comment; it returns that request decided, one version on, and this is then the one
  -- row of the run.
  pub review_run-IsReviewed :
      (row : TaxRunWorkflow)
      → (review_run env service run_id reviewer decision comment w).0 ≡ ok row
      → IsReviewed env service.tenant_id run_id reviewer decision comment w row
          (review_run env service run_id reviewer decision comment w).1.store
  unfolding review_run
  review_run-IsReviewed row h =
      let body = review_body env service.tenant_id run_id reviewer (env.upper decision) comment in
      let checked =
        raise_if (is_blank comment) (value_error "review comment is required")
        >> connect env (some service.tenant_id) body in
      let (known, run, rest) =
        raise_if-ok (not (env.upper decision == "APPROVE" || env.upper decision == "REJECT"))
          (value_error "decision must be APPROVE or REJECT") checked w h in
      let (commented, run', rest') =
        raise_if-ok (is_blank comment) (value_error "review comment is required")
          (connect env (some service.tenant_id) body) w rest in
      let (committed, returned) = connect-eq-ok env (some service.tenant_id) body w rest' in
      let (current, found, judged, final) =
        and_then-eq-ok (one_or_none (workflows_of service.tenant_id run_id w.store), w)
          (judge env service.tenant_id run_id reviewer (env.upper decision) comment) row returned in
      rw (run ∙ run' ∙ committed ∙ judged) (reviewed current row commented found final)

  review_run-rollback :
      (e : Failure)
      → (review_run env service run_id reviewer decision comment w).0 ≡ err e
      → (review_run env service run_id reviewer decision comment w).1.store ≡ w.store
  unfolding review_run
  review_run-rollback =
      raise_if-rollback (not (env.upper decision == "APPROVE" || env.upper decision == "REJECT"))
        (value_error "decision must be APPROVE or REJECT") _ w
        (raise_if-rollback (is_blank comment) (value_error "review comment is required")
          (connect env (some service.tenant_id)
            (review_body env service.tenant_id run_id reviewer (env.upper decision) comment))
          w
          (λ d h.
            connect-rollback env (some service.tenant_id)
              (review_body env service.tenant_id run_id reviewer (env.upper decision) comment) w h))

  -- A run whose one request is no longer pending refuses every review, and the database stays as it
  -- was.
  pub review_run-final :
      (row : TaxRunWorkflow)
      → workflows_of service.tenant_id run_id w.store ≡ row ∷ []
      → (row.status == "PENDING_REVIEW") ≡ false
      → ((e : Failure) × ((review_run env service run_id reviewer decision comment w).0 ≡ err e))
        × ((review_run env service run_id reviewer decision comment w).1.store ≡ w.store)
  review_run-final row read done =
      elim (Result-cases (review_run env service run_id reviewer decision comment w).0) [
        | inl (final, returned) ↦
            let r = review_run-IsReviewed final returned in
            absurd (ground (arith, r.pending, done, sym read ∙ r.read))
        | inr (e, refused) ↦ ((e, refused), review_run-rollback e refused)
      ]
