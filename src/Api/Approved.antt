-- ===== src/Api/Approved.antt =====
-- src/flagship_lab/fastapi_app.py, `tax_evidence`: a package is delivered for an approved run only.
use flagship_lab.Authorization.{authorize_resource}
use flagship_lab.Tx.Bind.{and_then-eq-ok, raise_if-ok, one_or_none-some}
use flagship_lab.Core.Connect.{connect-eq-ok}
use flagship_lab.Taxflow.{TaxFlowService}
use flagship_lab.Result.{Result, ok, err}
use flagship_lab.Api.Requests.{Body}
use flagship_lab.Json.{Fields}
use flagship_lab.Tx.{Env, World, one_or_none, lift}
use flagship_lab.Schema.{Store, TaxRunWorkflow}
use flagship_lab.Api.{Context, App, admit, as_http, claim, is_value_error}
use flagship_lab.Taxflow.Review.{workflow, workflows_of}
use flagship_lab.Api.Tax.{approved_evidence, tax_evidence, not_approved}
use flagship_lab.Auth.{Access, granted, refused, failed}
use flagship_lab.Prelude.{
  String, Option, none, some, ℕ, ◌≡◌, ◌∷◌, [], refl, false, Bool-cases, arith, inl, eq_iff, inr,
}

-- What the workflow table holds for the run: one request, which is approved.
pub record IsApproved (tenant run_id : String) (s : Store) : Type 0 where
  pub row : TaxRunWorkflow
  pub only_row : workflows_of tenant run_id s ≡ row ∷ []
  pub approved : row.status ≡ "APPROVED"

as_http-ok {ℓ} :
    {A : Type ℓ} (ctx : Context) (status : ℕ) (m : Result A × World) {a : A}
    → (as_http ctx status m).0 ≡ ok a
    → m.0 ≡ ok a
as_http-ok ctx status (ok b, w) h = h
as_http-ok ctx status (err e, w) h = elim (Bool-cases (is_value_error e)) [
  | inl caught ↦ absurd (ground (arith, rw caught at h))
  | inr passed ↦ absurd (ground (arith, rw passed at h))
]

admit-world : (a : Access) (w : World) → (admit a w).1 ≡ w
admit-world (granted claims) w = refl
admit-world (refused status detail) w = refl
admit-world (failed e) w = refl

workflow-ok :
    (env : Env) (tax : TaxFlowService) (run_id : String) (w : World) {o : Option TaxRunWorkflow}
    → (workflow env tax run_id w).0 ≡ ok o
    → one_or_none (workflows_of tax.tenant_id run_id w.store) ≡ ok o
unfolding workflow
workflow-ok env tax run_id w h =
    let (committed, returned) = connect-eq-ok env (some tax.tenant_id) _ w h in returned

not_approved-IsApproved :
    (tenant run_id : String) (s : Store) (o : Option TaxRunWorkflow)
    → one_or_none (workflows_of tenant run_id s) ≡ ok o
    → not_approved o ≡ false
    → IsApproved tenant run_id s
not_approved-IsApproved tenant run_id s none read h = absurd (ground arith)
not_approved-IsApproved tenant run_id s (some row) read h = record {
  row = row;
  only_row = one_or_none-some _ read;
  approved = ground (arith, eq_iff row.status "APPROVED");
}

approved_evidence-IsApproved :
    (ctx : Context) (app : App) (tenant run_id : String) (w : World) {body : Body}
    → (approved_evidence ctx app tenant run_id w).0 ≡ ok body
    → IsApproved tenant run_id w.store
unfolding approved_evidence
approved_evidence-IsApproved ctx app tenant run_id w h =
    let tax : TaxFlowService = record { tenant_id = tenant } in
    let (found, read, run, rest) = and_then-eq-ok (workflow ctx.env tax run_id w) _ _ h in
    let (good, run', rest') = raise_if-ok (not_approved found) _ _ _ rest in
    not_approved-IsApproved tenant run_id w.store found (workflow-ok ctx.env tax run_id w read) good

-- A package is delivered only where the claims name a tenant whose one request for the run is
-- approved, in the database that the handler finds.
pub tax_evidence-IsApproved :
    (ctx : Context) (app : App) (run_id : String) (claims : Fields) (w : World) (body : Body)
    → (tax_evidence ctx app run_id claims w).0 ≡ ok body
    → (tenant : String) × (claim "tenant_id" claims ≡ ok tenant) × IsApproved tenant run_id w.store
unfolding tax_evidence
tax_evidence-IsApproved ctx app run_id claims w body h =
    let gate = authorize_resource claims "tax_run" run_id "evidence" in
    let (_, passed, run, rest) = and_then-eq-ok (admit gate w) _ body h in
    let (tenant, named, run', rest') =
      and_then-eq-ok (lift (claim "tenant_id" claims) (admit gate w).1) _ body rest in
    let approved =
      approved_evidence-IsApproved ctx app tenant run_id (admit gate w).1
        (as_http-ok ctx 404 _ rest') in
    (tenant, named, rw (admit-world gate w) at approved)
