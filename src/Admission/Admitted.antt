-- ===== src/Admission/Admitted.antt =====
-- src/flagship_lab/admission.py: what a release has that is admitted.
use flagship_lab.Admission.Passed.{AllPassed, controls_errors-nil}
use flagship_lab.Admission.Facts.{
  IsHex, not-false, hexadecimal, error_if-nil, IsThree, three, unfit_environments, fit, dict_there,
}
use flagship_lab.Evidence.Genuine.{no_errors-nil}
use flagship_lab.Result.{ok, ok-injective}
use flagship_lab.Json.Get.{equals_text, get_field}
use flagship_lab.Admission.{
  Readings, dict_at, str_at, is_hex, Manifest, verify_admission, Admission, check_document,
  readable, document_errors, checked, rejected, unreadable, all_errors, required_controls,
  controls_of,
}
use flagship_lab.Tx.{Env}
use flagship_lab.Json.{Fields, obj, Json, bool, int, real, decimal, text, arr, null}
use flagship_lab.Prelude.{
  String, ℕ, ◌≡◌, [], false, ◌==◌, some, true, arith, refl, Bool-cases, inl, inr, append_empty, ◌∙◌,
  leb, ◌&&◌, sym, ap, ◌≤◌, All,
}

-- The release, the document and every control are what an admission asks for.
pub record IsAdmitted (env : Env) (io : Readings) (manifest : Manifest) (release_sha : String)
    (max_age_hours : ℕ) : Type 0 where
  pub release_named : IsHex 40 release_sha
  pub age_positive : 1 ≤ max_age_hours
  pub age_limited : max_age_hours ≤ 168
  pub document : Fields
  pub manifest_read : manifest ≡ readable (obj document)
  pub schema : IsThree (get_field "schema_version" document)
  pub of_project : equals_text (get_field "project" document) "flagship-lab" ≡ true
  pub of_release : equals_text (get_field "release_sha" document) release_sha ≡ true
  pub production :
      All (λ e. (io.lowered (str_at env "environment" document) == e) ≡ false) unfit_environments
  pub deployer : (io.casefolded (str_at env "deployed_by" document) == "") ≡ false
  pub controls : Fields
  pub controls_dict : dict_at "controls" document ≡ some controls
  pub controls_pass :
      AllPassed env io max_age_hours
        (io.casefolded (str_at env "deployed_by" document))
        controls
        required_controls
        []

module _ (env : Env) (io : Readings) (release_sha : String) (max_age_hours : ℕ)
    (named : is_hex 40 release_sha ≡ true)
    (limited : (leb 1 max_age_hours && leb max_age_hours 168) ≡ true) where
  document-IsAdmitted :
      (document : Fields)
      → all_errors env io release_sha max_age_hours document ≡ []
      → IsAdmitted env io (readable (obj document)) release_sha max_age_hours
  unfolding document_errors
  document-IsAdmitted document h =
      let (own_nil, controls_nil) =
        append_empty (document_errors env io release_sha document) _ h in
      let (version_nil, h1) = append_empty _ _ own_nil in
      let (project_nil, h2) = append_empty _ _ h1 in
      let (release_nil, h3) = append_empty _ _ h2 in
      let (production_nil, h4) = append_empty _ _ h3 in
      let (deployer_nil, controls_dict) = append_empty _ _ h4 in
      record {
        release_named = hexadecimal 40 release_sha named;
        age_positive = ground arith;
        age_limited = ground arith;
        document = document;
        manifest_read = refl;
        schema = three _ (error_if-nil _ _ version_nil);
        of_project = not-false _ (error_if-nil _ _ project_nil);
        of_release = not-false _ (error_if-nil _ _ release_nil);
        production = fit _ (error_if-nil _ _ production_nil);
        deployer = error_if-nil _ _ deployer_nil;
        controls = controls_of (dict_at "controls" document);
        controls_dict = dict_there _ (error_if-nil _ _ controls_dict);
        controls_pass =
            controls_errors-nil env io max_age_hours _ _ required_controls [] controls_nil;
      }

  readable-IsAdmitted :
      (v : Json) (a : Admission)
      → check_document env io release_sha max_age_hours v ≡ ok a
      → a.valid ≡ true
      → IsAdmitted env io (readable v) release_sha max_age_hours
  unfolding check_document
  readable-IsAdmitted (obj document) a h valid =
      let same = ok-injective h in
      document-IsAdmitted document (no_errors-nil _ (ap (λ x. x.valid) same ∙ valid))
  readable-IsAdmitted null a h valid = absurd (ground arith)
  readable-IsAdmitted (bool b) a h valid = absurd (ground arith)
  readable-IsAdmitted (int n) a h valid = absurd (ground arith)
  readable-IsAdmitted (real r) a h valid = absurd (ground arith)
  readable-IsAdmitted (decimal d) a h valid = absurd (ground arith)
  readable-IsAdmitted (text s) a h valid = absurd (ground arith)
  readable-IsAdmitted (arr xs) a h valid = absurd (ground arith)

refused-valid : (m : String) (a : Admission) → ok (rejected m) ≡ ok a → a.valid ≡ false
refused-valid m a h = sym (ap (λ x. x.valid) (ok-injective h))

-- An admission that is valid has a release named by a Git SHA and an age limit of 1 to 168 hours; its
-- document has schema version 3, this project and this release, an environment that is not empty and
-- not one for development or tests, a deployer, and a dict of controls; and each of the seven passed,
-- with a verifier who is not the deployer, a durable address, a time within the limit, and a file
-- under evidence/, of 1 byte to 50 MiB and with the digest stated, that no other control uses.
pub verify_admission-IsAdmitted :
    (env : Env) (io : Readings) (manifest : Manifest) (release_sha : String) (max_age_hours : ℕ)
    (a : Admission)
    → verify_admission env io manifest release_sha max_age_hours ≡ ok a
    → a.valid ≡ true
    → IsAdmitted env io manifest release_sha max_age_hours
unfolding verify_admission
verify_admission-IsAdmitted env io manifest release_sha max_age_hours a h valid =
    elim (Bool-cases (is_hex 40 release_sha)) [
      | inr odd ↦ absurd (ground (arith, refused-valid _ a (rw odd at h)))
      | inl named ↦ elim (Bool-cases (leb 1 max_age_hours && leb max_age_hours 168)) [
        | inr long ↦ absurd (ground (arith, refused-valid _ a (rw (named, long) at h)))
        | inl limited ↦ by_manifest manifest named limited (rw (named, limited) at h)
      ]
    ]
  where
    by_manifest :
        (m : Manifest)
        → is_hex 40 release_sha ≡ true
        → (leb 1 max_age_hours && leb max_age_hours 168) ≡ true
        → checked env io m release_sha max_age_hours ≡ ok a
        → IsAdmitted env io m release_sha max_age_hours
    by_manifest (unreadable exc) named limited e = absurd (ground (arith, refused-valid _ a e))
    by_manifest (readable v) named limited e =
        readable-IsAdmitted env io release_sha max_age_hours named limited v a e valid
