-- ===== src/Examples/Releases.antt =====
-- The theorem on admissions, at a release with seven controls.
use flagship_lab.Result.{ok}
use flagship_lab.Prelude.Int.{pos}
use flagship_lab.Prelude.Text.{◌<>◌}
use flagship_lab.Examples.{sample_env}
use flagship_lab.Admission.Admitted.{IsAdmitted, verify_admission-IsAdmitted}
use flagship_lab.Json.{Fields, field, end, int, text, obj}
use flagship_lab.Admission.{Readings, verify_admission, readable, required_controls}
use flagship_lab.Prelude.{String, some, List, false, ◌∷◌, true, [], ◌≡◌, refl}

abbrev sample_sha : String
sample_sha = "0123456789abcdef0123456789abcdef01234567"

abbrev sample_digest : String
sample_digest = "0123456789abcdef0123456789abcdef0123456789abcdef0123456789abcdef"

abbrev sample_item : String → Fields
sample_item name = field "status" (text "passed") (
    field "verifier" (text "bob") (
      field "evidence_uri" (text "s3://bucket/x") (
        field "evidence_sha256" (text sample_digest) (
          field "evidence_file" (text ("evidence/" <> name))
            (field "verified_at_utc" (text "2026-01-01T00:00:00Z") end)))))

abbrev sample_items : List String → Fields
sample_items [] = end
sample_items (name ∷ names) = field name (obj (sample_item name)) (sample_items names)

abbrev sample_document : Fields
sample_document = field "schema_version" (int (pos 3)) (
    field "project" (text "flagship-lab") (
      field "release_sha" (text sample_sha) (
        field "environment" (text "staging") (
          field "deployed_by" (text "ann")
            (field "controls" (obj (sample_items required_controls)) end)))))

abbrev sample_readings : Readings
sample_readings = record {
  is_absolute = λ s. false;
  first_part = λ s. some "evidence";
  resolve =
      λ s. some (record { path = s; regular_inside = true; size = 12; digest = sample_digest });
  urlparse = λ s. record { scheme = "s3"; netloc = "bucket"; path = "/x" };
  lowered = λ s. s;
  casefolded = λ s. s;
  age = λ s. some (pos 3600000000);
}

sample_admitted :
    verify_admission sample_env sample_readings (readable (obj sample_document)) sample_sha 24
    ≡ ok (record { valid = true; errors = [] })
unfolding verify_admission
sample_admitted = refl

verify_admission-IsAdmitted_example :
    IsAdmitted sample_env sample_readings (readable (obj sample_document)) sample_sha 24
verify_admission-IsAdmitted_example =
    verify_admission-IsAdmitted sample_env sample_readings (readable (obj sample_document))
      sample_sha 24 (record { valid = true; errors = [] }) sample_admitted refl
