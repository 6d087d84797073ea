-- ===== src/Admission.antt =====
-- src/flagship_lab/admission.py: the evidence that a release is admitted with. Paths, addresses,
-- times and letter case are the standard library's: parameters (`Readings`). The manifest is the JSON
-- value that was read, or the text of the error. A number of hours is a natural number.
pub mod Facts
pub mod Passed
pub mod Admitted
use flagship_lab.Evidence.Verify.{no_errors, value_text}
use flagship_lab.TaxRules.{mem_text}
use Prim.Native.Char.{code}
use flagship_lab.Prelude.Text.{count, ◌<>◌}
use flagship_lab.Result.{Result, ok, err, runtime_error}
use flagship_lab.Prelude.Int.{ℤ, pos, leb_ℤ}
use flagship_lab.Tx.{Env}
use flagship_lab.Json.{Json, Fields, int, obj, end, real}
use flagship_lab.Json.Get.{get_field, equals_text}
use flagship_lab.Prelude.{
  String, Option, none, some, ℕ, List, Bool, false, eqb, leb, if◌then◌else◌, not, ◌==◌, ◌++◌, true,
  ◌∷◌, ◌||◌, [], ◌&&◌, ◌*◌, ltb,
}

abbrev pub required_controls : List String
required_controls =
    "alert_delivery" ∷ "kafka_delivery_replay" ∷ "kms_object_lock" ∷ "managed_postgres_pitr_restore"
    ∷ "oidc_key_rotation" ∷ "otlp_trace_delivery" ∷ "staging_migration_rollback" ∷ []

-- A file that a relative path resolves to: whether it is a regular file under `evidence/`, its size
-- and its digest.
pub record EvidenceFile : Type 0 where
  pub path : String
  pub regular_inside : Bool
  pub size : ℕ
  pub digest : String

pub record Url : Type 0 where
  pub scheme : String
  pub netloc : String
  pub path : String

-- What the standard library answers: `Path(s).is_absolute()`, `Path(s).parts[0]`, the strict
-- resolution of a path, `urlparse`, `s.strip().lower()`, `s.strip().casefold()`, and the age of a
-- time in UTC in microseconds (`none`: no time, or not in UTC).
pub record Readings : Type 0 where
  pub is_absolute : String → Bool
  pub first_part : String → Option String
  pub resolve : String → Option EvidenceFile
  pub urlparse : String → Url
  pub lowered : String → String
  pub casefolded : String → String
  pub age : String → Option ℤ

-- `[0-9a-f]{n}`
abbrev pub is_hex_digit : ℕ → Bool
is_hex_digit c = leb b'0' c && leb c b'9' || leb b'a' c && leb c b'f'

abbrev pub all_hex : String → Bool
all_hex String.[] = true
all_hex (String.◌∷◌ c s) = is_hex_digit (code c) && all_hex s

abbrev pub is_hex : ℕ → String → Bool
is_hex n s = eqb (count s) n && all_hex s

-- `str(d.get(key, ""))`
abbrev pub str_at : Env → String → Fields → String
str_at env key d = value_text env (get_field key d)

-- `if test: errors.append(message)`
abbrev pub error_if : Bool → String → List String
error_if test message = if test then message ∷ [] else []

-- The tests of `_verify_file` on a file that was found: its errors, and the files seen.
abbrev pub check_file : String → Fields → List String → EvidenceFile → List String × List String
check_file name item seen f =
    if not f.regular_inside
    then (
      ("control " <> name <> " evidence_file escapes evidence/ or is not a regular file") ∷ [],
      seen,
    )
    else (if mem_text f.path seen
        then (
          ("control " <> name <> " evidence_file must not be reused by another control") ∷ [],
          seen,
        )
        else (if eqb f.size 0 || ltb (50 * 1024 * 1024) f.size
            then (
              ("control " <> name <> " evidence_file must be between 1 byte and 50 MiB") ∷ [],
              f.path ∷ seen,
            )
            else (
              error_if (not (equals_text (get_field "evidence_sha256" item) f.digest))
                  ("control " <> name <> " evidence_sha256 does not match evidence_file"),
              f.path ∷ seen,
            )))

abbrev pub under_evidence : Option String → Bool
under_evidence none = false
under_evidence (some part) = part == "evidence"

abbrev pub outside : Env → Readings → Fields → Bool
outside env io item =
    let relative = str_at env "evidence_file" item in
    io.is_absolute relative || not (under_evidence (io.first_part relative))

unfoldable pub verify_file :
    Env → Readings → String → Fields → List String → List String × List String
unfolding get_field
verify_file env io name item seen =
    if outside env io item
    then (
      ("control " <> name <> " evidence_file must be a relative path under evidence/") ∷ [],
      seen,
    )
    else elim (io.resolve (str_at env "evidence_file" item)) [
      | none ↦ (("control " <> name <> " evidence_file does not exist") ∷ [], seen)
      | some f ↦ check_file name item seen f
    ]

-- `elif verifier == deployed_by`
abbrev pub verifier_errors : String → String → String → List String
verifier_errors name verifier deployed_by =
    if verifier == ""
    then ("control " <> name <> " has no verifier") ∷ []
    else error_if (verifier == deployed_by)
        ("control " <> name <> " verifier must be independent from deployed_by")

abbrev pub not_durable : Url → Bool
not_durable u =
    let stored = u.scheme == "https" || u.scheme == "s3" || u.scheme == "gs" in
    not (stored || u.scheme == "urn")
    || (stored && u.netloc == "")
    || (u.scheme == "urn" && u.path == "")

-- `age.total_seconds() < 0 or age.total_seconds() > max_age_hours * 3600`
abbrev pub time_errors : String → ℕ → Option ℤ → List String
time_errors name max_age_hours none = ("control " <> name <> " verified_at_utc is invalid") ∷ []
time_errors name max_age_hours (some age) =
    error_if (not (leb_ℤ (pos 0) age) || not (leb_ℤ age (pos (max_age_hours * 3600 * 1000000))))
      ("control " <> name <> " evidence is expired or future-dated")

-- The digest, and then the file.
unfoldable pub digest_errors :
    Env → Readings → String → Fields → List String → List String × List String
unfolding get_field verify_file
digest_errors env io name item seen =
    if is_hex 64 (str_at env "evidence_sha256" item)
    then verify_file env io name item seen
    else (("control " <> name <> " evidence_sha256 must be 64 lowercase hex characters") ∷ [], seen)

-- One round of the loop over the required controls, for an item that is a dict.
unfoldable pub control_errors :
    Env → Readings → ℕ → String → String → Fields → List String → List String × List String
unfolding get_field digest_errors
control_errors env io max_age_hours deployed_by name item seen =
    let file = digest_errors env io name item seen in
    (
      error_if (not (equals_text (get_field "status" item) "passed"))
            ("control " <> name <> " is not passed")
          ++ (verifier_errors name (io.casefolded (str_at env "verifier" item)) deployed_by
              ++ (error_if (not_durable (io.urlparse (str_at env "evidence_uri" item)))
                    ("control " <> name <> " evidence_uri must be durable (https, s3, gs or urn)")
                  ++ (file.0
                      ++ time_errors name max_age_hours
                          (io.age (str_at env "verified_at_utc" item))))),
      file.1,
    )

-- `isinstance(item, dict)`
abbrev pub dict_at : String → Fields → Option Fields
dict_at name controls = elim (get_field name controls) [
  | none ↦ none
  | some v ↦ elim v [ obj fs ↦ some fs | _ ↦ none ]
]

unfoldable pub controls_errors :
    Env → Readings → ℕ → String → Fields → List String → List String → List String
unfolding get_field control_errors
controls_errors env io max_age_hours deployed_by controls [] seen = []
controls_errors env io max_age_hours deployed_by controls (name ∷ names) seen =
    elim (dict_at name controls) [
      | none ↦
          ("missing required control: " <> name)
          ∷ controls_errors env io max_age_hours deployed_by controls names seen
      | some item ↦
          let here = control_errors env io max_age_hours deployed_by name item seen in
          here.0 ++ controls_errors env io max_age_hours deployed_by controls names here.1
    ]

abbrev pub not_production : String → Bool
not_production e = e == "" || e == "dev" || e == "development" || e == "local" || e == "test"

abbrev pub is_three : Option Json → Bool
is_three (some (int (pos n))) = eqb n 3
is_three (some (real r)) = r == "3.0"
is_three _ = false

-- The tests on the document itself.
unfoldable pub document_errors : Env → Readings → String → Fields → List String
unfolding get_field
document_errors env io release_sha document =
    error_if (not (is_three (get_field "schema_version" document))) "schema_version must be 3"
    ++ (error_if (not (equals_text (get_field "project" document) "flagship-lab"))
          "project must be flagship-lab"
        ++ (error_if (not (equals_text (get_field "release_sha" document) release_sha))
              "evidence release_sha does not match the requested release"
            ++ (error_if (not_production (io.lowered (str_at env "environment" document)))
                  "environment must identify a production-like deployment"
                ++ (error_if (io.casefolded (str_at env "deployed_by" document) == "")
                      "deployed_by is required"
                    ++ error_if
                        (elim (dict_at "controls" document) [ none ↦ true | some _ ↦ false ])
                        "controls must be an object"))))

abbrev pub controls_of : Option Fields → Fields
controls_of none = end
controls_of (some fs) = fs

pub record Admission : Type 0 where
  pub valid : Bool
  pub errors : List String

abbrev pub rejected : String → Admission
rejected message = record { valid = false; errors = message ∷ [] }

abbrev pub all_errors : Env → Readings → String → ℕ → Fields → List String
all_errors env io release_sha max_age_hours document =
    document_errors env io release_sha document
    ++ controls_errors env io max_age_hours (io.casefolded (str_at env "deployed_by" document))
        (controls_of (dict_at "controls" document)) required_controls []

-- The document that was read; one that is no dict has no method `get`.
unfoldable pub check_document : Env → Readings → String → ℕ → Json → Result Admission
unfolding get_field document_errors controls_errors
check_document env io release_sha max_age_hours (obj document) =
    let errors = all_errors env io release_sha max_age_hours document in
    ok (record { valid = no_errors errors; errors = errors })
check_document env io release_sha max_age_hours _ = err (runtime_error "AttributeError")

pub data Manifest : Type 0 where
  unreadable : String → Manifest
  readable : Json → Manifest

-- The document, where it could be read.
abbrev pub checked : Env → Readings → Manifest → String → ℕ → Result Admission
checked env io (unreadable exc) release_sha max_age_hours =
    ok (rejected ("cannot read admission evidence: " <> exc))
checked env io (readable document) release_sha max_age_hours =
    check_document env io release_sha max_age_hours document

-- `verify_admission`
unfoldable pub verify_admission : Env → Readings → Manifest → String → ℕ → Result Admission
unfolding check_document
verify_admission env io manifest release_sha max_age_hours =
    if not (is_hex 40 release_sha)
    then ok (rejected "release_sha must be a lowercase 40-character Git SHA")
    else (if not (leb 1 max_age_hours && leb max_age_hours 168)
        then ok (rejected "max_age_hours must be between 1 and 168")
        else checked env io manifest release_sha max_age_hours)
