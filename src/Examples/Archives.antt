-- ===== src/Examples/Archives.antt =====
-- The theorems on packages, objects and deployments, at concrete libraries.
use flagship_lab.Prelude.Text.{◌<>◌}
use flagship_lab.Evidence.RoundTrip.{ReadsBack}
use flagship_lab.Evidence.RoundTrip.Verifies.{
  verify_evidence_package-build, verify_evidence_package-export,
}
use flagship_lab.Result.{ok}
use flagship_lab.Examples.{world_of, sample_env}
use Prim.Native.Char.{Char, code}
use flagship_lab.Signing.{EvidenceSigner, Library, ed25519_private, ed25519_public}
use flagship_lab.Schema.{TaxRunWorkflow, TaxRuleRun, empty_store}
use flagship_lab.Evidence.{
  build_zip, build_tax_run_package, hashed_manifest, with_signature, export_tax_run,
}
use flagship_lab.Evidence.Verify.{VerifyKeys, verify_evidence_package}
use flagship_lab.Json.{Fields, canonical_json, obj, canon}
use flagship_lab.Evidence.Genuine.{IsGenuine, verify_evidence_package-IsGenuine}
use flagship_lab.Tx.{World, Env}
use flagship_lab.Prelude.{
  String, none, some, List, Bool, false, [], ◌≡◌, true, ◌∷◌, ◌==◌, refl, ap, if◌then◌else◌, eq_refl,
  eqb,
}

-- An archive format: every character behind an `x`, and an `n` behind every text.
abbrev write_part : String → String → String
write_part String.[] rest = String.◌∷◌ "n" rest
write_part (String.◌∷◌ c s) rest = String.◌∷◌ "x" (String.◌∷◌ c (write_part s rest))

abbrev pub write_entries : List (String × String) → String
write_entries [] = ""
write_entries ((name, contents) ∷ es) = write_part name (write_part contents (write_entries es))

abbrev on_first : Char → List String → List String
on_first c [] = []
on_first c (s ∷ ss) = String.◌∷◌ c s ∷ ss

abbrev read_parts : Bool → String → List String
read_parts b String.[] = []
read_parts true (String.◌∷◌ c s) = on_first c (read_parts false s)
read_parts false (String.◌∷◌ c s) =
    let after_mark = read_parts true s in
    let rest = read_parts false s in if eqb (code c) b'x' then after_mark else "" ∷ rest

abbrev pairs : List String → List (String × String)
pairs (name ∷ contents ∷ rest) = (name, contents) ∷ pairs rest
pairs _ = []

read_parts-write_part :
    (s rest : String) → read_parts false (write_part s rest) ≡ s ∷ read_parts false rest
read_parts-write_part String.[] rest = refl
read_parts-write_part (String.◌∷◌ c s) rest = ap (on_first c) (read_parts-write_part s rest)

pairs-write_entries :
    (es : List (String × String)) → pairs (read_parts false (write_entries es)) ≡ es
pairs-write_entries [] = refl
pairs-write_entries ((name, contents) ∷ es) =
    rw
      (
        read_parts-write_part name (write_part contents (write_entries es)),
        read_parts-write_part contents (write_entries es),
        pairs-write_entries es,
      )
      refl

-- A key signs with a letter in front of the material, and the public key looks for it.
abbrev sample_check : String → String → Bool
sample_check value m = value == "s" <> m

abbrev pub sample_lib : Library
sample_lib = record {
  load_private = λ pem. ok (ed25519_private (λ m. "s" <> m));
  load_public = λ pem. ok (ed25519_public sample_check);
  hmac_sha256 = λ secret m. secret <> m;
  dumps = λ v. "{}";
  zip = write_entries;
  unzip = λ s. ok (pairs (read_parts false s));
}

abbrev acme_run : TaxRuleRun
acme_run = record {
  run_id = "r1";
  tenant_id = "acme";
  rule_version = "v1";
  rule_pack_json = "{}";
  started_at = "2026-01-01";
  completed_at = some "2026-01-01";
  transaction_count = 0;
  finding_count = 0;
}

abbrev acme_review : TaxRunWorkflow
acme_review = record {
  run_id = "r1";
  tenant_id = "acme";
  requested_by = "ada";
  status = "APPROVED";
  version = 2;
  reviewed_by = some "bob";
  reviewed_at = some "2026-01-01";
  decision_comment = some "fine";
}

abbrev pub approved_world : World
approved_world =
    world_of
      (record empty_store { tax_rule_runs = acme_run ∷ []; tax_run_workflow = acme_review ∷ [] })

abbrev pub acme_files : List (String × String)
acme_files =
    ("run.json", "{}")
    ∷ ("findings.json", "{}")
    ∷ ("audit_events.json", "{}")
    ∷ ("review.json", "{}")
    ∷ []

abbrev acme_hashed : String → Fields
acme_hashed format = hashed_manifest sample_env format "acme" "r1" "2026-01-01" acme_files

abbrev acme_signer : EvidenceSigner
acme_signer m = record { algorithm = "Ed25519"; key_id = "k1"; value = "s" <> m }

abbrev acme_manifest : Fields
acme_manifest =
    with_signature (some (acme_signer (canonical_json (obj (acme_hashed "flagship-evidence/v2")))))
      (acme_hashed "flagship-evidence/v2")

abbrev acme_archive : String
acme_archive = build_zip sample_lib acme_files acme_manifest

-- The reader knows the one manifest.
abbrev reading : Fields → Env
reading manifest = record sample_env { json_loads = λ s. some (canon (obj manifest)) }

abbrev acme_keys : VerifyKeys
acme_keys = record {
  signing_secret = none;
  require_signature = true;
  signing_public_key_pem = some "PEM";
}

acme_reads : (manifest : Fields) → ReadsBack (reading manifest) sample_lib manifest
acme_reads manifest = record {
  unzip-zip = λ es. ap ok (pairs-write_entries es);
  manifest_reads = refl;
}

acme_built :
    (build_tax_run_package
      (reading acme_manifest)
      sample_lib
      "r1"
      "acme"
      acme_signer
      approved_world).0
    ≡ ok (acme_archive, acme_manifest)
unfolding build_tax_run_package flagship_lab.Prelude.select
acme_built = refl

verify_evidence_package-build_example :
    verify_evidence_package (reading acme_manifest) sample_lib acme_keys acme_archive
    ≡ ok (true, [])
verify_evidence_package-build_example =
    verify_evidence_package-build (reading acme_manifest) sample_lib acme_keys "r1" "acme"
      approved_world acme_archive acme_manifest acme_signer "PEM" sample_check acme_built refl refl
      (λ m. (refl, eq_refl ("s" <> m))) (acme_reads acme_manifest)

verify_evidence_package-IsGenuine_example :
    IsGenuine (reading acme_manifest) sample_lib acme_keys acme_archive
verify_evidence_package-IsGenuine_example =
    verify_evidence_package-IsGenuine (reading acme_manifest) sample_lib acme_keys acme_archive []
      refl verify_evidence_package-build_example

abbrev exported_manifest : Fields
exported_manifest =
    with_signature
      (some (record {
        algorithm = "HMAC-SHA256";
        key_id = "k1";
        value = "secret" <> canonical_json (obj (acme_hashed "flagship-evidence/v1"));
      }))
      (acme_hashed "flagship-evidence/v1")

abbrev exported_archive : String
exported_archive = build_zip sample_lib acme_files exported_manifest

acme_exported :
    (export_tax_run
      (reading exported_manifest)
      sample_lib
      "r1"
      (record { signing_secret = some "secret"; key_id = "k1"; signing_private_key_pem = none })
      "acme"
      approved_world).0
    ≡ ok (exported_archive, exported_manifest)
unfolding export_tax_run flagship_lab.Prelude.select flagship_lab.Evidence.export_signature
acme_exported = refl

abbrev secret_keys : VerifyKeys
secret_keys = record {
  signing_secret = some "secret";
  require_signature = true;
  signing_public_key_pem = none;
}

verify_evidence_package-export_example :
    verify_evidence_package (reading exported_manifest) sample_lib secret_keys exported_archive
    ≡ ok (true, [])
verify_evidence_package-export_example =
    verify_evidence_package-export (reading exported_manifest) sample_lib secret_keys "r1" "acme"
      approved_world exported_archive exported_manifest "secret" "k1" acme_exported refl
      (acme_reads exported_manifest)
