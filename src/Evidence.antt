-- ===== src/Evidence.antt =====
-- src/flagship_lab/evidence.py: the package of a run, and its verification. A package is an archive
-- of named texts; the archive format is a parameter, and so is the file that `export_tax_run`
-- writes: the model returns the package that is written.
mod Rows
pub mod Verify
pub mod Service
pub mod Genuine
pub mod RoundTrip
use flagship_lab.Json.Get.{add_field}
use flagship_lab.Schema.{Store}
use flagship_lab.Taxflow.Review.{workflows_of, is_run}
use flagship_lab.Result.{Result, ◌>=>◌, ok, err, value_error}
use flagship_lab.Json.{Json, canonical_json, Fields, field, end, obj, text, arr}
use flagship_lab.Evidence.Rows.{
  run_dict, finding_dict, audit_dict, workflow_dict, dicts, review_json,
}
use flagship_lab.Core.{sha256_json, utc_now, tenant_events}
use flagship_lab.Signing.{ed25519_key, Signature, Library, EvidenceSigner}
use flagship_lab.Tx.{Env, Tx, ◌>>=◌, gets, lift, pure, one_or_none}
use flagship_lab.Prelude.{String, Option, List, ◌++◌, some, ◌∷◌, [], select, none, ◌==◌, ◌&&◌}

-- The four files of a package, for a run of the tenant.
unfoldable pub payloads_of : Library → String → String → Store → Result (List (String × String))
unfolding run_dict finding_dict audit_dict workflow_dict workflows_of tenant_events
payloads_of lib tenant run_id s =
    one_or_none (select (is_run tenant run_id) s.tax_rule_runs) >=> λ found. elim found [
      | none ↦ err (value_error "unknown run_id")
      | some run ↦
          let findings =
            select (λ f. f.run_id == run_id && f.tenant_id == tenant) s.tax_findings.rows in
          one_or_none (workflows_of tenant run_id s) >=> λ workflow. ok (
            ("run.json", lib.dumps (run_dict run))
            ∷ ("findings.json", lib.dumps (arr (dicts finding_dict findings)))
            ∷ ("audit_events.json", lib.dumps (arr (dicts audit_dict (tenant_events tenant s))))
            ∷ ("review.json", lib.dumps (review_json workflow))
            ∷ [])
    ]

-- `{name: sha256(data).hexdigest() for name, data in payloads.items()}`
abbrev pub file_hashes : Env → List (String × String) → Fields
file_hashes env [] = end
file_hashes env ((name, contents) ∷ ps) =
    field name (text (env.sha256_text contents)) (file_hashes env ps)

-- The manifest before its own hash is added.
unfoldable pub plain_manifest :
    Env → String → String → String → String → List (String × String) → Fields
plain_manifest env format tenant run_id now payloads = field "format" (text format) (
    field "module" (text "taxflow") (
      field "tenant_id" (text tenant) (
        field "entity_id" (text run_id)
          (field "created_at" (text now) (field "files" (obj (file_hashes env payloads)) end)))))

-- `manifest["manifest_hash"] = sha256_json(manifest)`
unfoldable pub hashed_manifest :
    Env → String → String → String → String → List (String × String) → Fields
unfolding plain_manifest sha256_json add_field
hashed_manifest env format tenant run_id now payloads =
    let plain = plain_manifest env format tenant run_id now payloads in
    add_field plain "manifest_hash" (text (sha256_json env (obj plain)))

abbrev pub signature_dict : Signature → Json
signature_dict s = obj (
    field "algorithm" (text s.algorithm)
      (field "key_id" (text s.key_id) (field "value" (text s.value) end)))

unfoldable pub build_zip : Library → List (String × String) → Fields → String
build_zip lib payloads manifest =
    lib.zip (payloads ++ ("manifest.json", lib.dumps (obj manifest)) ∷ [])

-- The keys that an export may sign with.
pub record SigningKeys : Type 0 where
  pub signing_secret : Option String
  pub key_id : String
  pub signing_private_key_pem : Option String

-- The signature of an export: by the private key where there is one, else by the secret.
unfoldable pub export_signature : Env → Library → SigningKeys → Fields → Result (Option Signature)
unfolding ed25519_key canonical_json
export_signature env lib keys manifest = elim keys.signing_private_key_pem [
  | some pem ↦ lib.load_private pem >=> λ loaded. ed25519_key loaded >=> λ sign. ok (
      some (record {
        algorithm = "Ed25519";
        key_id = keys.key_id;
        value = sign (canonical_json (obj manifest));
      }))
  | none ↦ elim keys.signing_secret [
    | none ↦ ok none
    | some secret ↦ ok (
        some (record {
          algorithm = "HMAC-SHA256";
          key_id = keys.key_id;
          value = lib.hmac_sha256 secret (canonical_json (obj manifest));
        }))
  ]
]

abbrev pub with_signature : Option Signature → Fields → Fields
with_signature none manifest = manifest
with_signature (some s) manifest = add_field manifest "signature" (signature_dict s)

-- `export_tax_run`: the package that is written, and the manifest.
unfoldable pub export_tax_run : Env → Library → String → SigningKeys → String → Tx (String × Fields)
unfolding payloads_of utc_now hashed_manifest build_zip
export_tax_run env lib run_id keys tenant = do
  read ← gets (payloads_of lib tenant run_id)
  payloads ← lift read
  now ← utc_now env
  let manifest = hashed_manifest env "flagship-evidence/v1" tenant run_id now payloads
  signature ← lift (export_signature env lib keys manifest)
  let signed = with_signature signature manifest
  pure (build_zip lib payloads signed, signed)

unfoldable pub build_tax_run_package :
    Env → Library → String → String → EvidenceSigner → Tx (String × Fields)
unfolding payloads_of utc_now hashed_manifest build_zip canonical_json
build_tax_run_package env lib run_id tenant signer = do
  read ← gets (payloads_of lib tenant run_id)
  payloads ← lift read
  now ← utc_now env
  let manifest = hashed_manifest env "flagship-evidence/v2" tenant run_id now payloads
  let signed = with_signature (some (signer (canonical_json (obj manifest)))) manifest
  pure (build_zip lib payloads signed, signed)
