-- ===== src/Evidence/Verify.antt =====
-- src/flagship_lab/evidence.py, `verify_evidence_package`: the errors of a package. A value of
-- another JSON type raises as in Python.
use flagship_lab.Prelude.Text.{◌<>◌}
use flagship_lab.Result.{Result, ◌>=>◌, ok, err, key_error, type_error, runtime_error}
use flagship_lab.Json.{canonical_json, Json, Fields, obj, field, end, text, null}
use flagship_lab.Signing.{PublicKey, Library, ed25519_public, another_public}
use flagship_lab.Tx.{Env}
use flagship_lab.Core.{loads, sha256_json}
use flagship_lab.Json.Get.{without, get_field, equals_text}
use flagship_lab.Prelude.{
  String, List, Bool, Option, true, none, some, if◌then◌else◌, ◌∷◌, [], ◌==◌, not, false, ◌++◌,
  ◌||◌,
}

-- What the caller verifies with.
pub record VerifyKeys : Type 0 where
  pub signing_secret : Option String
  pub require_signature : Bool
  pub signing_public_key_pem : Option String

-- `archive.read(name)`: the last entry of the name.
unfoldable pub read_entry : String → List (String × String) → Option String
read_entry name [] = none
read_entry name ((n, contents) ∷ es) = elim (read_entry name es) [
  | some later ↦ some later
  | none ↦ if n == name then some contents else none
]

-- `manifest.pop(key, None)`, where a `null` is `None` too.
abbrev pub present : Option Json → Option Json
present none = none
present (some null) = none
present (some v) = some v

-- `public_key.verify(...)` in its `try`; a value that is no text is refused by the decoder.
abbrev pub signed_by : (String → String → Bool) → Option Json → String → Bool
signed_by check none material = check "" material
signed_by check (some (text value)) material = check value material
signed_by check (some _) material = false

abbrev pub public_errors : PublicKey → Option Json → String → List String
public_errors another_public value material = "unsupported_public_key" ∷ []
public_errors (ed25519_public check) value material =
    if signed_by check value material then [] else "signature_mismatch" ∷ []

-- `str(signature.get("value", ""))`
abbrev pub value_text : Env → Option Json → String
value_text env none = ""
value_text env (some (text s)) = s
value_text env (some v) = env.str v

abbrev pub secret_errors : Env → Library → String → Fields → String → List String
secret_errors env lib secret sig material =
    if not (equals_text (get_field "algorithm" sig) "HMAC-SHA256")
      || not (value_text env (get_field "value" sig) == lib.hmac_sha256 secret material)
    then "signature_mismatch" ∷ []
    else []

-- The tests after the public key: the secret, or the lack of any key.
abbrev pub without_public : Env → Library → VerifyKeys → Fields → String → List String
without_public env lib keys sig material = elim keys.signing_secret [
  | some secret ↦ secret_errors env lib secret sig material
  | none ↦ if keys.require_signature then "verification_key_missing" ∷ [] else []
]

unfoldable pub signature_errors :
    Env → Library → VerifyKeys → Option Json → String → Result (List String)
unfolding get_field
signature_errors env lib keys none material =
    ok (if keys.require_signature then "signature_missing" ∷ [] else [])
signature_errors env lib keys (some (obj sig)) material =
    if equals_text (get_field "algorithm" sig) "Ed25519"
    then elim keys.signing_public_key_pem [
      | some pem ↦
          lib.load_public pem >=> λ key. ok (public_errors key (get_field "value" sig) material)
      | none ↦ ok (without_public env lib keys sig material)
    ]
    else ok (without_public env lib keys sig material)
signature_errors env lib keys (some _) material = err (runtime_error "AttributeError")

-- The loop over `manifest.get("files", {}).items()`.
unfoldable pub file_errors : Env → List (String × String) → Fields → List String
unfolding read_entry
file_errors env entries end = []
file_errors env entries (field name expected fs) =
    let rest = file_errors env entries fs in
    elim (read_entry name entries) [
      | none ↦ ("missing:" <> name) ∷ rest
      | some contents ↦
          if equals_text (some expected) (env.sha256_text contents)
          then rest
          else ("hash_mismatch:" <> name) ∷ rest
    ]

abbrev pub files_of : Option Json → Result Fields
files_of none = ok end
files_of (some (obj fs)) = ok fs
files_of (some _) = err (runtime_error "AttributeError")

abbrev pub hash_errors : Env → Fields → Option Json → List String
hash_errors env manifest supplied =
    if equals_text supplied (sha256_json env (obj manifest))
    then []
    else "manifest_hash_mismatch" ∷ []

-- The errors of a manifest that was read, in the order in which they are found.
unfoldable pub manifest_errors :
    Env → Library → VerifyKeys → List (String × String) → Fields → Result (List String)
unfolding signature_errors without get_field canonical_json sha256_json file_errors
manifest_errors env lib keys entries manifest =
    let unsigned = without "signature" manifest in
    let plain = without "manifest_hash" unsigned in
    signature_errors env lib keys (present (get_field "signature" manifest))
      (canonical_json (obj unsigned))
    >=> λ first. files_of (get_field "files" plain) >=> λ files. ok (
        first
        ++ hash_errors env plain (get_field "manifest_hash" unsigned)
        ++ file_errors env entries files)

abbrev pub read_manifest : Env → List (String × String) → Result Fields
read_manifest env entries = elim (read_entry "manifest.json" entries) [
  | none ↦ err (key_error "manifest.json")
  | some printed ↦ loads env printed >=> λ value. elim value [ obj fs ↦ ok fs | _ ↦ err type_error ]
]

abbrev pub no_errors : List String → Bool
no_errors [] = true
no_errors (_ ∷ _) = false

-- The verdict, and the errors.
unfoldable pub verify_evidence_package :
    Env → Library → VerifyKeys → String → Result (Bool × List String)
unfolding read_entry loads manifest_errors
verify_evidence_package env lib keys archive = lib.unzip archive >=> λ entries.
    read_manifest env entries >=> λ manifest.
    manifest_errors env lib keys entries manifest >=> λ errors. ok (no_errors errors, errors)
