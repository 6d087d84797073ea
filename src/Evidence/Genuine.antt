-- ===== src/Evidence/Genuine.antt =====
-- src/flagship_lab/evidence.py: what a package has that verifies with a required signature.
use flagship_lab.Core.{sha256_json}
use flagship_lab.Json.Get.{equals_text, without, get_field}
use flagship_lab.Signing.{Library, ed25519_public, PublicKey, another_public}
use flagship_lab.Json.{
  Fields, field, obj, Json, bool, end, canonical_json, int, real, decimal, text, arr, null,
}
use flagship_lab.Result.{ok, bind-ok, ok-injective}
use flagship_lab.Evidence.Verify.{
  file_errors, verify_evidence_package, no_errors, manifest_errors, VerifyKeys, without_public,
  signature_errors, read_manifest, read_entry, signed_by, present, public_errors, value_text,
  secret_errors, files_of, hash_errors,
}
use flagship_lab.Tx.{Env}
use flagship_lab.Prelude.{
  String, Option, none, some, List, Bool, if◌then◌else◌, ◌++◌, ◌≡◌, true, arith, [], Option-cases,
  ◌∷◌, false, ap, refl, inl, inr, Bool-cases, ◌==◌, eq_iff, ◌∙◌, append_empty,
}

-- A signature that one of the caller's keys confirms.
pub data IsSigned (env : Env) (lib : Library) (keys : VerifyKeys) (sig : Fields) (material : String)
    : Type 0 where
  by_key :
      (pem : String) (check : String → String → Bool)
      → keys.signing_public_key_pem ≡ some pem
      → lib.load_public pem ≡ ok (ed25519_public check)
      → signed_by check (get_field "value" sig) material ≡ true
      → IsSigned env lib keys sig material
  by_secret :
      (secret : String)
      → keys.signing_secret ≡ some secret
      → equals_text (get_field "algorithm" sig) "HMAC-SHA256" ≡ true
      → value_text env (get_field "value" sig) ≡ lib.hmac_sha256 secret material
      → IsSigned env lib keys sig material

-- Every file that is listed is in the archive, with the digest that is listed.
abbrev pub Matches : Env → List (String × String) → Fields → Type 0
Matches env entries end = Unit
Matches env entries (field name expected fs) =
    ((contents : String) × (read_entry name entries ≡ some contents)
      × (equals_text (some expected) (env.sha256_text contents) ≡ true))
    × Matches env entries fs

pub record IsGenuine (env : Env) (lib : Library) (keys : VerifyKeys) (archive : String)
    : Type 0 where
  pub entries : List (String × String)
  pub opened : lib.unzip archive ≡ ok entries
  pub manifest : Fields
  pub manifest_read : read_manifest env entries ≡ ok manifest
  pub sig : Fields
  pub signature_found : present (get_field "signature" manifest) ≡ some (obj sig)
  pub signed : IsSigned env lib keys sig (canonical_json (obj (without "signature" manifest)))
  pub hash_holds :
      equals_text
        (get_field "manifest_hash" (without "signature" manifest))
        (sha256_json env (obj (without "manifest_hash" (without "signature" manifest))))
      ≡ true
  pub files : Fields
  pub files_listed :
      files_of (get_field "files" (without "manifest_hash" (without "signature" manifest)))
      ≡ ok files
  pub files_match : Matches env entries files

if-nil : (b : Bool) (e : String) → (if b then [] else e ∷ []) ≡ [] → b ≡ true
if-nil true e h = refl
if-nil false e h = absurd (ground arith)

module _ (env : Env) (lib : Library) (keys : VerifyKeys) (material : String) where
  secret-IsSigned :
      (sig : Fields)
      → keys.require_signature ≡ true
      → without_public env lib keys sig material ≡ []
      → IsSigned env lib keys sig material
  secret-IsSigned sig required h = elim (Option-cases keys.signing_secret) [
    | inl gone ↦ absurd (ground (arith, rw (without_public, gone, required) at h))
    | inr (secret, given) ↦
        let clean : secret_errors env lib secret sig material ≡ [] =
          rw (without_public, given) at h in
        elim (Bool-cases (equals_text (get_field "algorithm" sig) "HMAC-SHA256")) [
          | inr other ↦ absurd (ground (arith, rw (secret_errors, other) at clean))
          | inl named ↦
              elim (Bool-cases
                (value_text env (get_field "value" sig) == lib.hmac_sha256 secret material)) [
                  | inr other ↦ absurd (ground (arith, rw (secret_errors, named, other) at clean))
                  | inl same ↦ by_secret secret given named ((eq_iff _ _).0 same)
                ]
        ]
  ]

  public-IsSigned :
      (key : PublicKey) (pem : String) (sig : Fields)
      → keys.signing_public_key_pem ≡ some pem
      → lib.load_public pem ≡ ok key
      → public_errors key (get_field "value" sig) material ≡ []
      → IsSigned env lib keys sig material
  public-IsSigned another_public pem sig given loaded h = absurd (ground arith)
  public-IsSigned (ed25519_public check) pem sig given loaded h =
      by_key pem check given loaded (if-nil _ _ h)

  obj-IsSigned :
      (sig : Fields)
      → keys.require_signature ≡ true
      → signature_errors env lib keys (some (obj sig)) material ≡ ok []
      → IsSigned env lib keys sig material
  unfolding signature_errors
  obj-IsSigned sig required h =
      elim (Bool-cases (equals_text (get_field "algorithm" sig) "Ed25519")) [
        | inr other ↦ secret-IsSigned sig required (ok-injective (rw other at h))
        | inl named ↦ elim (Option-cases keys.signing_public_key_pem) [
          | inl gone ↦ secret-IsSigned sig required (ok-injective (rw (named, gone) at h))
          | inr (pem, given) ↦
              let (key, loaded, clean) = bind-ok (lib.load_public pem) _ (rw (named, given) at h) in
              public-IsSigned key pem sig given loaded (ok-injective clean)
        ]
      ]

  signature_errors-IsSigned :
      (s : Option Json)
      → keys.require_signature ≡ true
      → signature_errors env lib keys s material ≡ ok []
      → (sig : Fields) × (s ≡ some (obj sig)) × IsSigned env lib keys sig material
  unfolding signature_errors
  signature_errors-IsSigned none required h = absurd (ground (arith, rw required at h))
  signature_errors-IsSigned (some (obj sig)) required h = (sig, refl, obj-IsSigned sig required h)
  signature_errors-IsSigned (some null) required h = absurd (ground arith)
  signature_errors-IsSigned (some (bool b)) required h = absurd (ground arith)
  signature_errors-IsSigned (some (int n)) required h = absurd (ground arith)
  signature_errors-IsSigned (some (real r)) required h = absurd (ground arith)
  signature_errors-IsSigned (some (decimal d)) required h = absurd (ground arith)
  signature_errors-IsSigned (some (text t)) required h = absurd (ground arith)
  signature_errors-IsSigned (some (arr xs)) required h = absurd (ground arith)

file_errors-Matches :
    (env : Env) (entries : List (String × String)) (files : Fields)
    → file_errors env entries files ≡ []
    → Matches env entries files
unfolding file_errors
file_errors-Matches env entries end h = tt
file_errors-Matches env entries (field name expected fs) h =
    elim (Option-cases (read_entry name entries)) [
      | inl gone ↦ absurd (ground (arith, rw (file_errors, gone) at h))
      | inr (contents, found) ↦
          elim (Bool-cases (equals_text (some expected) (env.sha256_text contents))) [
            | inr other ↦ absurd (ground (arith, rw (file_errors, found, other) at h))
            | inl same ↦ (
              (contents, found, same),
              file_errors-Matches env entries fs (rw (file_errors, found, same) at h),
            )
          ]
    ]

pub no_errors-nil : (errors : List String) → no_errors errors ≡ true → errors ≡ []
no_errors-nil [] h = refl
no_errors-nil (e ∷ es) h = absurd (ground arith)

module _ (env : Env) (lib : Library) (keys : VerifyKeys) (archive : String)
    (entries : List (String × String)) (manifest : Fields) where
  clean-IsGenuine :
      keys.require_signature ≡ true
      → lib.unzip archive ≡ ok entries
      → read_manifest env entries ≡ ok manifest
      → manifest_errors env lib keys entries manifest ≡ ok []
      → IsGenuine env lib keys archive
  unfolding manifest_errors
  clean-IsGenuine required opened manifest_read clean =
      let unsigned = without "signature" manifest in
      let plain = without "manifest_hash" unsigned in
      let hashes = hash_errors env plain (get_field "manifest_hash" unsigned) in
      let (first, signature_ok, h1) =
        bind-ok
          (signature_errors env lib keys (present (get_field "signature" manifest))
            (canonical_json (obj unsigned)))
          _ clean in
      let (files, files_listed, h2) = bind-ok (files_of (get_field "files" plain)) _ h1 in
      let (front_nil, files_nil) = append_empty (first ++ hashes) _ (ok-injective h2) in
      let (first_nil, hash_nil) = append_empty first hashes front_nil in
      let (sig, signature_found, signed) =
        signature_errors-IsSigned env lib keys (canonical_json (obj unsigned)) _ required
          (signature_ok ∙ ap ok first_nil) in
      record {
        entries = entries;
        opened = opened;
        manifest = manifest;
        manifest_read = manifest_read;
        sig = sig;
        signature_found = signature_found;
        signed = signed;
        hash_holds = if-nil _ _ hash_nil;
        files = files;
        files_listed = files_listed;
        files_match = file_errors-Matches env entries files files_nil;
      }

-- A package that verifies where a signature is required has a signature that the public key or
-- the secret confirms for its manifest, a manifest whose own hash is right, and every file that
-- the manifest lists, with the digest that is listed.
pub verify_evidence_package-IsGenuine :
    (env : Env) (lib : Library) (keys : VerifyKeys) (archive : String) (errors : List String)
    → keys.require_signature ≡ true
    → verify_evidence_package env lib keys archive ≡ ok (true, errors)
    → IsGenuine env lib keys archive
unfolding verify_evidence_package
verify_evidence_package-IsGenuine env lib keys archive errors required h =
    let (entries, opened, h1) = bind-ok (lib.unzip archive) _ h in
    let (manifest, manifest_read, h2) = bind-ok (read_manifest env entries) _ h1 in
    let (found, listed, h3) = bind-ok (manifest_errors env lib keys entries manifest) _ h2 in
    let none_found = no_errors-nil found (ap (λ r. r.0) (ok-injective h3)) in
    clean-IsGenuine env lib keys archive entries manifest required opened manifest_read
      (listed ∙ ap ok none_found)
