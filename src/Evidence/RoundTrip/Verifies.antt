-- ===== src/Evidence/RoundTrip/Verifies.antt =====
-- src/flagship_lab/evidence.py: packages that were built or exported verify.
use flagship_lab.Evidence.RoundTrip.{built_verifies, ReadsBack, payloads_of-four, four}
use flagship_lab.Tx.Bind.{and_then-eq-ok}
use flagship_lab.Core.{utc_now}
use flagship_lab.Result.{ok, bind-at, ok-injective}
use flagship_lab.Json.Get.{get_field}
use flagship_lab.Evidence.Verify.{VerifyKeys, verify_evidence_package, signature_errors}
use flagship_lab.Json.{canonical_json, Fields, obj}
use flagship_lab.Signing.{Signature, Library, ed25519_public, EvidenceSigner}
use flagship_lab.Evidence.{
  payloads_of, hashed_manifest, signature_dict, build_tax_run_package, export_tax_run,
  export_signature,
}
use flagship_lab.Tx.{Env, World}
use flagship_lab.Prelude.{String, none, some, [], ◌≡◌, refl, eq_refl, true, sym, ◌∙◌, ap, Bool}

module _ (env : Env) (lib : Library) (keys : VerifyKeys) (s : Signature) (material : String) where
  signed_by_key :
      (pem : String) (check : String → String → Bool)
      → keys.signing_public_key_pem ≡ some pem
      → lib.load_public pem ≡ ok (ed25519_public check)
      → s.algorithm ≡ "Ed25519"
      → check s.value material ≡ true
      → signature_errors env lib keys (some (signature_dict s)) material ≡ ok []
  unfolding signature_errors get_field
  signed_by_key pem check given loaded named holds =
      rw (named, given)
        (bind-at (lib.load_public pem) _ (ed25519_public check) loaded ∙ rw holds refl)

  signed_by_secret :
      (secret : String)
      → keys.signing_secret ≡ some secret
      → s.algorithm ≡ "HMAC-SHA256"
      → s.value ≡ lib.hmac_sha256 secret material
      → signature_errors env lib keys (some (signature_dict s)) material ≡ ok []
  unfolding signature_errors get_field
  signed_by_secret secret given named holds =
      rw (named, given, holds, eq_refl (lib.hmac_sha256 secret material)) refl

module _ (env : Env) (lib : Library) (keys : VerifyKeys) (run_id tenant : String) (w : World)
    (archive : String) (manifest : Fields) where
  -- A package that was built verifies without an error under the public key of the signer, where
  -- the signer signs with Ed25519 what the key confirms, and the archive and the manifest are
  -- read back.
  pub verify_evidence_package-build :
      (signer : EvidenceSigner) (pem : String) (check : String → String → Bool)
      → (build_tax_run_package env lib run_id tenant signer w).0 ≡ ok (archive, manifest)
      → keys.signing_public_key_pem ≡ some pem
      → lib.load_public pem ≡ ok (ed25519_public check)
      → ((m : String) → ((signer m).algorithm ≡ "Ed25519") × (check (signer m).value m ≡ true))
      → ReadsBack env lib manifest
      → verify_evidence_package env lib keys archive ≡ ok (true, [])
  unfolding build_tax_run_package utc_now
  verify_evidence_package-build signer pem check h given loaded signs reads =
      let (ps, read, run, rest) =
        and_then-eq-ok (payloads_of lib tenant run_id w.store, w) _ (archive, manifest) h in
      let (a, b, c, d, files) = payloads_of-four lib tenant run_id w.store ps read in
      let now = env.clock w.ticks in
      let material =
        canonical_json
          (obj (hashed_manifest env "flagship-evidence/v2" tenant run_id now (four a b c d))) in
      let same = ok-injective (rw files at rest) in
      let verified =
        built_verifies env "flagship-evidence/v2" tenant run_id now a b c d (signer material) lib
          keys
          (signed_by_key env lib keys (signer material) material pem check given loaded
            (signs material).0 (signs material).1)
          (rw (sym (ap (λ r. r.1) same)) at reads) in
      rw (sym (ap (λ r. r.0) same)) verified

  -- A package that was exported with a secret alone verifies without an error under that secret,
  -- where the archive and the manifest are read back.
  pub verify_evidence_package-export :
      (secret key_id : String)
      → (export_tax_run env lib run_id
          (record { signing_secret = some secret; key_id = key_id; signing_private_key_pem = none })
          tenant
          w).0
        ≡ ok (archive, manifest)
      → keys.signing_secret ≡ some secret
      → ReadsBack env lib manifest
      → verify_evidence_package env lib keys archive ≡ ok (true, [])
  unfolding export_tax_run utc_now export_signature
  verify_evidence_package-export secret key_id h given reads =
      let (ps, read, run, rest) =
        and_then-eq-ok (payloads_of lib tenant run_id w.store, w) _ (archive, manifest) h in
      let (a, b, c, d, files) = payloads_of-four lib tenant run_id w.store ps read in
      let now = env.clock w.ticks in
      let material =
        canonical_json
          (obj (hashed_manifest env "flagship-evidence/v1" tenant run_id now (four a b c d))) in
      let s : Signature = record {
        algorithm = "HMAC-SHA256";
        key_id = key_id;
        value = lib.hmac_sha256 secret material;
      } in
      let same = ok-injective (rw files at rest) in
      let verified =
        built_verifies env "flagship-evidence/v1" tenant run_id now a b c d s lib keys
          (signed_by_secret env lib keys s material secret given refl refl)
          (rw (sym (ap (λ r. r.1) same)) at reads) in
      rw (sym (ap (λ r. r.0) same)) verified
