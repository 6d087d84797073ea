-- ===== src/Evidence/RoundTrip.antt =====
-- src/flagship_lab/evidence.py: a package that was built or exported verifies.
pub mod Verifies
use flagship_lab.Prelude.Text.{str_leb}
use flagship_lab.Taxflow.Review.{is_run, workflows_of}
use flagship_lab.Core.{sha256_json, loads}
use flagship_lab.Result.{ok, bind-ok, bind-at, ok-injective}
use flagship_lab.Json.Get.{get_field, without}
use flagship_lab.Schema.{Store}
use flagship_lab.Evidence.Verify.{
  file_errors, read_entry, VerifyKeys, verify_evidence_package, signature_errors, hash_errors,
  manifest_errors, read_manifest, present, files_of,
}
use flagship_lab.Json.{canonical_json, Fields, canon_fields, canon, text, obj, Json}
use flagship_lab.Signing.{Signature, Library}
use flagship_lab.Evidence.{
  payloads_of, hashed_manifest, plain_manifest, with_signature, signature_dict, file_hashes,
  build_zip,
}
use flagship_lab.Tx.{Env, one_or_none}
use flagship_lab.Prelude.{
  String, some, List, ◌∷◌, [], ◌≡◌, ◌++◌, refl, eq_refl, select, Option-cases, inl, arith, inr,
  true, sym, ◌∙◌, ap,
}

abbrev pub four : String → String → String → String → List (String × String)
four a b c d =
    ("run.json", a) ∷ ("findings.json", b) ∷ ("audit_events.json", c) ∷ ("review.json", d) ∷ []

pub payloads_of-four :
    (lib : Library) (tenant run_id : String) (s : Store) (ps : List (String × String))
    → payloads_of lib tenant run_id s ≡ ok ps
    → (a : String) × (b : String) × (c : String) × (d : String) × (ps ≡ four a b c d)
unfolding payloads_of
payloads_of-four lib tenant run_id s ps h =
    let (found, read, h1) =
      bind-ok (one_or_none (select (is_run tenant run_id) s.tax_rule_runs)) _ h in
    elim (Option-cases found) [
      | inl gone ↦ absurd (ground (arith, rw gone at h1))
      | inr (run, e) ↦
          let (review, read', h2) =
            bind-ok (one_or_none (workflows_of tenant run_id s)) _ (rw e at h1) in
          (_, _, _, _, sym (ok-injective h2))
    ]

loads-eq : (env : Env) (s : String) {v : Json} → env.json_loads s ≡ some v → loads env s ≡ ok v
unfolding loads
loads-eq env s h = rw (loads, h) refl

read_manifest-eq :
    (env : Env) (es : List (String × String)) {s : String} {fs : Fields}
    → read_entry "manifest.json" es ≡ some s
    → loads env s ≡ ok (obj fs)
    → read_manifest env es ≡ ok fs
read_manifest-eq env es {s = s} {fs = fs} found loaded =
    rw (read_manifest, found) (bind-at (loads env s) _ (obj fs) loaded)

-- What the verification needs of the libraries for one manifest: an archive is read back, and so
-- is the manifest, with its keys in order.
pub record ReadsBack (env : Env) (lib : Library) (manifest : Fields) : Type 0 where
  pub unzip-zip : (es : List (String × String)) → lib.unzip (lib.zip es) ≡ ok es
  pub manifest_reads : env.json_loads (lib.dumps (obj manifest)) ≡ some (canon (obj manifest))

module _ (env : Env) (format tenant run_id now : String) (a b c d : String) (s : Signature) where
  abbrev plain : Fields
  plain = plain_manifest env format tenant run_id now (four a b c d)

  abbrev hashed : Fields
  hashed = hashed_manifest env format tenant run_id now (four a b c d)

  -- The manifest as the reader returns it: its keys in order.
  abbrev read_back : Fields
  read_back = canon_fields (with_signature (some s) hashed)

  unsigned_read_back :
      canonical_json (obj (without "signature" read_back)) ≡ canonical_json (obj hashed)
  unfolding canonical_json hashed_manifest plain_manifest without canon str_leb
  unsigned_read_back = refl

  plain-read_back :
      sha256_json env (obj (without "manifest_hash" (without "signature" read_back)))
      ≡ sha256_json env (obj plain)
  unfolding canonical_json hashed_manifest plain_manifest without canon sha256_json str_leb
  plain-read_back = refl

  signature_read_back : get_field "signature" read_back ≡ some (signature_dict s)
  unfolding hashed_manifest plain_manifest get_field canon str_leb
  signature_read_back = refl

  hash_read_back :
      get_field "manifest_hash" (without "signature" read_back)
      ≡ some (text (sha256_json env (obj plain)))
  unfolding hashed_manifest plain_manifest get_field canon without str_leb
  hash_read_back = refl

  files_read_back :
      get_field "files" (without "manifest_hash" (without "signature" read_back))
      ≡ some (obj (canon_fields (file_hashes env (four a b c d))))
  unfolding hashed_manifest plain_manifest get_field canon without str_leb
  files_read_back = refl

  files_clean :
      (printed : String)
      → file_errors env
          (four a b c d ++ ("manifest.json", printed) ∷ [])
          (canon_fields (file_hashes env (four a b c d)))
        ≡ []
  unfolding file_errors read_entry canon str_leb
  files_clean printed =
      rw
        (
          eq_refl (env.sha256_text a),
          eq_refl (env.sha256_text b),
          eq_refl (env.sha256_text c),
          eq_refl (env.sha256_text d),
        )
        refl

  hash_clean :
      hash_errors env
        (without "manifest_hash" (without "signature" read_back))
        (get_field "manifest_hash" (without "signature" read_back))
      ≡ []
  hash_clean = rw (hash_read_back, plain-read_back, eq_refl (sha256_json env (obj plain))) refl

  module _ (lib : Library) (keys : VerifyKeys)
      (clean : signature_errors env lib keys (some (signature_dict s)) (canonical_json (obj hashed))
        ≡ ok []) where
    abbrev entries : List (String × String)
    entries =
        four a b c d ++ ("manifest.json", lib.dumps (obj (with_signature (some s) hashed))) ∷ []

    signature_clean :
        signature_errors env lib keys
          (present (get_field "signature" read_back))
          (canonical_json (obj (without "signature" read_back)))
        ≡ ok []
    signature_clean =
        ap
          (λ o.
            signature_errors env lib keys (present o)
              (canonical_json (obj (without "signature" read_back))))
          signature_read_back
        ∙ ap (signature_errors env lib keys (some (signature_dict s))) unsigned_read_back
        ∙ clean

    manifest_clean : manifest_errors env lib keys entries read_back ≡ ok []
    unfolding manifest_errors
    manifest_clean =
        bind-at
          (signature_errors env lib keys (present (get_field "signature" read_back))
            (canonical_json (obj (without "signature" read_back))))
          _ [] signature_clean
        ∙ bind-at
            (files_of (get_field "files" (without "manifest_hash" (without "signature" read_back))))
            _ (canon_fields (file_hashes env (four a b c d))) (rw files_read_back refl)
        ∙ rw (hash_clean, files_clean (lib.dumps (obj (with_signature (some s) hashed)))) refl

    abbrev printed_manifest : String
    printed_manifest = lib.dumps (obj (with_signature (some s) hashed))

    entry_found : read_entry "manifest.json" entries ≡ some printed_manifest
    unfolding read_entry
    entry_found = refl

    manifest_found :
        ReadsBack env lib (with_signature (some s) hashed)
        → read_manifest env entries ≡ ok read_back
    unfolding canon
    manifest_found reads =
        read_manifest-eq env entries entry_found
          (loads-eq env printed_manifest (reads.manifest_reads))

    pub built_verifies :
        ReadsBack env lib (with_signature (some s) hashed)
        → verify_evidence_package env lib keys
            (build_zip lib (four a b c d) (with_signature (some s) hashed))
          ≡ ok (true, [])
    unfolding verify_evidence_package build_zip
    built_verifies reads =
        bind-at (lib.unzip (lib.zip entries)) _ entries (reads.unzip-zip entries)
        ∙ bind-at (read_manifest env entries) _ read_back (manifest_found reads)
        ∙ bind-at (manifest_errors env lib keys entries read_back) _ [] manifest_clean
