-- ===== src/Admission/Passed.antt =====
-- src/flagship_lab/admission.py: the controls of an admission without errors.
use flagship_lab.Admission.Facts.{
  IsHex, not-false, IsStored, hexadecimal, error_if-nil, durable_url, IsUrn, under,
}
use flagship_lab.Json.Get.{equals_text, get_field}
use flagship_lab.TaxRules.{mem_text}
use flagship_lab.Prelude.Int.{ℤ, leb_ℤ, pos}
use flagship_lab.Admission.{
  verifier_errors, Readings, EvidenceFile, dict_at, check_file, time_errors, str_at, is_hex,
  outside, digest_errors, control_errors, controls_errors, verify_file,
}
use flagship_lab.Tx.{Env}
use flagship_lab.Json.{Fields}
use flagship_lab.Prelude.{
  String, Bool, ℕ, List, ◌≡◌, Option, not, ◌∷◌, [], false, ◌==◌, some, true, arith, refl, eqb,
  Bool-cases, ◌||◌, inl, ltb, ◌*◌, inr, none, Option-cases, append_empty, ◌∙◌, ◌⊎◌, ◌≤◌,
}

-- A control that passed, with an independent verifier, a durable address, a file of its own under
-- `evidence/` with the digest that is stated, and a time that is neither ahead nor too old.
pub record IsPassed (env : Env) (io : Readings) (max_age_hours : ℕ) (deployed_by : String)
    (controls : Fields) (name : String) : Type 0 where
  pub item : Fields
  pub listed : dict_at name controls ≡ some item
  pub passed : equals_text (get_field "status" item) "passed" ≡ true
  pub has_verifier : (io.casefolded (str_at env "verifier" item) == "") ≡ false
  pub independent : (io.casefolded (str_at env "verifier" item) == deployed_by) ≡ false
  pub durable :
      IsStored (io.urlparse (str_at env "evidence_uri" item))
      ⊎ IsUrn (io.urlparse (str_at env "evidence_uri" item))
  pub digest_stated : IsHex 64 (str_at env "evidence_sha256" item)
  pub relative : io.is_absolute (str_at env "evidence_file" item) ≡ false
  pub inside : io.first_part (str_at env "evidence_file" item) ≡ some "evidence"
  pub file : EvidenceFile
  pub resolved : io.resolve (str_at env "evidence_file" item) ≡ some file
  pub regular : file.regular_inside ≡ true
  pub not_empty : 1 ≤ file.size
  pub size_bounded : file.size ≤ 50 * 1024 * 1024
  pub digest_matches : equals_text (get_field "evidence_sha256" item) file.digest ≡ true
  pub age : ℤ
  pub dated : io.age (str_at env "verified_at_utc" item) ≡ some age
  pub not_ahead : leb_ℤ (pos 0) age ≡ true
  pub not_old : leb_ℤ age (pos (max_age_hours * 3600 * 1000000)) ≡ true

-- Every control passed, and no file serves two of them.
abbrev pub AllPassed : Env → Readings → ℕ → String → Fields → List String → List String → Type 0
AllPassed env io max_age_hours deployed_by controls [] seen = Unit
AllPassed env io max_age_hours deployed_by controls (name ∷ names) seen =
    (p : IsPassed env io max_age_hours deployed_by controls name) × (mem_text p.file.path seen
      ≡ false)
    × AllPassed env io max_age_hours deployed_by controls names (p.file.path ∷ seen)

-- The file of a control without an error, as the loop has checked it.
check_file-nil :
    (name : String) (item : Fields) (seen : List String) (f : EvidenceFile)
    → (check_file name item seen f).0 ≡ []
    → (f.regular_inside ≡ true)
      × (mem_text f.path seen ≡ false)
      × ((eqb f.size 0 || ltb (50 * 1024 * 1024) f.size) ≡ false)
      × (equals_text (get_field "evidence_sha256" item) f.digest ≡ true)
      × ((check_file name item seen f).1 ≡ f.path ∷ seen)
check_file-nil name item seen f h = elim (Bool-cases f.regular_inside) [
  | inr odd ↦ absurd (ground (arith, rw (check_file, odd) at h))
  | inl regular ↦ elim (Bool-cases (mem_text f.path seen)) [
    | inl used ↦ absurd (ground (arith, rw (check_file, regular, used) at h))
    | inr new ↦ elim (Bool-cases (eqb f.size 0 || ltb (50 * 1024 * 1024) f.size)) [
      | inl large ↦ absurd (ground (arith, rw (check_file, regular, new, large) at h))
      | inr sized ↦ (
        regular,
        new,
        sized,
        not-false _ (error_if-nil _ _ (rw (check_file, regular, new, sized) at h)),
        rw (check_file, regular, new, sized) refl,
      )
    ]
  ]
]

neither : (a b : Bool) → (not a || not b) ≡ false → (a ≡ true) × (b ≡ true)
neither true true h = (refl, refl)
neither true false h = absurd (ground arith)
neither false b h = absurd (ground arith)

time_errors-nil :
    (name : String) (max_age_hours : ℕ) (o : Option ℤ)
    → time_errors name max_age_hours o ≡ []
    → (age : ℤ) × (o ≡ some age)
      × (leb_ℤ (pos 0) age ≡ true)
      × (leb_ℤ age (pos (max_age_hours * 3600 * 1000000)) ≡ true)
time_errors-nil name max_age_hours none h = absurd (ground arith)
time_errors-nil name max_age_hours (some age) h =
    let (low, high) = neither _ _ (error_if-nil _ _ h) in (age, refl, low, high)

verifier_errors-nil :
    (name verifier deployed_by : String)
    → verifier_errors name verifier deployed_by ≡ []
    → ((verifier == "") ≡ false) × ((verifier == deployed_by) ≡ false)
verifier_errors-nil name verifier deployed_by h = elim (Bool-cases (verifier == "")) [
  | inl empty ↦ absurd (ground (arith, rw (verifier_errors, empty) at h))
  | inr named ↦ (named, error_if-nil _ _ (rw (verifier_errors, named) at h))
]

module _ (env : Env) (io : Readings) (max_age_hours : ℕ) (deployed_by : String)
    (controls : Fields) where
  digest_errors-nil :
      (name : String) (item : Fields) (seen : List String)
      → (digest_errors env io name item seen).0 ≡ []
      → (is_hex 64 (str_at env "evidence_sha256" item) ≡ true)
        × (outside env io item ≡ false)
        × ((f : EvidenceFile) × (io.resolve (str_at env "evidence_file" item) ≡ some f)
            × ((check_file name item seen f).0 ≡ [])
            × ((digest_errors env io name item seen).1 ≡ (check_file name item seen f).1))
  unfolding digest_errors verify_file
  digest_errors-nil name item seen h =
      elim (Bool-cases (is_hex 64 (str_at env "evidence_sha256" item))) [
        | inr odd ↦ absurd (ground (arith, rw odd at h))
        | inl hex ↦ elim (Bool-cases (outside env io item)) [
          | inl out ↦ absurd (ground (arith, rw (hex, verify_file, out) at h))
          | inr within ↦ elim (Option-cases (io.resolve (str_at env "evidence_file" item))) [
            | inl gone ↦ absurd (ground (arith, rw (hex, verify_file, within, gone) at h))
            | inr (f, found) ↦ (
              hex,
              within,
              (
                f,
                found,
                rw (hex, verify_file, within, found) at h,
                rw (hex, verify_file, within, found) refl,
              ),
            )
          ]
        ]
      ]

  control_errors-nil :
      (name : String) (item : Fields) (seen : List String)
      → dict_at name controls ≡ some item
      → (control_errors env io max_age_hours deployed_by name item seen).0 ≡ []
      → (p : IsPassed env io max_age_hours deployed_by controls name) × (mem_text p.file.path seen
          ≡ false)
        × ((control_errors env io max_age_hours deployed_by name item seen).1 ≡ p.file.path ∷ seen)
  unfolding control_errors
  control_errors-nil name item seen listed h =
      let (status_nil, h1) = append_empty _ _ h in
      let (verifier_nil, h2) = append_empty _ _ h1 in
      let (uri_nil, h3) = append_empty _ _ h2 in
      let (file_nil, time_nil) = append_empty _ _ h3 in
      let (verified, independent) = verifier_errors-nil _ _ _ verifier_nil in
      let (hex, within, (f, found, clean, same)) = digest_errors-nil name item seen file_nil in
      let (regular, new, sized, matches, after) = check_file-nil name item seen f clean in
      let (age, dated, low, high) = time_errors-nil _ _ _ time_nil in
      (
        record {
          item = item;
          listed = listed;
          passed = not-false _ (error_if-nil _ _ status_nil);
          has_verifier = verified;
          independent = independent;
          durable = durable_url _ (error_if-nil _ _ uri_nil);
          digest_stated = hexadecimal 64 _ hex;
          relative = ground arith;
          inside = under _ (ground arith);
          file = f;
          resolved = found;
          regular = regular;
          not_empty = ground arith;
          size_bounded = ground arith;
          digest_matches = matches;
          age = age;
          dated = dated;
          not_ahead = low;
          not_old = high;
        },
        new,
        same ∙ after,
      )

  pub controls_errors-nil :
      (names seen : List String)
      → controls_errors env io max_age_hours deployed_by controls names seen ≡ []
      → AllPassed env io max_age_hours deployed_by controls names seen
  unfolding controls_errors
  controls_errors-nil [] seen h = tt
  controls_errors-nil (name ∷ names) seen h = elim (Option-cases (dict_at name controls)) [
    | inl gone ↦ absurd (ground (arith, rw (controls_errors, gone) at h))
    | inr (item, listed) ↦
        let (here, rest) = append_empty _ _ (rw (controls_errors, listed) at h) in
        let (p, new, after) = control_errors-nil name item seen listed here in
        (p, new, controls_errors-nil names (p.file.path ∷ seen) (rw after at rest))
  ]
