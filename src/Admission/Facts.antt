-- ===== src/Admission/Facts.antt =====
-- src/flagship_lab/admission.py: what the tests on single values stand for.
use mathlib.Core.Path.{subst}
use flagship_lab.Prelude.Int.{pos, negsuc}
use Prim.Native.Char.{code}
use flagship_lab.Prelude.Text.{count}
use flagship_lab.Json.{Json, Fields, int, real, bool, decimal, text, arr, obj, null}
use flagship_lab.Admission.{
  Url, not_durable, error_if, all_hex, is_hex_digit, is_hex, not_production, under_evidence,
  is_three, controls_of,
}
use flagship_lab.Prelude.{
  Bool, Option, ℕ, String, List, ◌≤◌, ◌∷◌, ◌≡◌, not, ◌⊎◌, some, false, [], ◌==◌, true, arith,
  and_true, Bool-cases, All, eqb, leb, inl, refl, ap, eqb_iff, ◌&&◌, eq_iff, inr, none, sym,
}

-- The version of the schema is the number three.
pub data IsThree : Option Json → Type 0 where
  whole : IsThree (some (int (pos 3)))
  decimal_point : IsThree (some (real "3.0"))

-- `n` lowercase hexadecimal digits.
abbrev pub EachHex : String → Type 0
EachHex String.[] = Unit
EachHex (String.◌∷◌ c s) =
    ((b'0' ≤ code c) × (code c ≤ b'9') ⊎ (b'a' ≤ code c) × (code c ≤ b'f')) × EachHex s

pub record IsHex (n : ℕ) (s : String) : Type 0 where
  pub digits : count s ≡ n
  pub each : EachHex s

-- An address at a store, with a host or a bucket.
pub record IsStored (u : Url) : Type 0 where
  pub scheme_known : (u.scheme ≡ "https") ⊎ ((u.scheme ≡ "s3") ⊎ (u.scheme ≡ "gs"))
  pub placed : (u.netloc == "") ≡ false

-- An address that is a name.
pub record IsUrn (u : Url) : Type 0 where
  pub scheme_urn : u.scheme ≡ "urn"
  pub named : (u.path == "") ≡ false

-- Environments that are not like production.
abbrev pub unfit_environments : List String
unfit_environments = "" ∷ "dev" ∷ "development" ∷ "local" ∷ "test" ∷ []

pub error_if-nil : (t : Bool) (m : String) → error_if t m ≡ [] → t ≡ false
error_if-nil true m h = absurd (ground arith)
error_if-nil false m h = refl

pub not-false : (b : Bool) → not b ≡ false → b ≡ true
not-false true h = refl
not-false false h = absurd (ground arith)

hex_digit : (c : ℕ) → is_hex_digit c ≡ true → (b'0' ≤ c) × (c ≤ b'9') ⊎ (b'a' ≤ c) × (c ≤ b'f')
hex_digit c h = elim (Bool-cases (leb b'0' c && leb c b'9')) [
  | inl number ↦ inl (ground arith, ground arith)
  | inr other ↦ inr (ground arith, ground arith)
]

each_hex : (s : String) → all_hex s ≡ true → EachHex s
each_hex String.[] h = tt
each_hex (String.◌∷◌ c s) h =
    let (here, rest) = and_true (is_hex_digit (code c)) (all_hex s) h in
    (hex_digit (code c) here, each_hex s rest)

pub hexadecimal : (n : ℕ) (s : String) → is_hex n s ≡ true → IsHex n s
hexadecimal n s h =
    let (long, each) = and_true (eqb (count s) n) (all_hex s) h in
    record { digits = (eqb_iff (count s) n).0 long; each = each_hex s each }

pub three : (o : Option Json) → not (is_three o) ≡ false → IsThree o
three none h = absurd (ground arith)
three (some (int (pos n))) h =
    let e : 3 ≡ n = ground arith in subst (λ k. IsThree (some (int (pos k)))) e IsThree.whole
three (some (int (negsuc n))) h = absurd (ground arith)
three (some (real r)) h =
    let e : "3.0" ≡ r = sym ((eq_iff r "3.0").0 (not-false _ h)) in
    subst (λ k. IsThree (some (real k))) e IsThree.decimal_point
three (some null) h = absurd (ground arith)
three (some (bool b)) h = absurd (ground arith)
three (some (decimal d)) h = absurd (ground arith)
three (some (text s)) h = absurd (ground arith)
three (some (arr xs)) h = absurd (ground arith)
three (some (obj fs)) h = absurd (ground arith)

pub durable_url : (u : Url) → not_durable u ≡ false → IsStored u ⊎ IsUrn u
durable_url u h = elim (Bool-cases (u.scheme == "urn")) [
  | inl urn ↦ inr (record { scheme_urn = (eq_iff u.scheme "urn").0 urn; named = ground arith })
  | inr other ↦ elim (Bool-cases (u.scheme == "https")) [
    | inl https ↦
        inl
          (record { scheme_known = inl ((eq_iff u.scheme "https").0 https); placed = ground arith })
    | inr not_https ↦ elim (Bool-cases (u.scheme == "s3")) [
      | inl s3 ↦
          inl (record {
            scheme_known = inr (inl ((eq_iff u.scheme "s3").0 s3));
            placed = ground arith;
          })
      | inr not_s3 ↦ inl (record {
        scheme_known = inr (inr ((eq_iff u.scheme "gs").0 (ground arith)));
        placed = ground arith;
      })
    ]
  ]
]

pub under : (o : Option String) → not (under_evidence o) ≡ false → o ≡ some "evidence"
under none h = absurd (ground arith)
under (some part) h = ap some ((eq_iff part "evidence").0 (not-false _ h))

pub fit : (e : String) → not_production e ≡ false → All (λ x. (e == x) ≡ false) unfit_environments
fit e h = (ground arith, (ground arith, (ground arith, (ground arith, (ground arith, tt)))))

pub dict_there :
    (o : Option Fields)
    → (elim o [ none ↦ true | some _ ↦ false ]) ≡ false
    → o ≡ some (controls_of o)
dict_there none h = absurd (ground arith)
dict_there (some fs) h = refl
