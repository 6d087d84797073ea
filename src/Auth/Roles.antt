-- ===== src/Auth/Roles.antt =====
-- src/flagship_lab/auth.py: the roles that a claim holds, as a list or as the keys of a dict.
use Prim.Native.Char.{Char}
use flagship_lab.Prelude.Text.{count}
use flagship_lab.Result.{ok, bind-ok, ok-injective, reject_if-ok, type_error}
use flagship_lab.Auth.{
  members_of, is_known, is_role, is_allowed, role_set, keys_of, bad_roles, hashable,
}
use flagship_lab.Json.{
  Items, Json, Fields, arr, field, cons, text, end, obj, nil, bool, int, real, decimal, null,
}
use flagship_lab.TaxRules.{mem_text}
use flagship_lab.Prelude.{
  List, all, String, ◌∷◌, Option, [], ◌≡◌, true, ◌⊎◌, some, arith, Bool-cases, and_true, ◌==◌, inl,
  eq_iff, sym, inr, any, not, ap, false, none, refl,
}

-- The text stands in the list.
abbrev pub Listed : String → List String → Type 0
Listed s [] = ⊥
Listed s (x ∷ xs) = (x ≡ s) ⊎ Listed s xs

abbrev pub EachText : (String → Type 0) → Items → Type 0
EachText P nil = Unit
EachText P (cons (text s) xs) = P s × EachText P xs
EachText P (cons _ xs) = ⊥

abbrev pub SomeText : (String → Type 0) → Items → Type 0
SomeText P nil = ⊥
SomeText P (cons (text s) xs) = P s ⊎ SomeText P xs
SomeText P (cons _ xs) = SomeText P xs

abbrev pub EachKey : (String → Type 0) → Fields → Type 0
EachKey P end = Unit
EachKey P (field k v fs) = P k × EachKey P fs

abbrev pub SomeKey : (String → Type 0) → Fields → Type 0
SomeKey P end = ⊥
SomeKey P (field k v fs) = P k ⊎ SomeKey P fs

-- Every member of a list is a text with the property; or every key of a dict has it.
abbrev pub EachName : (String → Type 0) → Json → Type 0
EachName P (arr xs) = EachText P xs
EachName P (obj fs) = EachKey P fs
EachName P _ = ⊥

-- Some member of a list, or some key of a dict, has the property.
abbrev pub SomeName : (String → Type 0) → Json → Type 0
SomeName P (arr xs) = SomeText P xs
SomeName P (obj fs) = SomeKey P fs
SomeName P _ = ⊥

abbrev pub known_roles : List String
known_roles = "viewer" ∷ "analyst" ∷ "reviewer" ∷ "admin" ∷ []

listed : (s : String) (xs : List String) → mem_text s xs ≡ true → Listed s xs
listed s [] h = absurd (ground arith)
listed s (x ∷ xs) h = elim (Bool-cases (x == s)) [
  | inl here ↦ inl ((eq_iff x s).0 here)
  | inr other ↦ inr (listed s xs (rw other at h))
]

module _ (xs : Items) where
  known_text :
      (v : Json)
      → is_known v ≡ true
      → EachText (λ s. Listed s known_roles) xs
      → EachText (λ s. Listed s known_roles) (cons v xs)
  known_text (text s) h rest = (listed s known_roles h, rest)
  known_text null h rest = absurd (ground arith)
  known_text (bool b) h rest = absurd (ground arith)
  known_text (int n) h rest = absurd (ground arith)
  known_text (real r) h rest = absurd (ground arith)
  known_text (decimal d) h rest = absurd (ground arith)
  known_text (arr ys) h rest = absurd (ground arith)
  known_text (obj fs) h rest = absurd (ground arith)

  allowed_text :
      (allowed : List String) (v : Json)
      → is_allowed allowed v ≡ true
      → SomeText (λ s. Listed s allowed) (cons v xs)
  allowed_text allowed (text s) h = inl (listed s allowed h)
  allowed_text allowed null h = absurd (ground arith)
  allowed_text allowed (bool b) h = absurd (ground arith)
  allowed_text allowed (int n) h = absurd (ground arith)
  allowed_text allowed (real r) h = absurd (ground arith)
  allowed_text allowed (decimal d) h = absurd (ground arith)
  allowed_text allowed (arr ys) h = absurd (ground arith)
  allowed_text allowed (obj fs) h = absurd (ground arith)

  later_text : (P : String → Type 0) (v : Json) → SomeText P xs → SomeText P (cons v xs)
  later_text P (text s) h = inr h
  later_text P null h = h
  later_text P (bool b) h = h
  later_text P (int n) h = h
  later_text P (real r) h = h
  later_text P (decimal d) h = h
  later_text P (arr ys) h = h
  later_text P (obj fs) h = h

-- The members of a list that has a first one.
members_of-cons :
    (v : Json) (xs : Items) (ms : List Json)
    → members_of (cons v xs) ≡ ok ms
    → (rest : List Json) × (members_of xs ≡ ok rest) × (ms ≡ v ∷ rest)
members_of-cons v xs ms h =
    let (fine, h1) = reject_if-ok (not (hashable v)) type_error _ h in
    let (rest, read, same) = bind-ok (members_of xs) _ h1 in (rest, read, sym (ok-injective same))

members_known :
    (xs : Items) (ms : List Json)
    → members_of xs ≡ ok ms
    → all is_known ms ≡ true
    → EachText (λ s. Listed s known_roles) xs
unfolding all
members_known nil ms h known = tt
members_known (cons v xs) ms h known =
    let (rest, read, same) = members_of-cons v xs ms h in
    let (here, others) = and_true (is_known v) (all is_known rest) (rw same at known) in
    known_text xs v here (members_known xs rest read others)

members_allowed :
    (allowed : List String) (xs : Items) (ms : List Json)
    → members_of xs ≡ ok ms
    → any (is_allowed allowed) ms ≡ true
    → SomeText (λ s. Listed s allowed) xs
unfolding any
members_allowed allowed nil ms h found = absurd (ground (arith, rw (sym (ok-injective h)) at found))
members_allowed allowed (cons v xs) ms h found =
    let (rest, read, same) = members_of-cons v xs ms h in
    elim (Bool-cases (is_allowed allowed v)) [
      | inl here ↦ allowed_text xs allowed v here
      | inr other ↦
          later_text xs (λ s. Listed s allowed) v
            (members_allowed allowed xs rest read (rw (same, other) at found))
    ]

keys_known :
    (fs : Fields) → all is_known (keys_of fs) ≡ true → EachKey (λ s. Listed s known_roles) fs
unfolding all
keys_known end h = tt
keys_known (field k v fs) h =
    let (here, others) = and_true (is_role k) (all is_known (keys_of fs)) h in
    (listed k known_roles here, keys_known fs others)

keys_allowed :
    (allowed : List String) (fs : Fields)
    → any (is_allowed allowed) (keys_of fs) ≡ true
    → SomeKey (λ s. Listed s allowed) fs
unfolding any
keys_allowed allowed end h = absurd (ground arith)
keys_allowed allowed (field k v fs) h = elim (Bool-cases (mem_text k allowed)) [
  | inl here ↦ inl (listed k allowed here)
  | inr other ↦ inr (keys_allowed allowed fs (rw other at h))
]

-- No character is a role.
character_unknown : (c : Char) → Listed (String.◌∷◌ c String.[]) known_roles → ⊥
character_unknown c h = elim h [
  | inl e ↦ omega (arith, ap count e)
  | inr h1 ↦ elim h1 [
    | inl e ↦ omega (arith, ap count e)
    | inr h2 ↦ elim h2 [
      | inl e ↦ omega (arith, ap count e)
      | inr h3 ↦ elim h3 [ inl e ↦ omega (arith, ap count e) | inr none_left ↦ none_left ]
    ]
  ]
]

-- What the roles of a claim are, whose set has no unknown member and an allowed one.
pub claimed_roles :
    (allowed : List String) (claim : Option Json) (ms : List Json)
    → role_set claim ≡ ok ms
    → bad_roles ms ≡ false
    → any (is_allowed allowed) ms ≡ true
    → (roles : Json) × (claim ≡ some roles)
      × EachName (λ s. Listed s known_roles) roles
      × SomeName (λ s. Listed s allowed) roles
unfolding role_set all any
claimed_roles allowed none ms h good found =
    absurd (ground (arith, rw (sym (ok-injective h)) at found))
claimed_roles allowed (some (arr xs)) ms h good found =
    (arr xs, refl, members_known xs ms h (ground arith), members_allowed allowed xs ms h found)
claimed_roles allowed (some (obj fs)) ms h good found =
    let same = sym (ok-injective h) in
    let known : all is_known (keys_of fs) ≡ true = ground (arith, rw same at good) in
    (obj fs, refl, keys_known fs known, keys_allowed allowed fs (rw same at found))
claimed_roles allowed (some (text String.[])) ms h good found =
    absurd (ground (arith, rw (sym (ok-injective h)) at found))
claimed_roles allowed (some (text (String.◌∷◌ c s))) ms h good found =
    let known : is_role (String.◌∷◌ c String.[]) ≡ true =
      ground (arith, rw (sym (ok-injective h)) at good) in
    absurd (character_unknown c (listed _ known_roles known))
claimed_roles allowed (some null) ms h good found = absurd (ground arith)
claimed_roles allowed (some (bool b)) ms h good found = absurd (ground arith)
claimed_roles allowed (some (int n)) ms h good found = absurd (ground arith)
claimed_roles allowed (some (real r)) ms h good found = absurd (ground arith)
claimed_roles allowed (some (decimal d)) ms h good found = absurd (ground arith)
