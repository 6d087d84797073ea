-- ===== src/Authorization/Fuel.antt =====
-- src/flagship_lab/authorization.py: the length of a pattern is fuel enough for its tokens.
use Prim.Native.Char.{code}
use flagship_lab.Prelude.Text.{count}
use flagship_lab.Authorization.{set_split, tokens, split_set}
use flagship_lab.Prelude.{
  String, ℕ, zero, suc, some, Bool, ◌≡◌, ◌≤◌, arith, Option-cases, Bool-cases, eqb, inl, inr, ◌&&◌,
  refl, true, not, false,
}

split_set-shorter :
    (first : Bool) (s : String) {inside after : String}
    → split_set first s ≡ some (inside, after)
    → count after ≤ count s
split_set-shorter first String.[] h = absurd (ground arith)
split_set-shorter first (String.◌∷◌ c s) {inside = inside} {after = after} h =
    elim (Bool-cases (eqb (code c) b']' && not first)) [
      | inl closed ↦ ground (arith, rw closed at h)
      | inr inner ↦ elim (Option-cases (split_set false s)) [
        | inl gone ↦ absurd (ground (arith, rw (inner, gone) at h))
        | inr ((i, a), found) ↦
            let shorter = split_set-shorter false s found in ground (arith, rw (inner, found) at h)
      ]
    ]

set_split-shorter :
    (s : String) {inside after : String}
    → set_split s ≡ some (inside, after)
    → count after ≤ count s
set_split-shorter String.[] h = absurd (ground arith)
set_split-shorter (String.◌∷◌ c s) {inside = inside} {after = after} h =
    elim (Bool-cases (eqb (code c) b'!')) [
      | inr plain ↦ split_set-shorter true (String.◌∷◌ c s) (rw plain at h)
      | inl negated ↦ elim (Option-cases (split_set true s)) [
        | inl gone ↦ absurd (ground (arith, rw (negated, gone) at h))
        | inr ((i, a), found) ↦
            let shorter = split_set-shorter true s found in ground (arith, rw (negated, found) at h)
      ]
    ]

-- Two amounts of fuel, each at least the length of the pattern, give the same tokens.
tokens_enough : (n m : ℕ) (p : String) → count p ≤ n → count p ≤ m → tokens n p ≡ tokens m p
unfolding tokens
tokens_enough zero zero p hn hm = refl
tokens_enough zero (suc m) String.[] hn hm = refl
tokens_enough zero (suc m) (String.◌∷◌ c p) hn hm = absurd (omega arith)
tokens_enough (suc n) zero String.[] hn hm = refl
tokens_enough (suc n) zero (String.◌∷◌ c p) hn hm = absurd (omega arith)
tokens_enough (suc n) (suc m) String.[] hn hm = refl
tokens_enough (suc n) (suc m) (String.◌∷◌ c p) hn hm =
    let rest : tokens n p ≡ tokens m p = tokens_enough n m p (omega arith) (omega arith) in
    elim (Option-cases (set_split p)) [
      | inl gone ↦ rw (gone, rest) refl
      | inr ((inside, after), found) ↦
          let shorter = set_split-shorter p found in
          let tail : tokens n after ≡ tokens m after =
            tokens_enough n m after (omega arith) (omega arith) in
          rw (found, rest, tail) refl
    ]
