-- ===== src/Authorization.antt =====
-- src/flagship_lab/authorization.py: a scope of the claims that matches `type:id:action`. The match
-- is Python's `fnmatch.fnmatchcase`, whose patterns are parsed into tokens first.
pub mod Wildcard
pub mod Fuel
use Prim.Native.Char.{code}
use flagship_lab.Json.{Items, Fields, Json, cons, text, nil, arr}
use flagship_lab.Prelude.Text.{◌<>◌, count}
use flagship_lab.Json.Get.{get_field}
use flagship_lab.Prelude.{
  ℕ, Bool, List, String, false, [], Option, ◌||◌, true, if◌then◌else◌, none, ◌∷◌, eqb, suc, some,
  not, leb, ◌&&◌, zero,
}
use flagship_lab.Auth.{Access, granted, refused}

-- One piece of a pattern. A set is its ranges of code points, and whether it is negated.
pub data Token : Type 0 where
  star : Token
  any_one : Token
  just : ℕ → Token
  one_of : Bool → List (ℕ × ℕ) → Token

-- The text up to a closing bracket that is not the first character, and the text after it.
abbrev pub split_set : Bool → String → Option (String × String)
split_set first String.[] = none
split_set first (String.◌∷◌ c s) =
    let rest = split_set false s in
    if eqb (code c) b']' && not first
    then some ("", s)
    else elim rest [ none ↦ none | some (inside, after) ↦ some (String.◌∷◌ c inside, after) ]

-- The ranges of a set: `a-z`, or single characters.
abbrev ranges : String → List (ℕ × ℕ)
ranges String.[] = []
ranges (String.◌∷◌ a String.[]) = (code a, code a) ∷ []
ranges (String.◌∷◌ a (String.◌∷◌ b String.[])) = (code a, code a) ∷ (code b, code b) ∷ []
ranges (String.◌∷◌ a (String.◌∷◌ b (String.◌∷◌ c s))) =
    let single = ranges (String.◌∷◌ b (String.◌∷◌ c s)) in
    let after = ranges s in
    if eqb (code b) b'-' then (code a, code c) ∷ after else (code a, code a) ∷ single

abbrev set_token : String → Token
set_token String.[] = one_of false []
set_token (String.◌∷◌ c s) =
    if eqb (code c) b'!' then one_of true (ranges s) else one_of false (ranges (String.◌∷◌ c s))

-- The body of a set and what follows it; a leading `!` may stand before the first character.
abbrev pub set_split : String → Option (String × String)
set_split String.[] = none
set_split (String.◌∷◌ c s) =
    if eqb (code c) b'!'
    then elim (split_set true s) [
      | none ↦ none
      | some (inside, after) ↦ some (String.◌∷◌ c inside, after)
    ]
    else split_set true (String.◌∷◌ c s)

-- The tokens of a pattern. Each takes at least one character, so the length of the pattern is
-- fuel enough.
unfoldable pub tokens : ℕ → String → List Token
tokens zero p = []
tokens (suc n) String.[] = []
tokens (suc n) (String.◌∷◌ c p) =
    let rest = tokens n p in
    if eqb (code c) b'*'
    then star ∷ rest
    else (if eqb (code c) b'?'
        then any_one ∷ rest
        else (if eqb (code c) b'['
            then elim (set_split p) [
              | none ↦ just (code c) ∷ rest
              | some (inside, after) ↦ set_token inside ∷ tokens n after
            ]
            else just (code c) ∷ rest))

abbrev in_ranges : ℕ → List (ℕ × ℕ) → Bool
in_ranges c [] = false
in_ranges c ((low, high) ∷ rs) = (leb low c && leb c high) || in_ranges c rs

abbrev fits_token : Token → ℕ → Bool
fits_token star c = true
fits_token any_one c = true
fits_token (just d) c = eqb c d
fits_token (one_of true rs) c = not (in_ranges c rs)
fits_token (one_of false rs) c = in_ranges c rs

-- Whether `f` holds of some rest of the text.
unfoldable pub some_rest : (String → Bool) → String → Bool
some_rest f String.[] = f ""
some_rest f (String.◌∷◌ c s) = f (String.◌∷◌ c s) || some_rest f s

unfoldable pub matches : List Token → String → Bool
unfolding some_rest
matches [] String.[] = true
matches [] (String.◌∷◌ c s) = false
matches (star ∷ ts) s = some_rest (matches ts) s
matches (t ∷ ts) String.[] = false
matches (t ∷ ts) (String.◌∷◌ c s) = fits_token t (code c) && matches ts s

-- `fnmatch.fnmatchcase(name, pattern)`
unfoldable pub fnmatchcase : String → String → Bool
unfolding tokens matches
fnmatchcase name pattern = matches (tokens (count pattern) pattern) name

unfoldable pub some_scope : String → Items → Bool
unfolding fnmatchcase
some_scope required nil = false
some_scope required (cons (text scope) xs) = fnmatchcase required scope || some_scope required xs
some_scope required (cons _ xs) = some_scope required xs

-- `isinstance(scopes, list)` and some scope matches; a claim that is absent is an empty list.
abbrev scopes_allow : String → Option Json → Bool
scopes_allow required (some (arr xs)) = some_scope required xs
scopes_allow required _ = false

abbrev pub required_scope : String → String → String → String
required_scope resource_type resource_id action =
    resource_type <> ":" <> resource_id <> ":" <> action

-- The claims are let through, or the request is answered with 403 and the scope it needs.
unfoldable pub authorize_resource : Fields → String → String → String → Access
unfolding get_field some_scope
authorize_resource claims resource_type resource_id action =
    let required = required_scope resource_type resource_id action in
    if scopes_allow required (get_field "resource_scopes" claims)
    then granted claims
    else refused 403 required
