-- ===== src/Authorization/Wildcard.antt =====
-- src/flagship_lab/authorization.py: how far a `*` at the end of a scope reaches.
use Prim.Native.Char.{code}
use flagship_lab.Prelude.Text.{count, ◌<>◌}
use flagship_lab.Json.{Fields, field, arr, cons, text, nil, end}
use flagship_lab.Prelude.{String, ◌≡◌, [], Bool, true, not, refl, eqb, arith, eqb_refl, ◌&&◌}
use flagship_lab.Authorization.{tokens, matches, some_rest, fnmatchcase, authorize_resource}
use flagship_lab.Auth.{granted}

-- A text without the characters that a pattern gives a meaning to.
unfoldable pub is_plain : String → Bool
is_plain String.[] = true
is_plain (String.◌∷◌ c s) =
    not (eqb (code c) b'*') && not (eqb (code c) b'?') && not (eqb (code c) b'[') && is_plain s

matches-star : (s : String) → some_rest (matches []) s ≡ true
unfolding some_rest matches
matches-star String.[] = refl
matches-star (String.◌∷◌ c s) = matches-star s

-- A plain start of a pattern matches itself.
matches-plain :
    (p q s : String)
    → is_plain p ≡ true
    → matches (tokens (count (p <> q)) (p <> q)) (p <> s) ≡ matches (tokens (count q) q) s
unfolding is_plain tokens matches
matches-plain String.[] q s h = refl
matches-plain (String.◌∷◌ c p) q s h = ground (arith, matches-plain p q s, h, eqb_refl (code c))

-- Claims with one scope, `type:*`.
abbrev pub claims_of : String → Fields
claims_of resource_type =
    field "resource_scopes" (arr (cons (text (resource_type <> ":*")) nil)) end

-- A scope `type:*` grants every action on every resource of a plain type: the `*` matches colons
-- too.
pub authorize_resource-star :
    (resource_type resource_id action : String)
    → is_plain resource_type ≡ true
    → authorize_resource (claims_of resource_type) resource_type resource_id action
      ≡ granted (claims_of resource_type)
unfolding authorize_resource fnmatchcase
authorize_resource-star resource_type resource_id action h =
    rw (matches-plain resource_type ":*" (":" <> resource_id <> ":" <> action) h)
      (rw (matches-star (resource_id <> ":" <> action)) refl)
