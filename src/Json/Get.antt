-- ===== src/Json/Get.antt =====
-- Reading a JSON value: `dict.get` `dict.pop` and comparison with a text.
use flagship_lab.Prelude.Int.{pos, negsuc}
use flagship_lab.Json.{
  Json, Fields, field, text, end, bool, int, real, decimal, arr, cons, obj, null, nil,
}
use flagship_lab.Prelude.{
  String, Bool, false, Option, none, some, ◌==◌, if◌then◌else◌, true, not, eqb, ◌||◌,
}

-- `d.get(key)` of a `dict`.
unfoldable pub get_field : String → Fields → Option Json
get_field k end = none
get_field k (field j v fs) = if j == k then some v else get_field k fs

-- `value == s`
abbrev pub equals_text : Option Json → String → Bool
equals_text (some (text t)) s = t == s
equals_text _ s = false

-- `d.pop(key)`: what is left.
unfoldable pub without : String → Fields → Fields
without k end = end
without k (field j v fs) = let rest = without k fs in if j == k then rest else field j v rest

-- `d[key] = value` of a key that the `dict` does not have.
abbrev pub add_field : Fields → String → Json → Fields
add_field end k v = field k v end
add_field (field j u fs) k v = field j u (add_field fs k v)

-- `bool(value)` is false.
abbrev pub falsy : Json → Bool
falsy null = true
falsy (bool b) = not b
falsy (int (pos n)) = eqb n 0
falsy (int (negsuc n)) = false
falsy (real r) = r == "0.0" || r == "-0.0"
falsy (decimal d) = false
falsy (text s) = s == ""
falsy (arr nil) = true
falsy (arr (cons _ _)) = false
falsy (obj end) = true
falsy (obj (field _ _ _)) = false
