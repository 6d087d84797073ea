-- ===== src/Governance.antt =====
-- scripts/verify_github_governance.py: the settings that the repository must have on GitHub. The
-- answers of the API are a parameter; `none` is an answer without a body.
pub mod Governed
use Prim.Native.Char.{code}
use flagship_lab.Prelude.Text.{str_leb, ◌<>◌, join_with}
use flagship_lab.Result.{Result, reject_if, ok, ◌>=>◌, err, runtime_error, system_exit, type_error}
use flagship_lab.Tx.{Env}
use flagship_lab.Prelude.Int.{pos}
use flagship_lab.Json.Get.{falsy, get_field, equals_text}
use flagship_lab.Json.{Json, Items, Fields, bool, int, text, obj, cons, arr, end, nil, field, real}
use flagship_lab.Prelude.{
  String, Option, none, some, Bool, List, any, ℕ, false, true, ◌∷◌, eqb, [], not, ◌==◌,
  if◌then◌else◌, select, ◌&&◌, ◌||◌, map,
}

abbrev pub github_actions_app_id : ℕ
github_actions_app_id = 15368

-- `if test: fail(message)`
abbrev pub deny : Bool → String → Result (Unit {0})
deny test message = reject_if test (system_exit ("governance verification failed: " <> message))

abbrev pub dict_of : Json → Result Fields
dict_of (obj fs) = ok fs
dict_of _ = err (runtime_error "AttributeError")

-- `(value or {}).get`
abbrev pub dict_or_empty : Option Json → Result Fields
dict_or_empty none = ok end
dict_or_empty (some v) = if falsy v then ok end else dict_of v

-- The answer of the API, whose `get` is called.
abbrev pub answer_dict : Option Json → Result Fields
answer_dict none = err (runtime_error "AttributeError")
answer_dict (some v) = dict_of v

abbrev pub is_true : Option Json → Bool
is_true (some (bool true)) = true
is_true _ = false

abbrev pub enabled : Option Json → Bool
enabled (some (obj fs)) = is_true (get_field "enabled" fs)
enabled _ = false

abbrev pub is_dict : Option Json → Bool
is_dict (some (obj fs)) = true
is_dict _ = false

-- `value == 0`
abbrev is_zero : Option Json → Bool
is_zero (some (int (pos n))) = eqb n 0
is_zero (some (bool b)) = not b
is_zero (some (real r)) = r == "0.0" || r == "-0.0"
is_zero _ = false

abbrev pub no_approvals : Option Json → Bool
no_approvals (some (obj fs)) = is_zero (get_field "required_approving_review_count" fs)
no_approvals _ = false

-- The tests on the protection of the branch.
unfoldable pub check_protection : Fields → Fields → Result (Unit {0})
unfolding get_field
check_protection protection status =
    deny (not (is_true (get_field "strict" status))) "required checks are not strict" >=> λ _.
    deny (not (enabled (get_field "enforce_admins" protection)))
      "administrators are not bound by protection"
    >=> λ _.
        deny (not (is_dict (get_field "required_pull_request_reviews" protection)))
          "pull requests are not required"
        >=> λ _.
            deny (not (no_approvals (get_field "required_pull_request_reviews" protection)))
              "single-maintainer approval count must be zero"
            >=> λ _.
                deny (not (enabled (get_field "required_linear_history" protection)))
                  "linear history is not required"
                >=> λ _.
                    deny (not (enabled (get_field "required_conversation_resolution" protection)))
                      "conversation resolution is not required"
                    >=> λ _.
                        deny (enabled (get_field "allow_force_pushes" protection))
                          "force pushes are allowed"
                        >=> λ _.
                            deny (enabled (get_field "allow_deletions" protection))
                              "branch deletion is allowed"

abbrev unhashable : Option Json → Bool
unhashable (some (arr xs)) = true
unhashable (some (obj fs)) = true
unhashable _ = false

-- `{(item.get("context"), item.get("app_id")) for item in checks}`: the items, each of which has a
-- `get` and values that can be hashed.
unfoldable pub dicts_of : Items → Result (List Fields)
unfolding get_field
dicts_of nil = ok []
dicts_of (cons v xs) = dict_of v >=> λ fs.
    reject_if (unhashable (get_field "context" fs) || unhashable (get_field "app_id" fs)) type_error
    >=> λ _. dicts_of xs >=> λ rest. ok (fs ∷ rest)

-- `status.get("checks") or []`
unfoldable pub checks_of : Option Json → Result (List Fields)
unfolding dicts_of
checks_of none = ok []
checks_of (some (arr xs)) = dicts_of xs
checks_of (some (text s)) = if s == "" then ok [] else err (runtime_error "AttributeError")
checks_of (some (obj end)) = ok []
checks_of (some (obj (field _ _ _))) = err (runtime_error "AttributeError")
checks_of (some v) = if falsy v then ok [] else err type_error

abbrev pub of_actions : Fields → Bool
of_actions item = elim (get_field "app_id" item) [
  | some (int (pos n)) ↦ eqb n github_actions_app_id
  | some (real r) ↦ r == "15368.0"
  | _ ↦ false
]

-- `(name, GITHUB_ACTIONS_APP_ID) in actual`
abbrev pub bound : List Fields → String → Bool
bound checks name =
    any (λ item. equals_text (get_field "context" item) name && of_actions item) checks

-- The loop over the expected names.
unfoldable pub check_names : List Fields → List String → Result (Unit {0})
unfolding any get_field
check_names checks [] = ok tt
check_names checks (name ∷ names) =
    deny (not (bound checks name)) (name <> " is missing or not bound to GitHub Actions") >=> λ _.
    check_names checks names

-- `str(item.get("context"))`
abbrev context_text : Env → Fields → String
context_text env item = elim (get_field "context" item) [
  | none ↦ "None"
  | some (text s) ↦ s
  | some v ↦ env.str v
]

abbrev insert_sorted : String → List String → List String
insert_sorted s [] = s ∷ []
insert_sorted s (t ∷ ts) = if str_leb s t then s ∷ t ∷ ts else t ∷ insert_sorted s ts

abbrev sorted : List String → List String
sorted [] = []
sorted (s ∷ ss) = insert_sorted s (sorted ss)

abbrev pub is_nil : List Fields → Bool
is_nil [] = true
is_nil (_ ∷ _) = false

unfoldable pub check_apps : Env → List Fields → Result (Unit {0})
unfolding get_field str_leb
check_apps env checks =
    let others = select (λ item. not (of_actions item)) checks in
    deny (not (is_nil others)) (
      "checks are bound to unexpected applications: "
      <> join_with ", " (sorted (map (context_text env) others)))

-- `(security.get(name) or {}).get("status") != "enabled"`, for each name.
unfoldable pub check_security : Fields → List String → Result (Unit {0})
unfolding get_field
check_security security [] = ok tt
check_security security (name ∷ names) = dict_or_empty (get_field name security) >=> λ feature.
    deny (not (equals_text (get_field "status" feature) "enabled")) (name <> " is not enabled")
    >=> λ _. check_security security names

abbrev pub security_features : List String
security_features =
    "secret_scanning" ∷ "secret_scanning_push_protection" ∷ "dependabot_security_updates" ∷ []

unfoldable pub check_repository : Fields → Result (Unit {0})
unfolding get_field check_security
check_repository repo = dict_or_empty (get_field "security_and_analysis" repo) >=> λ security.
    check_security security security_features >=> λ _.
    deny (not (is_true (get_field "allow_auto_merge" repo))) "automatic merge is not enabled"
    >=> λ _.
        deny (not (is_true (get_field "delete_branch_on_merge" repo)))
          "merged branches are not deleted"

abbrev pub has_slash : String → Bool
has_slash String.[] = false
has_slash (String.◌∷◌ c s) = eqb (code c) b'/' || has_slash s

abbrev pub no_names : List String → Bool
no_names [] = true
no_names (_ ∷ _) = false

-- The environment: the token, the repository and the expected checks, as `main` has stripped them.
pub record Surroundings : Type 0 where
  pub gh_token : Option String
  pub repository : String
  pub expected : List String

abbrev pub no_token : Option String → Bool
no_token none = true
no_token (some t) = t == ""

-- `main`, up to the report that it prints: the names of the checks.
unfoldable pub verify_governance :
    Env → (String → Result (Option Json)) → Surroundings → Result (List String)
unfolding check_protection check_names check_apps check_repository checks_of get_field
verify_governance env gh_api s =
    deny (no_token s.gh_token) "GH_TOKEN is required (for example: GH_TOKEN=$(gh auth token))"
    >=> λ _.
        deny (not (has_slash s.repository)) "GITHUB_REPOSITORY must be owner/repository" >=> λ _.
        deny (no_names s.expected) "EXPECTED_REQUIRED_CHECKS is required" >=> λ _.
        gh_api ("repos/" <> s.repository <> "/branches/main/protection") >=> λ protected_by.
        gh_api ("repos/" <> s.repository) >=> λ described.
        answer_dict protected_by >=> λ protection.
        dict_or_empty (get_field "required_status_checks" protection) >=> λ status.
        check_protection protection status >=> λ _.
        checks_of (get_field "checks" status) >=> λ checks. check_names checks s.expected >=> λ _.
        check_apps env checks >=> λ _. answer_dict described >=> λ repo.
        check_repository repo >=> λ _.
        gh_api ("repos/" <> s.repository <> "/vulnerability-alerts") >=> λ _.
        gh_api ("repos/" <> s.repository <> "/automated-security-fixes") >=> λ _. ok s.expected
