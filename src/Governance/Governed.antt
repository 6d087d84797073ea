-- ===== src/Governance/Governed.antt =====
-- scripts/verify_github_governance.py: what a verification that succeeds has established.
use flagship_lab.Prelude.Text.{◌<>◌}
use flagship_lab.Json.Get.{get_field, equals_text}
use flagship_lab.Tx.{Env}
use flagship_lab.Result.{Result, ok, bind-ok, reject_if-ok, reject_if-passed}
use flagship_lab.Governance.{
  check_names, check_security, check_repository, verify_governance, check_protection, check_apps,
  dict_or_empty, is_true, is_nil, of_actions, security_features, enabled, Surroundings, bound,
  answer_dict, no_token, is_dict, no_approvals, has_slash, no_names, checks_of,
}
use flagship_lab.Json.{Fields, Json}
use flagship_lab.Prelude.{
  Bool, select, String, List, not, ◌≡◌, Option, false, All, true, ◌∷◌, arith, refl, Bool-cases, [],
  inl, inr,
}

-- `security_and_analysis` has the feature and it is enabled.
abbrev pub HasFeature : Fields → String → Type 0
HasFeature security name =
    (feature : Fields) × (dict_or_empty (get_field name security) ≡ ok feature)
    × (equals_text (get_field "status" feature) "enabled" ≡ true)

-- The protection of the branch main.
pub record IsProtected (protection : Fields) (status : Fields) : Type 0 where
  pub strict : is_true (get_field "strict" status) ≡ true
  pub administrators : enabled (get_field "enforce_admins" protection) ≡ true
  pub reviews : is_dict (get_field "required_pull_request_reviews" protection) ≡ true
  pub zero_approvals : no_approvals (get_field "required_pull_request_reviews" protection) ≡ true
  pub linear : enabled (get_field "required_linear_history" protection) ≡ true
  pub resolved : enabled (get_field "required_conversation_resolution" protection) ≡ true
  pub no_force_pushes : enabled (get_field "allow_force_pushes" protection) ≡ false
  pub no_deletions : enabled (get_field "allow_deletions" protection) ≡ false

-- The settings of the repository.
pub record IsSecured (repo : Fields) : Type 0 where
  pub security : Fields
  pub described : dict_or_empty (get_field "security_and_analysis" repo) ≡ ok security
  pub features : All (HasFeature security) security_features
  pub auto_merge : is_true (get_field "allow_auto_merge" repo) ≡ true
  pub delete_branch : is_true (get_field "delete_branch_on_merge" repo) ≡ true

-- What the API has answered is a repository under governance.
pub record IsGoverned (gh_api : String → Result (Option Json)) (s : Surroundings) : Type 0 where
  pub token : no_token s.gh_token ≡ false
  pub owner : has_slash s.repository ≡ true
  pub some_names : no_names s.expected ≡ false
  pub protection : Fields
  pub protected_by : Option Json
  pub asked_protection :
      gh_api ("repos/" <> s.repository <> "/branches/main/protection") ≡ ok protected_by
  pub protection_dict : answer_dict protected_by ≡ ok protection
  pub status : Fields
  pub status_dict : dict_or_empty (get_field "required_status_checks" protection) ≡ ok status
  pub protected : IsProtected protection status
  pub checks : List Fields
  pub checks_read : checks_of (get_field "checks" status) ≡ ok checks
  pub all_bound : All (λ name. bound checks name ≡ true) s.expected
  pub no_others : All (λ item. of_actions item ≡ true) checks
  pub answered : Option Json
  pub asked_repository : gh_api ("repos/" <> s.repository) ≡ ok answered
  pub repo : Fields
  pub repo_dict : answer_dict answered ≡ ok repo
  pub secured : IsSecured repo
  pub alerts : Option Json
  pub asked_alerts : gh_api ("repos/" <> s.repository <> "/vulnerability-alerts") ≡ ok alerts
  pub fixes : Option Json
  pub asked_fixes : gh_api ("repos/" <> s.repository <> "/automated-security-fixes") ≡ ok fixes

not-false : (b : Bool) → not b ≡ false → b ≡ true
not-false true h = refl
not-false false h = absurd (ground arith)

check_protection-IsProtected :
    (protection status : Fields)
    → check_protection protection status ≡ ok tt
    → IsProtected protection status
unfolding check_protection
check_protection-IsProtected protection status h =
    let (a, h1) = reject_if-ok _ _ _ h in
    let (b, h2) = reject_if-ok _ _ _ h1 in
    let (c, h3) = reject_if-ok _ _ _ h2 in
    let (d, h4) = reject_if-ok _ _ _ h3 in
    let (e, h5) = reject_if-ok _ _ _ h4 in
    let (f, h6) = reject_if-ok _ _ _ h5 in
    let (g, h7) = reject_if-ok _ _ _ h6 in
    record {
      strict = not-false _ a;
      administrators = not-false _ b;
      reviews = not-false _ c;
      zero_approvals = not-false _ d;
      linear = not-false _ e;
      resolved = not-false _ f;
      no_force_pushes = g;
      no_deletions = reject_if-passed _ _ h7;
    }

check_names-bound :
    (checks : List Fields) (names : List String)
    → check_names checks names ≡ ok tt
    → All (λ name. bound checks name ≡ true) names
unfolding check_names
check_names-bound checks [] h = tt
check_names-bound checks (name ∷ names) h =
    let (here, rest) = reject_if-ok _ _ _ h in
    (not-false _ here, check_names-bound checks names rest)

select-none :
    (items : List Fields)
    → not (is_nil (select (λ item. not (of_actions item)) items)) ≡ false
    → All (λ item. of_actions item ≡ true) items
unfolding select
select-none [] h = tt
select-none (x ∷ xs) h = elim (Bool-cases (of_actions x)) [
  | inl holds ↦ (holds, select-none xs (rw holds at h))
  | inr fails ↦ absurd (ground (arith, rw fails at h))
]

check_security-HasFeature :
    (security : Fields) (names : List String)
    → check_security security names ≡ ok tt
    → All (HasFeature security) names
unfolding check_security
check_security-HasFeature security [] h = tt
check_security-HasFeature security (name ∷ names) h =
    let (feature, read, h1) = bind-ok (dict_or_empty (get_field name security)) _ h in
    let (here, rest) = reject_if-ok _ _ _ h1 in
    ((feature, read, not-false _ here), check_security-HasFeature security names rest)

check_repository-IsSecured : (repo : Fields) → check_repository repo ≡ ok tt → IsSecured repo
unfolding check_repository
check_repository-IsSecured repo h =
    let (security, read, h1) =
      bind-ok (dict_or_empty (get_field "security_and_analysis" repo)) _ h in
    let (unit, features, h2) = bind-ok (check_security security security_features) _ h1 in
    let (merge, h3) = reject_if-ok _ _ _ h2 in
    record {
      security = security;
      described = read;
      features = check_security-HasFeature security security_features features;
      auto_merge = not-false _ merge;
      delete_branch = not-false _ (reject_if-passed _ _ h3);
    }

check_apps-all :
    (env : Env) (checks : List Fields)
    → check_apps env checks ≡ ok tt
    → All (λ item. of_actions item ≡ true) checks
unfolding check_apps
check_apps-all env checks h = select-none checks (reject_if-passed _ _ h)

-- A verification that succeeds has a token, a repository with an owner and names of checks; main is
-- protected with strict checks, for administrators too, with reviews that need no approval, a linear
-- history and resolved conversations, without force pushes or deletions; every expected check is
-- bound to GitHub Actions and every check belongs to it; the security features, automatic merges and
-- the deletion of merged branches are on; and the requests for alerts and fixes succeed.
pub verify_governance-IsGoverned :
    (env : Env) (gh_api : String → Result (Option Json)) (s : Surroundings) (names : List String)
    → verify_governance env gh_api s ≡ ok names
    → IsGoverned gh_api s
unfolding verify_governance
verify_governance-IsGoverned env gh_api s names h =
    let (token, h1) = reject_if-ok _ _ _ h in
    let (slash, h2) = reject_if-ok _ _ _ h1 in
    let (some_names, h3) = reject_if-ok _ _ _ h2 in
    let (protected_by, asked, h4) = bind-ok _ _ h3 in
    let (answered, asked_repo, h5) = bind-ok _ _ h4 in
    let (protection, protection_dict, h6) = bind-ok (answer_dict protected_by) _ h5 in
    let (status, status_dict, h7) = bind-ok _ _ h6 in
    let (u, protected, h8) = bind-ok (check_protection protection status) _ h7 in
    let (checks, checks_read, h9) = bind-ok _ _ h8 in
    let (v, all_bound, h10) = bind-ok (check_names checks s.expected) _ h9 in
    let (w, apps, h11) = bind-ok (check_apps env checks) _ h10 in
    let (repo, repo_dict, h12) = bind-ok (answer_dict answered) _ h11 in
    let (x, secured, h13) = bind-ok (check_repository repo) _ h12 in
    let (alerts, asked_alerts, h14) = bind-ok _ _ h13 in
    let (fixes, asked_fixes, h15) = bind-ok _ _ h14 in
    record {
      token = token;
      owner = not-false _ slash;
      some_names = some_names;
      protection = protection;
      protected_by = protected_by;
      asked_protection = asked;
      protection_dict = protection_dict;
      status = status;
      status_dict = status_dict;
      protected = check_protection-IsProtected protection status protected;
      checks = checks;
      checks_read = checks_read;
      all_bound = check_names-bound checks s.expected all_bound;
      no_others = check_apps-all env checks apps;
      answered = answered;
      asked_repository = asked_repo;
      repo = repo;
      repo_dict = repo_dict;
      secured = check_repository-IsSecured repo secured;
      alerts = alerts;
      asked_alerts = asked_alerts;
      fixes = fixes;
      asked_fixes = asked_fixes;
    }
