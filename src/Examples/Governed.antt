-- ===== src/Examples/Governed.antt =====
-- The theorem on the governance of the repository, at a repository with one check.
use flagship_lab.Prelude.Int.{pos}
use flagship_lab.Result.{Result, ok, err, system_exit}
use flagship_lab.Examples.{sample_env}
use flagship_lab.Governance.{verify_governance, Surroundings}
use flagship_lab.Json.{Json, obj, field, bool, end, text, int, arr, cons, nil}
use flagship_lab.Governance.Governed.{IsGoverned, verify_governance-IsGoverned}
use flagship_lab.Prelude.{String, some, Option, ◌∷◌, ◌≡◌, if◌then◌else◌, [], refl, ◌==◌, true, none}

abbrev on : Json
on = obj (field "enabled" (bool true) end)

abbrev feature_on : Json
feature_on = obj (field "status" (text "enabled") end)

abbrev build_check : Json
build_check = obj (field "context" (text "build") (field "app_id" (int (pos 15368)) end))

abbrev protection_answer : Json
protection_answer = obj (
    field "required_status_checks"
      (obj (field "strict" (bool true) (field "checks" (arr (cons build_check nil)) end)))
      (field "enforce_admins" on (
        field "required_pull_request_reviews"
          (obj (field "required_approving_review_count" (int (pos 0)) end))
          (field "required_linear_history" on (field "required_conversation_resolution" on end)))))

abbrev repository_answer : Json
repository_answer = obj (
    field "security_and_analysis"
      (obj (
        field "secret_scanning" feature_on (
          field "secret_scanning_push_protection" feature_on
            (field "dependabot_security_updates" feature_on end))))
      (field "allow_auto_merge" (bool true) (field "delete_branch_on_merge" (bool true) end)))

abbrev sample_api : String → Result (Option Json)
sample_api path =
    if path == "repos/acme/lab/branches/main/protection"
    then ok (some protection_answer)
    else if path == "repos/acme/lab"
    then ok (some repository_answer)
    else ok none

abbrev surroundings : Surroundings
surroundings = record { gh_token = some "secret"; repository = "acme/lab"; expected = "build" ∷ [] }

governed : verify_governance sample_env sample_api surroundings ≡ ok ("build" ∷ [])
unfolding verify_governance flagship_lab.Prelude.select
governed = refl

without_check :
    verify_governance sample_env sample_api
      (record { gh_token = some "secret"; repository = "acme/lab"; expected = "test" ∷ [] })
    ≡ err (
        system_exit
          "governance verification failed: test is missing or not bound to GitHub Actions")
unfolding verify_governance
without_check = refl

verify_governance-IsGoverned_example : IsGoverned sample_api surroundings
verify_governance-IsGoverned_example =
    verify_governance-IsGoverned sample_env sample_api surroundings ("build" ∷ []) governed
