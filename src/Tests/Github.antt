-- ===== src/Tests/Github.antt =====
-- A pull request with an approval that was dismissed, and the workflow runs of two commits.
use genie_promote_cicd.Prelude.{
  ℕ, String, ◌≡◌, ◌≢◌, ◌↔◌, refl, true, false, not, ◌&&◌, Option, none, some, List, [], ◌∷◌, ◌==◌,
  all, eqb, Memᴰ,
}
use genie_promote_cicd.Github.Status.{
  CheckRun, is_completed, is_among, passing, aggregate_checks, PullReview, state_of,
  pr_review_decision, Approval, WorkflowRun, is_deploy, derive_phase, deploy_status,
  deploy_approver,
}
use genie_promote_cicd.Github.Standing.{standing, pr_review_decision-approved_iff}
use genie_promote_cicd.Github.Phase.{deploy_status-own, aggregate_checks-success_iff, is_empty}

abbrev review : String → String → PullReview
review login state = record { login = some login; state = some state; submitted_at = none }

abbrev reviews : List PullReview
reviews = review "ana" "APPROVED" ∷ review "bia" "APPROVED" ∷ review "ana" "DISMISSED" ∷ []

pr_review_decision-approved_iff_example : (pr_review_decision 200 reviews ≡ "approved") ↔ (
    (eqb 200 200 ≡ true)
    × ((login : String) × (login == "" ≡ false)
        × (standing state_of login reviews ≡ some "APPROVED"))
    × ((login : String)
        → login == "" ≡ false
        → standing state_of login reviews ≢ some "CHANGES_REQUESTED"))
pr_review_decision-approved_iff_example = pr_review_decision-approved_iff 200 reviews

abbrev run : ℕ → String → WorkflowRun
run id sha = record {
  id = some id;
  name = some "deploy";
  path = none;
  head_sha = some sha;
  status = some "completed";
  conclusion = some "success";
  html_url = none;
}

abbrev runs : List WorkflowRun
runs = run 8 "aaa" ∷ run 7 "bbb" ∷ []

abbrev no_approvals : Option ℕ → ℕ × List Approval
no_approvals id = (404, [])

is_deployed :
    derive_phase (some "closed") true "success" (deploy_status no_approvals runs (some "bbb"))
    ≡ "deployed"
unfolding derive_phase deploy_status deploy_approver
is_deployed = refl

deploy_status-own_example :
    (true ≡ true)
    × ((r : WorkflowRun) × Memᴰ r runs
        × (is_deploy r ≡ true)
        × (r.head_sha ≡ some "bbb")
        × (r.status ≡ some "completed")
        × (r.conclusion ≡ some "success"))
deploy_status-own_example =
    deploy_status-own no_approvals runs (some "closed") true "success" "bbb" refl is_deployed

abbrev checks : List CheckRun
checks =
    record { status = some "completed"; conclusion = some "success" }
    ∷ record { status = some "completed"; conclusion = some "action_required" }
    ∷ []

aggregate_checks-success_iff_example : (aggregate_checks checks ≡ "success") ↔ (
    (not (is_empty checks) && all (λ r. is_completed r && is_among passing r.conclusion) checks)
    ≡ true)
aggregate_checks-success_iff_example = aggregate_checks-success_iff checks
