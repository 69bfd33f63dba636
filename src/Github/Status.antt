-- ===== src/Github/Status.antt =====
-- The reading of check runs, reviews, workflow runs and approvals (genie_reviewer/github_app.py). The
-- HTTP answers are parameters: an answer has its status and its body, of which the fields that are
-- read are kept.
use text.Mathlib.Text.{find?}
use genie_promote_cicd.Prelude.{
  is_some, ℕ, String, Bool, true, false, not, ◌&&◌, ◌||◌, Option, none, some, List, [], ◌∷◌, ◌==◌,
  if◌then◌else◌, truthy, same_text, or_else, any, select, find_first, Dict, insert, values, eqb,
}

pub record CheckRun : Type 0 where
  pub status : Option String
  pub conclusion : Option String

abbrev pub is_among : List String → Option String → Bool
is_among texts o = any (λ t. same_text o (some t)) texts

abbrev pub passing : List String
passing = "success" ∷ "neutral" ∷ "skipped" ∷ []

abbrev pub is_completed : CheckRun → Bool
is_completed r = same_text r.status (some "completed")

-- `_aggregate_checks`
unfoldable pub aggregate_checks : List CheckRun → String
aggregate_checks [] = "none"
aggregate_checks (run ∷ more) =
    let runs = run ∷ more in
    if any (λ r. not (is_completed r)) runs
    then "pending"
    else if any (λ r. same_text r.conclusion (some "action_required")) runs
    then "pending"
    else if any (λ r. not (is_among passing r.conclusion)) runs
    then "failure"
    else "success"

-- `_failed_check_runs`
unfoldable pub failed_check_runs : List CheckRun → List CheckRun
failed_check_runs runs = select (λ r. is_completed r && not (is_among passing r.conclusion)) runs

-- What `_deploy_status` returns; its `run_id` is absent where no run was found.
pub record DeployStatus : Type 0 where
  pub status : Option String
  pub conclusion : Option String
  pub waiting_approval : Bool
  pub run_url : Option String
  pub run_id : Option ℕ
  pub approver : Option String
  pub source_sha : Option String

-- `_NO_DEPLOY`
abbrev pub no_deploy : DeployStatus
no_deploy = record {
  status = some "none";
  conclusion = none;
  waiting_approval = false;
  run_url = none;
  run_id = none;
  approver = none;
  source_sha = none;
}

-- `_derive_phase`
unfoldable pub derive_phase : Option String → Bool → String → DeployStatus → String
derive_phase pr_state merged checks deploy =
    if merged
    then if deploy.waiting_approval
      then "awaiting_approval"
      else if is_among ("queued" ∷ "in_progress" ∷ []) deploy.status
      then "deploying"
      else if same_text deploy.status (some "completed")
      then if same_text deploy.conclusion (some "success") then "deployed" else "deploy_failed"
      else "merged"
    else if same_text pr_state (some "closed")
    then "closed"
    else if checks == "pending"
    then "checks_running"
    else if checks == "failure"
    then "checks_failed"
    else "open"

-- A review, its reviewer's login taken out of `user`.
pub record PullReview : Type 0 where
  pub login : Option String
  pub state : Option String
  pub submitted_at : Option String

abbrev pub remove {ℓ} : {V : Type ℓ} → String → Dict V → Dict V
remove k d = select (λ e. not (e.0 == k)) d

abbrev pub is_decisive : Option String → Bool
is_decisive = is_among ("APPROVED" ∷ "CHANGES_REQUESTED" ∷ [])

-- One turn of the loop that keeps each reviewer's latest decisive review, as a value of it.
abbrev pub consider {ℓ} : {V : Type ℓ} → (PullReview → V) → Dict V → PullReview → Dict V
consider value latest r =
    if not (truthy r.login)
    then latest
    else if is_decisive r.state
    then insert (or_else r.login "") (value r) latest
    else if same_text r.state (some "DISMISSED")
    then remove (or_else r.login "") latest
    else latest

unfoldable pub latest_reviews {ℓ} :
    {V : Type ℓ} → (PullReview → V) → Dict V → List PullReview → Dict V
latest_reviews value latest [] = latest
latest_reviews value latest (r ∷ reviews) = latest_reviews value (consider value latest r) reviews

abbrev pub state_of : PullReview → String
state_of r = or_else r.state ""

abbrev pub decide : List String → String
decide states =
    if any (λ s. s == "CHANGES_REQUESTED") states
    then "changes_requested"
    else if any (λ s. s == "APPROVED") states
    then "approved"
    else "review_required"

-- `_pr_review_decision`, on the answer's status and body.
unfoldable pub pr_review_decision : ℕ → List PullReview → String
pr_review_decision status [] = "review_required"
pr_review_decision status (r ∷ reviews) =
    if not (eqb status 200)
    then "review_required"
    else decide (values (latest_reviews state_of [] (r ∷ reviews)))

-- The last loop of `audit_facts`: the last entry whose state is "APPROVED".
abbrev pub standing_approver :
    Option String × Option String → Dict (String × Option String) → Option String × Option String
standing_approver found [] = found
standing_approver found ((login, (state, at)) ∷ more) =
    standing_approver (if state == "APPROVED" then (some login, at) else found) more

-- The reviewer and the time of `audit_facts`.
unfoldable pub audit_reviewer : ℕ → List PullReview → Option String × Option String
audit_reviewer status [] = (none, none)
audit_reviewer status (r ∷ reviews) =
    if eqb status 200
    then standing_approver (none, none)
        (latest_reviews (λ q. (state_of q, q.submitted_at)) [] (r ∷ reviews))
    else (none, none)

pub record Approval : Type 0 where
  pub state : Option String
  pub login : Option String

abbrev login_of : Option Approval → Option String
login_of none = none
login_of (some a) = a.login

-- `_deploy_approver`
unfoldable pub deploy_approver : ℕ → List Approval → Option String
deploy_approver status body =
    if not (eqb status 200)
    then none
    else login_of (find_first (λ a. same_text a.state (some "approved")) body)

pub record WorkflowRun : Type 0 where
  pub id : Option ℕ
  pub name : Option String
  pub path : Option String
  pub head_sha : Option String
  pub status : Option String
  pub conclusion : Option String
  pub html_url : Option String

abbrev pub is_deploy : WorkflowRun → Bool
is_deploy r = is_some (find? (or_else r.path "") "/deploy.yml") || same_text r.name (some "deploy")

abbrev pub id_given : Option ℕ → Bool
id_given none = false
id_given (some n) = not (eqb n 0)

abbrev approver_if : Bool → Option String → Option String
approver_if b login = if b then login else none

-- `approvals` answers the read of a run's approvals, with its status.
abbrev pub deploy_of : (Option ℕ → ℕ × List Approval) → Option WorkflowRun → DeployStatus
deploy_of approvals none = no_deploy
deploy_of approvals (some wf) = record {
  status = wf.status;
  conclusion = wf.conclusion;
  waiting_approval = same_text wf.status (some "waiting");
  run_url = wf.html_url;
  run_id = wf.id;
  approver =
      if id_given wf.id && same_text wf.status (some "completed")
      then deploy_approver (approvals wf.id).0 (approvals wf.id).1
      else none;
  source_sha = wf.head_sha;
}

-- `_deploy_status`
unfoldable pub deploy_status :
    (Option ℕ → ℕ × List Approval) → List WorkflowRun → Option String → DeployStatus
deploy_status approvals runs merge_sha =
    let deploys = select is_deploy runs in
    if truthy merge_sha
    then deploy_of approvals (find_first (λ r. same_text r.head_sha merge_sha) deploys)
    else deploy_of approvals (find_first (λ r. true) deploys)
