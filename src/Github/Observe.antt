-- ===== src/Github/Observe.antt =====
-- `get_status` of genie_reviewer/github_app.py: the observation that is put together from GitHub's
-- answers. The answers are a parameter, as are the details of failed checks, the evidence of the
-- deploy run's jobs, and the revision manifests that are read at a commit; a workflow run has a status.
use genie_promote_cicd.Prelude.{
  ℕ, String, ◌≡◌, refl, sym, ap, ◌∙◌, Bool, true, false, ◌&&◌, Option, none, some, List, [], ◌∷◌,
  ◌==◌, if◌then◌else◌, or_else, truthy, map, Memᴰ, texts_differ, ◌≢◌, ◌⊎◌, inl, inr, Option-cases,
}
use genie_promote_cicd.ChangeRequest.{
  RevisionPair, CheckObservation, DeploymentStepObservation, AttemptPayload, DeploymentObservation,
  ChangeRequestObservation, reject_mismatched_deployment, not_started,
}
use genie_promote_cicd.ChangeRequest.Rejection.{
  reject_mismatched_deployment-approved, reject_mismatched_deployment-same,
}
use genie_promote_cicd.Github.Status.{
  CheckRun, aggregate_checks, DeployStatus, no_deploy, derive_phase, PullReview, pr_review_decision,
  Approval, WorkflowRun, is_deploy, deploy_status, id_given,
}
use genie_promote_cicd.Github.Phase.{deploy_status-own, derive_phase-deployed}

pub record PullRequest : Type 0 where
  pub html_url : Option String
  pub state : Option String
  pub merged : Bool
  pub merge_commit_sha : Option String
  pub merged_by : Option String
  pub head_sha : String

pub record CheckDetail : Type 0 where
  pub name : Option String
  pub conclusion : Option String
  pub summary : Option String
  pub details_url : Option String

-- `_DeploymentRunEvidence`, without the failure's detail, which is added to the mapping afterwards.
pub record RunEvidence : Type 0 where
  pub steps : List DeploymentStepObservation
  pub attempt : Option AttemptPayload

abbrev no_evidence : RunEvidence
no_evidence = record { steps = []; attempt = none }

pub record Answers : Type 0 where
  pub number : String
  pub pull : PullRequest
  pub check_runs : List CheckRun
  pub checks_detail : List CheckDetail
  pub workflow_runs : List WorkflowRun
  pub approvals : Option ℕ → ℕ × List Approval
  pub run_evidence : Option ℕ → RunEvidence
  pub review_status : ℕ
  pub reviews : List PullReview
  pub revision_at : Option String → Option RevisionPair

abbrev text_given : Option String → String → String
text_given o d = if truthy o then or_else o "" else d

abbrev check_observation : CheckDetail → CheckObservation
check_observation item = record {
  name = text_given item.name "check";
  conclusion = item.conclusion;
  summary = text_given item.summary "";
  details_url = item.details_url;
}

abbrev pub deploy_read : Answers → DeployStatus
deploy_read a =
    if a.pull.merged
    then deploy_status a.approvals a.workflow_runs a.pull.merge_commit_sha
    else no_deploy

abbrev evidence_read : Bool → Answers → DeployStatus → RunEvidence
evidence_read include_evidence a deploy =
    if include_evidence && id_given deploy.run_id then a.run_evidence deploy.run_id else no_evidence

abbrev deployment_of : Bool → Answers → DeployStatus → DeploymentObservation
deployment_of include_evidence a deploy = record {
  status = or_else deploy.status "";
  conclusion = deploy.conclusion;
  waiting_approval = deploy.waiting_approval;
  run_url = deploy.run_url;
  run_id = deploy.run_id;
  approver = deploy.approver;
  revisions = a.revision_at deploy.source_sha;
  attempt = (evidence_read include_evidence a deploy).attempt;
  steps = (evidence_read include_evidence a deploy).steps;
  rejected = false;
  rejection_reason = none;
}

abbrev pub observe : Bool → Answers → ChangeRequestObservation
observe include_evidence a =
    let checks = aggregate_checks a.check_runs in
    let deploy = deploy_read a in
    record {
      provider = "github";
      external_id = a.number;
      external_url = a.pull.html_url;
      state = a.pull.state;
      merged = a.pull.merged;
      phase = derive_phase a.pull.state a.pull.merged checks deploy;
      checks = checks;
      check_observations =
          if checks == "failure" then map check_observation a.checks_detail else [];
      review_decision =
          if a.pull.merged then "approved" else pr_review_decision a.review_status a.reviews;
      actors = ("merged_by", a.pull.merged_by) ∷ ("deploy_approver", deploy.approver) ∷ [];
      revisions = a.revision_at (some a.pull.head_sha);
      deployment = deployment_of include_evidence a deploy;
    }

-- `get_status`
unfoldable pub get_status : Bool → Answers → Option RevisionPair → ChangeRequestObservation
get_status include_evidence a approved_revisions =
    reject_mismatched_deployment (observe include_evidence a) approved_revisions

-- A status of a pull request with a merge commit says "deployed", against an approved revision pair,
-- only if the pull request is merged, a deploy run of the merge commit itself, among the runs that
-- were read, succeeded, and the revision pair that ran is not known or is the approved one.
pub get_status-deployed :
    (include_evidence : Bool) (a : Answers) (sha : String) (approved : RevisionPair)
    → a.pull.merge_commit_sha ≡ some sha
    → truthy (some sha) ≡ true
    → (get_status include_evidence a (some approved)).phase ≡ "deployed"
    → (a.pull.merged ≡ true)
      × ((run : WorkflowRun) × Memᴰ run a.workflow_runs
          × (is_deploy run ≡ true)
          × (run.head_sha ≡ some sha)
          × (run.status ≡ some "completed")
          × (run.conclusion ≡ some "success"))
      × (((get_status include_evidence a (some approved)).deployment.revisions ≡ none)
          ⊎ ((get_status include_evidence a (some approved)).deployment.revisions ≡ some approved))
unfolding get_status
get_status-deployed include_evidence a sha approved commit given deployed =
    let o = observe include_evidence a in
    let honest : (get_status include_evidence a (some approved)).phase ≢ "revision_mismatch" =
      λ e. texts_differ "deployed" "revision_mismatch" refl (sym deployed ∙ e) in
    let same : reject_mismatched_deployment o (some approved) ≡ o =
      reject_mismatched_deployment-same o approved honest in
    let phase : o.phase ≡ "deployed" = ap (λ x. x.phase) (sym same) ∙ deployed in
    let (merged, waiting, completed, success) =
      derive_phase-deployed a.pull.state a.pull.merged (aggregate_checks a.check_runs)
        (deploy_read a) phase in
    let read : deploy_read a ≡ deploy_status a.approvals a.workflow_runs (some sha) =
      rw (merged, commit) refl in
    let own : derive_phase a.pull.state a.pull.merged (aggregate_checks a.check_runs)
          (deploy_status a.approvals a.workflow_runs (some sha))
        ≡ "deployed" =
      ap (λ d. derive_phase a.pull.state a.pull.merged (aggregate_checks a.check_runs) d) (sym read)
      ∙ phase in
    let started : not_started o.deployment.status ≡ false =
      ap (λ s. not_started (or_else s "")) completed in
    let found =
      deploy_status-own a.approvals a.workflow_runs a.pull.state a.pull.merged
        (aggregate_checks a.check_runs) sha given own in
    (
      merged,
      found.1,
      elim (Option-cases (get_status include_evidence a (some approved)).deployment.revisions) [
        | inl unknown ↦ inl unknown
        | inr (ran, known) ↦
            let approved_ran : ran ≡ approved =
              (reject_mismatched_deployment-approved o approved ran honest known
                (ap (λ x. not_started x.deployment.status) same ∙ started)).1 in
            inr (known ∙ ap some approved_ran)
      ],
    )
