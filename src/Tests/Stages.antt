-- ===== src/Tests/Stages.antt =====
-- The operations of a deployment on one dashboard, and a status of its Change Request.
use genie_promote_cicd.Prelude.{
  String, ◌≡◌, refl, true, false, ◌&&◌, Option, none, some, List, [], ◌∷◌, All, Result, ok, Memᴰ,
  ◌⊎◌, false, ◌==◌, if◌then◌else◌, raise, value_error, strip, lstrip, rstrip,
}
use genie_promote_cicd.ChangeRequest.{RevisionPair, reject_mismatched_deployment}
use genie_promote_cicd.Access.Entries.{AclEntry}
use genie_promote_cicd.Access.Acl.{levels_by_name, name_of, direct_level}
use genie_promote_cicd.Deploy.Artifacts.{
  BuildFile, Artifact, artifacts_of, add_artifacts, collect, all_artifacts,
}
use genie_promote_cicd.Resources.Kinds.{ResourceKind, genie_space_kind, dashboard_kind}
use genie_promote_cicd.Deploy.Unique.{AreUnique, is_empty, all_artifacts-AreUnique}
use genie_promote_cicd.Deploy.Live.{
  sufficient_for, verify_live_state, Verified, verify_live_state-Verified,
}
use genie_promote_cicd.Deploy.Certify.{
  Tags, read_back, certify_space, Certified, certify_space-IsCertified,
}
use genie_promote_cicd.Github.Status.{
  WorkflowRun, is_deploy, derive_phase, deploy_status, deploy_approver, aggregate_checks,
}
use genie_promote_cicd.Github.Observe.{Answers, get_status, get_status-deployed}

abbrev file : BuildFile
file = record { slug = "sales/kpis"; title = some "KPIs"; audience = some (ok []) }

abbrev artifact : Artifact
artifact = record {
  kind = genie_space_kind;
  slug = "sales/kpis";
  title = "KPIs";
  audience = record { name = "sales"; is_group = true } ∷ [];
}

abbrev files : ResourceKind → List BuildFile
files kind =
    if kind.kind == "dashboard"
    then file ∷ record file { slug = "sales/funnel"; title = some "Funnel" } ∷ []
    else record file { slug = "01ef"; title = some "Sales" } ∷ []

abbrev found : ResourceKind → String → String → Artifact
found kind slug title = record artifact { kind = kind; slug = slug; title = title; audience = [] }

abbrev artifacts : List Artifact
artifacts =
    found genie_space_kind "01ef" "Sales"
    ∷ found dashboard_kind "sales/kpis" "KPIs"
    ∷ found dashboard_kind "sales/funnel" "Funnel"
    ∷ []

collected : all_artifacts files false false ≡ ok artifacts
unfolding all_artifacts collect artifacts_of add_artifacts strip lstrip rstrip
collected = refl

-- The slug of a space that is a dashboard's too.
collides : all_artifacts (λ kind. file ∷ []) false false ≡ raise value_error
unfolding all_artifacts collect artifacts_of add_artifacts strip lstrip rstrip
collides = refl

all_artifacts-AreUnique_example :
    AreUnique artifacts × (is_empty artifacts ≡ true → (false && false) ≡ true)
all_artifacts-AreUnique_example = all_artifacts-AreUnique files false false artifacts collected

abbrev entry : Option String → Option String → String → AclEntry
entry group principal level = record {
  user_name = none;
  group_name = group;
  service_principal_name = principal;
  all_permissions = record { permission_level = some level; inherited = false } ∷ [];
}

abbrev read : String → String → Result (List AclEntry)
read object_type id =
    ok (entry none (some "app") "CAN_MANAGE" ∷ entry (some "sales") none "CAN_RUN" ∷ [])

verified : verify_live_state read "app" (("sales/kpis", "01ef") ∷ []) (artifact ∷ []) ≡ ok tt
unfolding verify_live_state sufficient_for levels_by_name name_of direct_level
verified = refl

verify_live_state-Verified_example :
    All (Verified read "app" (("sales/kpis", "01ef") ∷ [])) (artifact ∷ [])
verify_live_state-Verified_example =
    verify_live_state-Verified read "app" (("sales/kpis", "01ef") ∷ []) (artifact ∷ []) verified

-- A tag that is missing until it is created.
abbrev tags : Tags (Option String)
tags = record {
  get = λ kind id value. (ok value, value);
  create = λ kind id value. (ok tt, some "certified");
  update = λ kind id value. (ok tt, some "certified");
}

certified :
    certify_space tags (λ slug. "dashboards") 30 (("sales/kpis", "01ef") ∷ []) none
    ≡ (ok tt, some "certified")
unfolding certify_space read_back
certified = refl

certify_space-IsCertified_example :
    Certified tags (λ slug. "dashboards") 29 (("sales/kpis", "01ef") ∷ []) none (some "certified")
certify_space-IsCertified_example =
    certify_space-IsCertified tags (λ slug. "dashboards") 29 (("sales/kpis", "01ef") ∷ []) none
      (some "certified") certified

abbrev pair : RevisionPair
pair = record { content_revision = "c1"; engine_revision = "e1" }

abbrev deploy_run : WorkflowRun
deploy_run = record {
  id = some 7;
  name = some "deploy";
  path = none;
  head_sha = some "abc";
  status = some "completed";
  conclusion = some "success";
  html_url = none;
}

abbrev pub answers : Answers
answers = record {
  number = "17";
  pull = record {
    html_url = none;
    state = some "closed";
    merged = true;
    merge_commit_sha = some "abc";
    merged_by = some "ana";
    head_sha = "def";
  };
  check_runs = [];
  checks_detail = [];
  workflow_runs = deploy_run ∷ [];
  approvals = λ id. (404, []);
  run_evidence = λ id. record { steps = []; attempt = none };
  review_status = 200;
  reviews = [];
  revision_at = λ ref. some pair;
}

status : (get_status false answers (some pair)).phase ≡ "deployed"
unfolding get_status reject_mismatched_deployment derive_phase deploy_status deploy_approver
    aggregate_checks
status = refl

get_status-deployed_example :
    (true ≡ true)
    × ((run : WorkflowRun) × Memᴰ run (deploy_run ∷ [])
        × (is_deploy run ≡ true)
        × (run.head_sha ≡ some "abc")
        × (run.status ≡ some "completed")
        × (run.conclusion ≡ some "success"))
    × (((get_status false answers (some pair)).deployment.revisions ≡ none)
        ⊎ ((get_status false answers (some pair)).deployment.revisions ≡ some pair))
get_status-deployed_example = get_status-deployed false answers "abc" pair refl refl status
