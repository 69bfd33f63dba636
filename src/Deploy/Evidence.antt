-- ===== src/Deploy/Evidence.antt =====
-- The evidence of one deployment attempt (scripts/deploy_attempt.py, `AttemptEvidence`).
use genie_promote_cicd.Prelude.{ℕ, String, Bool, false, Option, none, List, [], ◌∷◌, Dict}

pub record AttemptEvidence : Type 0 where
  pub attempt_id : String
  pub run_attempt : ℕ
  pub revisions : Dict String
  pub run_url : Option String
  pub mutation_started : Bool
  pub completed_stages : List String
  pub current_stage : String
  pub failed_stage : Option String
  pub target_ids : Dict String
  pub reason : Option String
  pub terminal_state : String
  pub sequence : ℕ
  pub version : ℕ

-- `PREFLIGHT` and `MUTATION_STAGES`
abbrev pub preflight_stage : String
preflight_stage = "preflight"

abbrev pub mutation_stages : List String
mutation_stages =
    "bundle_deploy" ∷ "resolve_space" ∷ "assert_app_manage" ∷ "reconcile_audience"
    ∷ "verify_live_state" ∷ "certify_space" ∷ "complete" ∷ []

-- The evidence with which an attempt starts: the class's defaults.
abbrev pub new_evidence : String → ℕ → Dict String → Option String → AttemptEvidence
new_evidence attempt_id run_attempt revisions run_url = record {
  attempt_id = attempt_id;
  run_attempt = run_attempt;
  revisions = revisions;
  run_url = run_url;
  mutation_started = false;
  completed_stages = [];
  current_stage = preflight_stage;
  failed_stage = none;
  target_ids = [];
  reason = none;
  terminal_state = "running";
  sequence = 0;
  version = 1;
}
