-- ===== src/ChangeRequest/Types.antt =====
-- The data classes of genie_reviewer/change_request.py, and the mapping that the `attempt` of a
-- deployment holds (the payload that scripts/deploy_attempt.py prints).
use genie_promote_cicd.Prelude.{ℕ, String, Bool, Option, List}

-- The exact content declaration and engine commit approved for one Change Request.
pub record RevisionPair : Type 0 where
  pub content_revision : String
  pub engine_revision : String

pub record CheckObservation : Type 0 where
  pub name : String
  pub conclusion : Option String
  pub summary : String
  pub details_url : Option String

pub record DeploymentStepObservation : Type 0 where
  pub name : String
  pub status : Option String
  pub conclusion : Option String
  pub number : Option ℕ
  pub job_name : Option String
  pub details_url : Option String

-- `none` stands for a key that is absent or null.
pub record AttemptPayload : Type 0 where
  pub attempt_id : Option String
  pub run_attempt : Option ℕ
  pub sequence : Option ℕ
  pub revisions : Option (List (String × String))
  pub mutation_started : Option Bool
  pub completed_stages : Option (List String)
  pub current_stage : Option String
  pub failed_stage : Option String
  pub target_ids : Option (List (String × String))
  pub reason : Option String
  pub run_url : Option String
  pub terminal_state : Option String

pub record DeploymentObservation : Type 0 where
  pub status : String
  pub conclusion : Option String
  pub waiting_approval : Bool
  pub run_url : Option String
  pub run_id : Option ℕ
  pub approver : Option String
  pub revisions : Option RevisionPair
  pub attempt : Option AttemptPayload
  pub steps : List DeploymentStepObservation
  pub rejected : Bool
  pub rejection_reason : Option String

pub record ChangeRequestObservation : Type 0 where
  pub provider : String
  pub external_id : String
  pub external_url : Option String
  pub state : Option String
  pub merged : Bool
  pub phase : String
  pub checks : String
  pub check_observations : List CheckObservation
  pub review_decision : String
  pub actors : List (String × Option String)
  pub revisions : Option RevisionPair
  pub deployment : DeploymentObservation
