-- ===== src/Promotions/Types.antt =====
-- The data classes of app/promotion_store.py. Times are numbers, and a JSON column that the store
-- only keeps is a `Json`. The cached status is the observation that `to_dict` writes out.
use genie_promote_cicd.Prelude.{ℕ, String, Bool, Option, List, Json}
use genie_promote_cicd.ChangeRequest.{RevisionPair, AttemptPayload, ChangeRequestObservation}

pub record Promotion : Type 0 where
  pub id : String
  pub resource_id : String
  pub resource_kind : String
  pub resource_title : Option String
  pub requester_email : Option String
  pub branch : Option String
  pub current_phase : Option String
  pub live_status : Option ChangeRequestObservation
  pub terminal : Bool
  pub last_reconciled_at : Option ℕ
  pub created_at : ℕ
  pub updated_at : ℕ
  pub audience_spec : Option Json
  pub table_mapping : Option Json
  pub change_provider : Option String
  pub external_id : Option String
  pub external_url : Option String
  pub content_revision : Option String
  pub engine_revision : Option String

pub record ReviewSnapshot : Type 0 where
  pub id : String
  pub promotion_id : String
  pub created_at : ℕ
  pub gate_conclusion : Option String
  pub gate_summary : Option String
  pub findings : List Json
  pub eval : Option Json
  pub timeline : List Json

-- The revisions that a milestone's detail carries: those of the status, or the promotion's own.
pub data EventRevisions : Type 0 where
  observed : RevisionPair → EventRevisions
  stored : (content_revision engine_revision : Option String) → EventRevisions

-- The `detail` of an event: what `reconcile` writes for a milestone, or any other mapping.
pub data Detail : Type 0 where
  milestone : (phase : String) (observed_at : ℕ) → EventRevisions → Option AttemptPayload → Detail
  mapping : Json → Detail

-- A row of the audit trail before the backend has given it its `seq`.
pub record EventRow : Type 0 where
  pub id : String
  pub promotion_id : String
  pub occurred_at : ℕ
  pub event_type : String
  pub actor_github_login : Option String
  pub actor_app_email : Option String
  pub github_event_at : Option ℕ
  pub detail : Option Detail

pub record AuditEvent : Type 0 where
  pub row : EventRow
  pub open row use *
  pub seq : ℕ

-- An event joined with its promotion's resource.
pub record RecentEvent : Type 0 where
  pub event : AuditEvent
  pub open event use *
  pub resource_id : Option String
  pub resource_title : Option String

pub record RehydrateEvent : Type 0 where
  pub id : String
  pub resource_id : String
  pub resource_title : Option String
  pub actor_email : String
  pub mode : String
  pub dev_space_id : Option String
  pub detail : Option Json
  pub created_at : ℕ

pub record DeploymentAttempt : Type 0 where
  pub id : String
  pub promotion_id : String
  pub provider : String
  pub external_run_id : String
  pub run_attempt : ℕ
  pub revisions : List (String × String)
  pub mutation_started : Bool
  pub completed_stages : List String
  pub current_stage : Option String
  pub failed_stage : Option String
  pub target_ids : List (String × String)
  pub reason : Option String
  pub run_url : Option String
  pub terminal_state : String
  pub observed_at : ℕ
  pub updated_at : ℕ
