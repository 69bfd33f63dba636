-- ===== src/Tests/Samples.antt =====
-- A promotion, its store, and observations of its Change Request.
use genie_promote_cicd.Prelude.{
  ◌≡◌, refl, true, false, none, some, [], ◌∷◌, lookup, raise, external_error,
}
use genie_promote_cicd.ChangeRequest.{RevisionPair, AttemptPayload, ChangeRequestObservation}
use genie_promote_cicd.Promotions.Types.{Promotion, EventRow}
use genie_promote_cicd.Promotions.Backend
use genie_promote_cicd.Promotions.Backend.{Backend, empty}
use genie_promote_cicd.Promotions.Store
use genie_promote_cicd.Promotions.Store.{NewPromotion}
use genie_promote_cicd.Promotions.Invariant.{IsConsistent}
use genie_promote_cicd.Promotions.Reach.{Reach, start, next, create, audit, Reach-IsConsistent}
use genie_promote_cicd.Reconcile.Defs.{Environment}

abbrev pub new_request : NewPromotion
new_request = record {
  resource_id = "space-1";
  resource_kind = "genie_space";
  resource_title = some "Sales";
  requester_email = some "ana@example.com";
  branch = some "promote/space-1";
  current_phase = some "open";
  live_status = none;
  audience_spec = none;
  table_mapping = none;
  change_provider = some "github";
  external_id = some "17";
  external_url = none;
  content_revision = some "c1";
  engine_revision = some "e1";
}

abbrev pub promotion : Promotion
promotion = Store.new_promotion "p1" 100 new_request

abbrev pub opened : EventRow
opened = Store.event_row "e1" 110 "p1" "pr_opened" none none none none

abbrev pub created : Backend
created = (Store.create_promotion "p1" 100 new_request empty).1

abbrev pub store : Backend
store = (Store.append_audit_event opened created).1

pub store-Reach : Reach store
store-Reach = next (next start (create "p1" 100 new_request refl)) (audit opened)

pub store-IsConsistent : IsConsistent store
store-IsConsistent = Reach-IsConsistent store-Reach

pub store-promotion : lookup "p1" store.promotions ≡ some promotion
unfolding Store.create_promotion Backend.insert_promotion Store.append_audit_event
    Backend.insert_audit_event
store-promotion = refl

abbrev pub approved : RevisionPair
approved = record { content_revision = "c1"; engine_revision = "e1" }

abbrev pub other : RevisionPair
other = record { content_revision = "c2"; engine_revision = "e1" }

abbrev pub attempt_payload : AttemptPayload
attempt_payload = record {
  attempt_id = some "github:7:1";
  run_attempt = some 1;
  sequence = some 9;
  revisions = none;
  mutation_started = some true;
  completed_stages = some ("preflight" ∷ []);
  current_stage = some "complete";
  failed_stage = none;
  target_ids = none;
  reason = none;
  run_url = none;
  terminal_state = some "succeeded";
}

-- A merged Change Request whose deployment ran the given pair and succeeded.
abbrev pub deployed_with : RevisionPair → ChangeRequestObservation
deployed_with ran = record {
  provider = "github";
  external_id = "17";
  external_url = none;
  state = some "closed";
  merged = true;
  phase = "deployed";
  checks = "success";
  check_observations = [];
  review_decision = "approved";
  actors = [];
  revisions = some ran;
  deployment = record {
    status = "completed";
    conclusion = some "success";
    waiting_approval = false;
    run_url = none;
    run_id = some 7;
    approver = some "steward";
    revisions = some ran;
    attempt = some attempt_payload;
    steps = [];
    rejected = false;
    rejection_reason = none;
  };
}

abbrev pub environment : Environment
environment = record {
  audit_facts = λ number. raise external_error;
  read_time = λ text. none;
  fresh = λ event. event;
  now = λ event. 200;
}
