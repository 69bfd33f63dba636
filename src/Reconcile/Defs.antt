-- ===== src/Reconcile/Defs.antt =====
-- app/reconcile.py. The status mapping is the observation that `get_status` writes out; its keys
-- `pr_state` and `deploy` are the observation's `state` and `deployment`.
use genie_promote_cicd.Prelude.{
  ℕ, String, Bool, true, false, not, ◌&&◌, ◌||◌, Option, none, some, List, [], ◌∷◌, ◌++◌, Exec,
  Result, ok, raise, value_error, pure, ◌>>◌, ◌==◌, if◌then◌else◌, truthy, same_text, any, select,
  map, ℤ, int_of_text, or_else,
}
use genie_promote_cicd.ChangeRequest.{AttemptPayload, ChangeRequestObservation}
use genie_promote_cicd.Promotions.Types.{
  Promotion, EventRevisions, observed, stored, milestone, EventRow,
}
use genie_promote_cicd.Promotions.Backend
use genie_promote_cicd.Promotions.Backend.{Backend}
use genie_promote_cicd.Promotions.Store
use genie_promote_cicd.Promotions.Store.{contains}

abbrev pub milestone_order : List String
milestone_order =
    "pr_opened" ∷ "pr_review_approved" ∷ "merged" ∷ "deploy_approved" ∷ "deployed" ∷ "failed"
    ∷ "closed" ∷ []

abbrev pub need_facts : List String
need_facts = "merged" ∷ "pr_review_approved" ∷ []

-- The mapping that `audit_facts` returns.
pub record Facts : Type 0 where
  pub merged_by : Option String
  pub merged_at : Option String
  pub review_approver : Option String
  pub review_approved_at : Option String

-- `facts = {}`
abbrev no_facts : Facts
no_facts = record {
  merged_by = none;
  merged_at = none;
  review_approver = none;
  review_approved_at = none;
}

-- What is not in the file: the GitHub client that `github_factory()` makes, with the call that may
-- raise; the reading of an ISO time; and the uuids and clock readings, by the event that they are for.
pub record Environment : Type 0 where
  pub audit_facts : ℤ → Result Facts
  pub read_time : String → Option ℕ
  pub fresh : String → String
  pub now : String → ℕ

unfoldable pub github_number : Promotion → Result ℤ
github_number p =
    if not (same_text p.change_provider (some "github")) || not (truthy p.external_id)
    then raise value_error
    else elim (int_of_text (or_else p.external_id "")) [ none ↦ raise value_error | some n ↦ ok n ]

-- `_parse_ts`
abbrev parse_ts : Environment → Option String → Option ℕ
parse_ts env none = none
parse_ts env (some value) = if value == "" then none else env.read_time value

abbrev pub when : Bool → String → List String
when b event = if b then event ∷ [] else []

abbrev pub phase_events : String → List String
phase_events phase =
    if phase == "deployed"
    then "deployed" ∷ []
    else if phase == "deploy_failed"
    then "failed" ∷ []
    else if phase == "closed"
    then "closed" ∷ []
    else []

-- `_reached`
unfoldable pub reached : ChangeRequestObservation → List String
reached status =
    when (truthy status.state) "pr_opened"
    ++ (when (status.review_decision == "approved") "pr_review_approved"
        ++ (when status.merged "merged"
            ++ (when (status.deployment.status == "completed") "deploy_approved"
                ++ phase_events status.phase)))

-- `_identity`
abbrev identity_of :
    Environment → String → ChangeRequestObservation → Facts → Option String × Option ℕ
identity_of env event status facts =
    if event == "pr_review_approved"
    then (facts.review_approver, parse_ts env facts.review_approved_at)
    else if event == "merged"
    then (facts.merged_by, parse_ts env facts.merged_at)
    else if event == "deploy_approved"
    then (status.deployment.approver, none)
    else (none, none)

abbrev revisions_of : Promotion → ChangeRequestObservation → EventRevisions
revisions_of promotion status = elim status.revisions [
  | none ↦ stored promotion.content_revision promotion.engine_revision
  | some pair ↦ observed pair
]

abbrev attempt_of : String → ChangeRequestObservation → Option AttemptPayload
attempt_of event status =
    if event == "deployed" || event == "failed" then status.deployment.attempt else none

-- The row that the loop hands to `append_audit_event`.
abbrev pub milestone_row :
    Environment → Promotion → ChangeRequestObservation → Facts → String → EventRow
milestone_row env promotion status facts event =
    Store.event_row (env.fresh event) (env.now event) promotion.id event
      (identity_of env event status facts).0 none (identity_of env event status facts).1
      (some (
        milestone status.phase (env.now event) (revisions_of promotion status)
          (attempt_of event status)))

-- `for event in to_append`
unfoldable pub append_events : (String → EventRow) → List String → Exec Backend Unit
append_events row [] = pure tt
append_events row (event ∷ events) = do
  Store.append_audit_event (row event)
  append_events row events

-- The call of the client, whose every exception is swallowed.
abbrev fetched : Environment → Result ℤ → Facts
fetched env (raise e) = no_facts
fetched env (ok number) = elim (env.audit_facts number) [ ok facts ↦ facts | raise e ↦ no_facts ]

unfoldable pub gather_facts : Environment → Promotion → List String → Facts
gather_facts env promotion to_append =
    if any (contains need_facts) to_append then fetched env (github_number promotion) else no_facts

unfoldable pub event_types_of : String → Backend → List String
event_types_of promotion_id b = map (λ e. e.event_type) (Backend.list_audit_events promotion_id b)

-- `[m for m in MILESTONE_ORDER if m in reached and m not in existing]`
unfoldable pub missing : List String → List String → List String
missing reached_ existing =
    select (λ m. contains reached_ m && not (contains existing m)) milestone_order

-- `if attempt:`, for a mapping that has a field where it is given, as the evidence's has.
abbrev pub mirror :
    Environment → Promotion → ChangeRequestObservation → Option AttemptPayload → Exec Backend Unit
mirror env promotion status none = pure tt
mirror env promotion status (some attempt) = do
  Store.upsert_deployment_attempt (env.now "attempt") promotion.id attempt
      (Store.text_or (some status.provider) "github")
  pure tt

abbrev pub is_empty : List String → Bool
is_empty [] = true
is_empty (e ∷ es) = false

unfoldable pub refresh :
    Environment → Promotion → ChangeRequestObservation → List String → Exec Backend Unit
refresh env promotion status to_append =
    if not (is_empty to_append) || not (same_text (some status.phase) promotion.current_phase)
    then Store.update_cache (env.now "cache") promotion.id (some status.phase) (some status)
        (contains Store.terminal_phases status.phase) none
    else pure tt

-- `existing` is read before the attempt is mirrored.
unfoldable pub reconcile :
    Environment → Promotion → ChangeRequestObservation → Exec Backend (List String)
reconcile env promotion status b =
    let existing = event_types_of promotion.id b in
    let to_append = missing (reached status) existing in
    let row = milestone_row env promotion status (gather_facts env promotion to_append) in
    (do
      mirror env promotion status status.deployment.attempt
      append_events row to_append
      refresh env promotion status to_append
      pure to_append)
      b
