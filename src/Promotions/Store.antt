-- ===== src/Promotions/Store.antt =====
-- app/promotion_store.py, `PromotionStore`: the domain logic over a backend. The uuid and the reading
-- of the clock that a method draws are its arguments `fresh` and `now`.
use Prim.Native.Char.{code}
use Prim.Native.String.{[], ◌∷◌}
use genie_promote_cicd.Prelude.{
  ℕ, String, Bool, false, not, ◌&&◌, ◌||◌, Option, none, some, List, Exec, pure, throw, ◌>>=◌, ◌>>◌,
  value_error, ◌==◌, eqb, if◌then◌else◌, truthy, same_text, or_else, any, find_first, Json,
}
use genie_promote_cicd.ChangeRequest.{AttemptPayload, ChangeRequestObservation}
use genie_promote_cicd.Promotions.Types.{
  Promotion, ReviewSnapshot, Detail, EventRow, AuditEvent, RehydrateEvent, DeploymentAttempt,
}
use genie_promote_cicd.Promotions.Backend
use genie_promote_cicd.Promotions.Backend.{Backend, Filters}

abbrev pub event_types : List String
event_types = List.◌∷◌ "requested" (
    List.◌∷◌ "re_reviewed" (
      List.◌∷◌ "pr_opened" (
        List.◌∷◌ "pr_review_approved" (
          List.◌∷◌ "merged" (
            List.◌∷◌ "deploy_approved" (
              List.◌∷◌ "deployed"
                (List.◌∷◌ "failed" (List.◌∷◌ "closed" (List.◌∷◌ "rehydrated" List.[])))))))))

abbrev pub terminal_phases : List String
terminal_phases = List.◌∷◌ "deployed" (List.◌∷◌ "deploy_failed" (List.◌∷◌ "closed" List.[]))

abbrev pub contains : List String → String → Bool
contains texts s = any (λ t. t == s) texts

-- The keyword arguments of `create_promotion`.
pub record NewPromotion : Type 0 where
  pub resource_id : String
  pub resource_kind : String
  pub resource_title : Option String
  pub requester_email : Option String
  pub branch : Option String
  pub current_phase : Option String
  pub live_status : Option ChangeRequestObservation
  pub audience_spec : Option Json
  pub table_mapping : Option Json
  pub change_provider : Option String
  pub external_id : Option String
  pub external_url : Option String
  pub content_revision : Option String
  pub engine_revision : Option String

abbrev pub new_promotion : String → ℕ → NewPromotion → Promotion
new_promotion fresh now a = record {
  id = fresh;
  resource_id = a.resource_id;
  resource_kind = a.resource_kind;
  resource_title = a.resource_title;
  requester_email = a.requester_email;
  branch = a.branch;
  current_phase = a.current_phase;
  live_status = a.live_status;
  terminal = false;
  last_reconciled_at = none;
  created_at = now;
  updated_at = now;
  audience_spec = a.audience_spec;
  table_mapping = a.table_mapping;
  change_provider = a.change_provider;
  external_id = a.external_id;
  external_url = a.external_url;
  content_revision = a.content_revision;
  engine_revision = a.engine_revision;
}

unfoldable pub create_promotion : String → ℕ → NewPromotion → Exec Backend Promotion
create_promotion fresh now a b =
    if not (truthy a.change_provider) || not (truthy a.external_id)
    then throw value_error b
    else let p = new_promotion fresh now a in (Backend.insert_promotion p >> pure p) b

unfoldable pub touch : ℕ → String → Exec Backend Unit
touch now promotion_id = Backend.update_promotion promotion_id λ p. record p { updated_at = now }

unfoldable pub update_declarations :
    ℕ → String → Option String → Option Json → Option Json → Exec Backend Unit
update_declarations now promotion_id resource_title audience_spec table_mapping =
    Backend.update_promotion promotion_id λ p. record p {
      resource_title = resource_title;
      audience_spec = audience_spec;
      table_mapping = table_mapping;
      updated_at = now;
    }

-- `p.change_provider == provider and p.external_id == external_id`, for texts that are not None.
abbrev pub is_request : String → String → Promotion → Bool
is_request provider external_id p =
    same_text p.change_provider (some provider) && same_text p.external_id (some external_id)

unfoldable pub find_by_change_request : String → String → Backend → Option Promotion
find_by_change_request provider external_id b =
    find_first (is_request provider external_id) (Backend.list_promotions none b)

unfoldable pub update_change_request :
    ℕ
    → String
    → (provider external_id : String)
      (external_url content_revision engine_revision : Option String)
    → Exec Backend Unit
update_change_request now promotion_id provider external_id external_url content_revision
      engine_revision =
    Backend.update_promotion promotion_id λ p. record p {
      change_provider = some provider;
      external_id = some external_id;
      external_url = external_url;
      content_revision = content_revision;
      engine_revision = engine_revision;
      updated_at = now;
    }

unfoldable pub update_cache :
    ℕ
    → String
    → Option String
    → Option ChangeRequestObservation
    → Bool
    → Option ℕ
    → Exec Backend Unit
update_cache now promotion_id current_phase live_status terminal last_reconciled_at =
    let t = or_else last_reconciled_at now in
    Backend.update_promotion promotion_id λ p. record p {
      current_phase = current_phase;
      live_status = live_status;
      terminal = terminal;
      last_reconciled_at = some t;
      updated_at = t;
    }

abbrev pub snapshot_row :
    String
    → ℕ
    → String
    → (gate_conclusion gate_summary : Option String) → List Json
    → Option Json
    → List Json
    → ReviewSnapshot
snapshot_row fresh now promotion_id gate_conclusion gate_summary findings eval timeline = record {
  id = fresh;
  promotion_id = promotion_id;
  created_at = now;
  gate_conclusion = gate_conclusion;
  gate_summary = gate_summary;
  findings = findings;
  eval = eval;
  timeline = timeline;
}

unfoldable pub append_snapshot :
    String
    → ℕ
    → String
    → (gate_conclusion gate_summary : Option String) → List Json
    → Option Json
    → List Json
    → Exec Backend ReviewSnapshot
append_snapshot fresh now promotion_id gate_conclusion gate_summary findings eval timeline =
    let s =
      snapshot_row fresh now promotion_id gate_conclusion gate_summary findings eval timeline in
    Backend.insert_snapshot s >> pure s

abbrev last {ℓ} : {A : Type ℓ} → List A → Option A
last List.[] = none
last (List.◌∷◌ x List.[]) = some x
last (List.◌∷◌ x (List.◌∷◌ y ys)) = last (List.◌∷◌ y ys)

unfoldable pub latest_snapshot : String → Backend → Option ReviewSnapshot
latest_snapshot promotion_id b = last (Backend.list_snapshots promotion_id b)

abbrev pub event_row :
    String
    → ℕ
    → (promotion_id event_type : String) (login email : Option String) → Option ℕ
    → Option Detail
    → EventRow
event_row fresh now promotion_id event_type login email at detail = record {
  id = fresh;
  promotion_id = promotion_id;
  occurred_at = now;
  event_type = event_type;
  actor_github_login = login;
  actor_app_email = email;
  github_event_at = at;
  detail = detail;
}

abbrev pub as_event : EventRow → Option ℕ → Option AuditEvent
as_event row none = none
as_event row (some seq) = some (record { row = row; seq = seq })

-- Takes the row that is built of the keyword arguments by `event_row`.
unfoldable pub append_audit_event : EventRow → Exec Backend (Option AuditEvent)
append_audit_event row b =
    if not (contains event_types row.event_type)
    then throw value_error b
    else (Backend.insert_audit_event row >>= λ seq. pure (as_event row seq)) b

unfoldable pub append_rehydrate_event :
    String
    → ℕ
    → String
    → Option String
    → (actor_email mode : String) → Option String
    → Option Json
    → Exec Backend RehydrateEvent
append_rehydrate_event fresh now resource_id resource_title actor_email mode dev_space_id detail b =
    if actor_email == ""
    then throw value_error b
    else if not (mode == "create" || mode == "overwrite")
    then throw value_error b
    else let e : RehydrateEvent = record {
      id = fresh;
      resource_id = resource_id;
      resource_title = resource_title;
      actor_email = actor_email;
      mode = mode;
      dev_space_id = dev_space_id;
      detail = detail;
      created_at = now;
    } in
      (Backend.insert_rehydrate_event e >> pure e) b

-- `text.split(":")`
unfoldable pub split_colon : String → List String
split_colon [] = List.◌∷◌ "" List.[]
split_colon (c ∷ s) = elim (split_colon s) [
  | List.[] ↦ List.◌∷◌ (c ∷ []) List.[]
  | List.◌∷◌ word words ↦
      if eqb (code c) b':' then List.◌∷◌ "" (List.◌∷◌ word words) else List.◌∷◌ (c ∷ word) words
]

-- The last but one of the parts, or the text itself where there is one part only.
unfoldable pub run_id_of : String → List String → String
run_id_of whole List.[] = whole
run_id_of whole (List.◌∷◌ a List.[]) = whole
run_id_of whole (List.◌∷◌ a (List.◌∷◌ b List.[])) = a
run_id_of whole (List.◌∷◌ a (List.◌∷◌ b (List.◌∷◌ c more))) =
    run_id_of whole (List.◌∷◌ b (List.◌∷◌ c more))

abbrev pub terminal_states : List String
terminal_states =
    List.◌∷◌ "running"
      (List.◌∷◌ "operational_failed" (List.◌∷◌ "partial_failed" (List.◌∷◌ "succeeded" List.[])))

-- `value or default`, where an empty text is false.
abbrev pub text_or : Option String → String → String
text_or none d = d
text_or (some s) d = if s == "" then d else s

-- `value or 1`, where zero is false.
abbrev number_or_one : Option ℕ → ℕ
number_or_one none = 1
number_or_one (some n) = if eqb n 0 then 1 else n

abbrev pub attempt_row : ℕ → String → String → AttemptPayload → DeploymentAttempt
attempt_row now promotion_id provider evidence =
    let attempt_id = text_or evidence.attempt_id "" in
    record {
      id = attempt_id;
      promotion_id = promotion_id;
      provider = provider;
      external_run_id = run_id_of attempt_id (split_colon attempt_id);
      run_attempt = number_or_one evidence.run_attempt;
      revisions = or_else evidence.revisions List.[];
      mutation_started = or_else evidence.mutation_started false;
      completed_stages = or_else evidence.completed_stages List.[];
      current_stage = evidence.current_stage;
      failed_stage = evidence.failed_stage;
      target_ids = or_else evidence.target_ids List.[];
      reason = evidence.reason;
      run_url = evidence.run_url;
      terminal_state = text_or evidence.terminal_state "running";
      observed_at = now;
      updated_at = now;
    }

unfoldable pub upsert_deployment_attempt :
    ℕ → String → AttemptPayload → String → Exec Backend DeploymentAttempt
unfolding run_id_of split_colon
upsert_deployment_attempt now promotion_id evidence provider b =
    if text_or evidence.attempt_id "" == ""
    then throw value_error b
    else if not (contains terminal_states (text_or evidence.terminal_state "running"))
    then throw value_error b
    else let row = attempt_row now promotion_id provider evidence in
      (Backend.upsert_deployment_attempt row >> pure row) b
