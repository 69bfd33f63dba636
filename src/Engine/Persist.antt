-- ===== src/Engine/Persist.antt =====
-- `_persist_promotion` of engine_api/main.py. What other requests write between the lookup and the
-- creation is the argument `meanwhile`; the uuids are given by what they are for.
use genie_promote_cicd.Prelude.{
  ℕ, String, Bool, true, false, Option, none, some, List, if◌then◌else◌, Json, Fields, Exec, Exn,
  Result, ok, raise, pure, ◌>>◌, duplicate_change_request,
}
use genie_promote_cicd.Promotions.Types.{Promotion, Detail}
use genie_promote_cicd.Promotions.Backend.{Backend}
use genie_promote_cicd.Promotions.Store
use genie_promote_cicd.Promotions.Store.{NewPromotion}
use genie_promote_cicd.Review.Findings.{is_true}

-- The request's body, the review and the Change Request that its result holds.
pub record Request : Type 0 where
  pub target_id : String
  pub kind : String
  pub resource_title : Option String
  pub table_mapping : Option Json
  pub requester_email : Option String
  pub branch : String
  pub audience_spec : Option Json
  pub gate_conclusion : Option String
  pub gate_summary : Option String
  pub findings : List Json
  pub eval : Option Json
  pub timeline : List Json
  pub provider : String
  pub external_id : String
  pub external_url : Option String
  pub content_revision : Option String
  pub engine_revision : Option String

-- `value or None`
abbrev pub or_none : Option Json → Option Json
or_none none = none
or_none (some value) = if is_true value then some value else none

abbrev pub new_promotion_of : Request → NewPromotion
new_promotion_of r = record {
  resource_id = r.target_id;
  resource_kind = r.kind;
  resource_title = r.resource_title;
  requester_email = r.requester_email;
  branch = some r.branch;
  current_phase = some "open";
  live_status = none;
  audience_spec = or_none r.audience_spec;
  table_mapping = or_none r.table_mapping;
  change_provider = some r.provider;
  external_id = some r.external_id;
  external_url = r.external_url;
  content_revision = r.content_revision;
  engine_revision = r.engine_revision;
}

abbrev json_text : Option String → Json
json_text none = Json.null
json_text (some s) = Json.str s

abbrev json_or_null : Option Json → Json
json_or_null none = Json.null
json_or_null (some value) = value

abbrev declared : Bool → Request → Fields
declared false r = Fields.end
declared true r = Fields.field "resource_title" (json_text r.resource_title) (
    Fields.field "audience_spec" (json_or_null (or_none r.audience_spec))
      (Fields.field "table_mapping" (json_or_null (or_none r.table_mapping)) Fields.end))

abbrev pub detail_of : Bool → Request → Json
detail_of again r = Json.obj (
    Fields.field "provider" (Json.str r.provider) (
      Fields.field "external_id" (Json.str r.external_id) (
        Fields.field "external_url" (json_text r.external_url) (
          Fields.field "revisions"
            (Json.obj (
              Fields.field "content_revision" (json_text r.content_revision)
                (Fields.field "engine_revision" (json_text r.engine_revision) Fields.end)))
            (declared again r)))))

-- A request that came again writes what it declares.
abbrev pub redeclare : Bool → ℕ → String → Request → Exec Backend Unit
redeclare false now id r = pure tt
redeclare true now id r = do
  Store.update_declarations now id r.resource_title (or_none r.audience_spec)
      (or_none r.table_mapping)
  Store.update_change_request now id r.provider r.external_id r.external_url r.content_revision
      r.engine_revision

abbrev pub event_of : Bool → String
event_of again = if again then "re_reviewed" else "requested"

-- The second half: the snapshot, the declarations and the event.
unfoldable pub record_request :
    (String → String) → ℕ → Request → Bool → String → Exec Backend String
record_request fresh now r again id = do
  Store.append_snapshot (fresh "snapshot") now id r.gate_conclusion r.gate_summary r.findings r.eval
      r.timeline
  redeclare again now id r
  Store.append_audit_event (
      Store.event_row (fresh "event") now id (event_of again) none
        (if again then none else r.requester_email) none
        (some (Detail.mapping (detail_of again r))))
  pure id

-- A creation that returned, or that met the same Change Request.
abbrev pub after_create :
    (String → String) → ℕ → Request → Result Promotion × Backend → Result String × Backend
after_create fresh now r (ok p, b) = record_request fresh now r false p.id b
after_create fresh now r (raise Exn.duplicate_change_request, b) =
    elim (Store.find_by_change_request r.provider r.external_id b) [
      | none ↦ (raise duplicate_change_request, b)
      | some p ↦ record_request fresh now r true p.id b
    ]
after_create fresh now r (raise Exn.value_error, b) = (raise Exn.value_error, b)
after_create fresh now r (raise Exn.last_admin_error, b) = (raise Exn.last_admin_error, b)
after_create fresh now r (raise Exn.runtime_error, b) = (raise Exn.runtime_error, b)
after_create fresh now r (raise Exn.access_denied, b) = (raise Exn.access_denied, b)
after_create fresh now r (raise Exn.external_error, b) = (raise Exn.external_error, b)

unfoldable pub persist_promotion :
    (Backend → Backend) → (String → String) → ℕ → Request → Exec Backend String
persist_promotion meanwhile fresh now r b =
    elim (Store.find_by_change_request r.provider r.external_id b) [
      | some p ↦ record_request fresh now r true p.id b
      | none ↦
          after_create fresh now r
            (Store.create_promotion (fresh "promotion") now (new_promotion_of r) (meanwhile b))
    ]
