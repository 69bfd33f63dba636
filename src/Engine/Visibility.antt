-- ===== src/Engine/Visibility.antt =====
-- engine_api/main.py: which promotions a caller is shown. The store is none without a database. The
-- summary of a promotion in the response is the promotion itself.
use genie_promote_cicd.Prelude.{
  String, Bool, true, not, ◌&&◌, ◌||◌, Option, none, some, List, [], ◌∷◌, any, select, ◌==◌,
  if◌then◌else◌, truthy, or_else, lower, is_some,
}
use genie_promote_cicd.Promotions.Types.{Promotion, AuditEvent}
use genie_promote_cicd.Promotions.Backend
use genie_promote_cicd.Promotions.Backend.{Backend}
use genie_promote_cicd.Config.Roles.{RolesBackend}
use genie_promote_cicd.Engine.Identity.{Surroundings, Headers, verified_email, is_admin_email}
use genie_promote_cicd.Engine.Admin.{Response, respond, http_error}

abbrev pub queue_phases : List String
queue_phases = "open" ∷ "checks_running" ∷ "awaiting_approval" ∷ []

abbrev pub in_queue : Promotion → Bool
in_queue p =
    any (λ phase. phase == or_else p.current_phase "") queue_phases && is_some p.current_phase

-- `p.requester_email and p.requester_email.lower() == verified_email.lower()`
abbrev pub is_owner : String → Promotion → Bool
is_owner email p = truthy p.requester_email && lower (or_else p.requester_email "") == lower email

module _ (env : Surroundings) (h : Headers) (roles : Option RolesBackend) where
  abbrev pub listed_for : String → Option String → Backend → Response (List Promotion)
  listed_for scope verified b =
      if scope == "mine"
      then respond (Backend.list_promotions verified b)
      else if scope == "all"
      then (if not (is_admin_email env roles verified)
          then http_error 403
          else respond (Backend.list_promotions none b))
      else if scope == "steward-queue"
      then respond (select in_queue (Backend.list_promotions none b))
      else http_error 400

  -- `_require_store` and the rest of the endpoint.
  abbrev pub with_store : {A : Type 0} → Option Backend → (Backend → Response A) → Response A
  with_store none rest = http_error 503
  with_store (some b) rest = rest b

  unfoldable pub list_promotions : String → Option Backend → Response (List Promotion)
  list_promotions scope store = with_store store (listed_for scope (verified_email env h))

  abbrev may_see : Option String → Promotion → Bool
  may_see none p = true
  may_see (some email) p = is_admin_email env roles (some email) || is_owner email p

  -- `_visible_promotion_or_403`
  abbrev pub visible_or_403 : Option String → Option Promotion → Response Promotion
  visible_or_403 verified none = http_error 404
  visible_or_403 verified (some p) = if may_see verified p then respond p else http_error 403

  unfoldable pub visible_promotion : String → Backend → Response Promotion
  visible_promotion promotion_id b =
      visible_or_403 (verified_email env h) (Backend.get_promotion promotion_id b)

  abbrev pub and_events : Response Promotion → List AuditEvent → Response (List AuditEvent)
  and_events (http_error status) events = http_error status
  and_events (respond p) events = respond events

  unfoldable pub get_promotion_audit : String → Option Backend → Response (List AuditEvent)
  get_promotion_audit promotion_id store =
      with_store store λ b.
        and_events (visible_promotion promotion_id b) (Backend.list_audit_events promotion_id b)
