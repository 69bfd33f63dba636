-- ===== src/Engine/Admin.antt =====
-- engine_api/main.py: the administrators' endpoints for the roles and the rules. `handbook_rules.RULES`
-- is an argument, and so are the uuids and clock readings that the stores draw. The bodies of the
-- responses are left out where they only show what the store returned.
use genie_promote_cicd.Prelude.{
  ℕ, String, Bool, not, ◌&&◌, Option, none, some, List, any, ◌==◌, if◌then◌else◌, or_else, Exec,
  Exn, Result, ok, raise, value_error, last_admin_error,
}
use genie_promote_cicd.Config.Roles
use genie_promote_cicd.Config.Roles.{RolesBackend}
use genie_promote_cicd.Config.Rules
use genie_promote_cicd.Config.Rules.{RulesBackend, Rule, NewRule}
use genie_promote_cicd.Engine.Identity.{Surroundings, Headers, verified_email, is_admin_email}

-- `app.state`: a store is none without a database.
pub record AppState : Type 0 where
  pub roles : Option RolesBackend
  pub rules : Option RulesBackend

-- What an endpoint returns: an HTTPException carries its status code.
pub data Response (A : Type 0) : Type 0 where
  respond : A → Response A
  http_error : ℕ → Response A

pub record RoleAssignIn : Type 0 where
  pub email : String
  pub role : String
  pub github_username : Option String

pub record RoleRevokeIn : Type 0 where
  pub email : String
  pub role : String

abbrev pub Endpoint : Type 0
Endpoint = AppState → Response Unit × AppState

-- The status code of an exception that the endpoint does not turn into one itself.
abbrev status_of : (Exn → Option ℕ) → Exn → ℕ
status_of caught e = or_else (caught e) 500

abbrev answer : {A : Type 0} → (Exn → Option ℕ) → Result A → Response Unit
answer caught (ok a) = respond tt
answer caught (raise e) = http_error (status_of caught e)

abbrev value_errors : Exn → Option ℕ
value_errors value_error = some 400
value_errors last_admin_error = some 400
value_errors _ = none

abbrev last_admin_errors : Exn → Option ℕ
last_admin_errors last_admin_error = some 409
last_admin_errors _ = none

abbrev nothing : Exn → Option ℕ
nothing e = none

-- `_require_roles_store` and a call of the store.
abbrev pub on_roles :
    {A : Type 0} → Option RolesBackend → (Exn → Option ℕ) → Exec RolesBackend A → Endpoint
on_roles none caught call s = (http_error 503, s)
on_roles (some b) caught call s =
    let (r, b') = call b in (answer caught r, record s { roles = some b' })

-- `_require_rules_store` and a call of the store.
abbrev pub on_rules :
    {A : Type 0} → Option RulesBackend → (Exn → Option ℕ) → Exec RulesBackend A → Endpoint
on_rules none caught call s = (http_error 503, s)
on_rules (some b) caught call s =
    let (r, b') = call b in (answer caught r, record s { rules = some b' })

module _ (rules : List Rule) (env : Surroundings) (h : Headers) where
  -- `_require_admin`, and the rest of the endpoint on the verified email.
  abbrev pub as_admin : (String → Endpoint) → Endpoint
  as_admin rest s =
      let verified = verified_email env h in
      if not (is_admin_email env s.roles verified)
      then (http_error 403, s)
      else rest (or_else verified "") s

  unfoldable pub list_roles : Endpoint
  list_roles = as_admin λ verified s. on_roles s.roles nothing (λ b. (ok (Roles.list_all b), b)) s

  unfoldable pub assign_role : String → ℕ → RoleAssignIn → Endpoint
  assign_role fresh now body = as_admin λ verified s.
      on_roles s.roles value_errors
        (Roles.assign fresh now body.email body.role body.github_username) s

  unfoldable pub revoke_role : RoleRevokeIn → Endpoint
  revoke_role body =
      as_admin
        λ verified s. on_roles s.roles last_admin_errors (Roles.revoke body.email body.role) s

  unfoldable pub list_rules : Endpoint
  list_rules = as_admin λ verified s. on_rules s.rules nothing (λ b. (ok (Rules.list_all b), b)) s

  abbrev is_known : String → Bool
  is_known rule_id = any (λ r. r.rule_id == rule_id) rules

  -- The body's fields, and the actor that `upsert` is given.
  abbrev with_actor : NewRule → String → NewRule
  with_actor body verified = record body { actor_email = verified }

  abbrev pub checked_upsert :
      Option RulesBackend → String → (now at : ℕ) → NewRule → String → Endpoint
  checked_upsert none fresh now at body verified s = (http_error 503, s)
  checked_upsert (some b) fresh now at body verified s =
      if body.is_custom && is_known body.rule_id
      then (http_error 400, s)
      else if not body.is_custom && not (is_known body.rule_id)
      then (http_error 400, s)
      else on_rules (some b) value_errors (Rules.upsert fresh now at (with_actor body verified)) s

  unfoldable pub upsert_rule : String → (now at : ℕ) → NewRule → Endpoint
  upsert_rule fresh now at body =
      as_admin λ verified s. checked_upsert s.rules fresh now at body verified s

  unfoldable pub reset_rule : String → ℕ → String → Endpoint
  reset_rule fresh at rule_id =
      as_admin λ verified s. on_rules s.rules nothing (Rules.reset fresh at rule_id verified) s
