-- ===== src/Engine/Gate.antt =====
-- engine_api/main.py: who changes the configuration, and that someone can.
use genie_promote_cicd.Prelude.{
  ℕ, String, ◌≡◌, sym, subst, true, false, not, ◌&&◌, Option, none, some, List, Bool-cases, inl,
  inr, ◌==◌, any, Exec, Exn,
}
use genie_promote_cicd.Config.Roles.{RolesBackend}
use genie_promote_cicd.Config.Rules.{RulesBackend, Rule, NewRule}
use genie_promote_cicd.Config.RolesLaws.{Open, revoke-Open, assign-Open}
use genie_promote_cicd.Engine.Identity.{Surroundings, Headers, verified_email, is_admin_email}
use genie_promote_cicd.Engine.Administrators.{IsAdministrator, is_admin_email-IsAdministrator}
use genie_promote_cicd.Engine.Admin.{
  AppState, Response, http_error, RoleAssignIn, RoleRevokeIn, Endpoint, on_roles, on_rules,
  checked_upsert, list_roles, list_rules, assign_role, revoke_role, upsert_rule, reset_rule,
}

-- The endpoints, with the arguments of each.
pub data AdminRequest : Type 0 where
  roles_list rules_list : AdminRequest
  role_assign : (fresh : String) (now : ℕ) (body : RoleAssignIn) → AdminRequest
  role_revoke : (body : RoleRevokeIn) → AdminRequest
  rule_upsert : (fresh : String) (now at : ℕ) (body : NewRule) → AdminRequest
  rule_reset : (fresh : String) (at : ℕ) (rule_id : String) → AdminRequest

module _ (rules : List Rule) (env : Surroundings) (h : Headers) where
  -- What a request is answered.
  unfoldable pub serve : AdminRequest → Endpoint
  serve roles_list = list_roles rules env h
  serve rules_list = list_rules rules env h
  serve (role_assign fresh now body) = assign_role rules env h fresh now body
  serve (role_revoke body) = revoke_role rules env h body
  serve (rule_upsert fresh now at body) = upsert_rule rules env h fresh now at body
  serve (rule_reset fresh at rule_id) = reset_rule rules env h fresh at rule_id

  not_admitted :
      (r : AdminRequest) (s : AppState)
      → is_admin_email env s.roles (verified_email env h) ≡ false
      → serve r s ≡ (http_error 403, s)
  unfolding serve list_roles list_rules assign_role revoke_role upsert_rule reset_rule
  not_admitted roles_list s f = rw f
  not_admitted rules_list s f = rw f
  not_admitted (role_assign fresh now body) s f = rw f
  not_admitted (role_revoke body) s f = rw f
  not_admitted (rule_upsert fresh now at body) s f = rw f
  not_admitted (rule_reset fresh at rule_id) s f = rw f

  -- An administrators' request is answered 403 and changes nothing, unless the caller has a verified
  -- email that is not empty and, normalized, is in an administrator's row of the roles store, or in
  -- APP_ADMINS where that store has no row or is not there.
  pub serve-refused :
      (r : AdminRequest) (s : AppState)
      → ¬ (IsAdministrator env h s.roles)
      → serve r s ≡ (http_error 403, s)
  serve-refused r s nobody = elim (Bool-cases (is_admin_email env s.roles (verified_email env h))) [
    | inl t ↦ absurd (nobody (is_admin_email-IsAdministrator env h s.roles t))
    | inr f ↦ not_admitted r s f
  ]

-- The roles store, where there is one, has no row or an administrator.
unfoldable pub OpenIn : Option RolesBackend → Type 0
OpenIn none = Unit
OpenIn (some b) = Open b

-- What an endpoint leaves has an open roles store.
LeavesOpen : Response Unit × AppState → Type 0
LeavesOpen x = OpenIn x.1.roles

on_roles-OpenIn :
    {A : Type 0} (o : Option RolesBackend) (caught : Exn → Option ℕ) (call : Exec RolesBackend A)
    (s : AppState)
    → ((b : RolesBackend) → Open b → Open (call b).1)
    → OpenIn o
    → OpenIn s.roles
    → LeavesOpen (on_roles o caught call s)
unfolding OpenIn LeavesOpen
on_roles-OpenIn none caught call s keeps h k = k
on_roles-OpenIn (some b) caught call s keeps h k = keeps b h

on_rules-OpenIn :
    {A : Type 0} (o : Option RulesBackend) (caught : Exn → Option ℕ) (call : Exec RulesBackend A)
    (s : AppState)
    → OpenIn s.roles
    → LeavesOpen (on_rules o caught call s)
unfolding LeavesOpen
on_rules-OpenIn none caught call s h = h
on_rules-OpenIn (some b) caught call s h = h

leaves-OpenIn : (x : Response Unit × AppState) → OpenIn x.1.roles → LeavesOpen x
unfolding LeavesOpen
leaves-OpenIn x h = h

module _ (rules : List Rule) (env : Surroundings) (h : Headers) where
  checked_upsert-OpenIn :
      (o : Option RulesBackend) (fresh : String) (now at : ℕ) (body : NewRule) (verified : String)
      (s : AppState)
      → OpenIn s.roles
      → LeavesOpen (checked_upsert rules env h o fresh now at body verified s)
  checked_upsert-OpenIn none fresh now at body verified s k = leaves-OpenIn _ k
  checked_upsert-OpenIn (some b) fresh now at body verified s k =
      let known = any (λ r. r.rule_id == body.rule_id) rules in
      elim (Bool-cases (body.is_custom && known)) [
        | inl t ↦ rw t (leaves-OpenIn _ k)
        | inr f ↦ elim (Bool-cases (not body.is_custom && not known)) [
          | inl u ↦ rw (f, u) (leaves-OpenIn _ k)
          | inr g ↦ rw (f, g) (leaves-OpenIn _ k)
        ]
      ]

  allowed-LeavesOpen :
      (r : AdminRequest) (s : AppState)
      → is_admin_email env s.roles (verified_email env h) ≡ true
      → OpenIn s.roles
      → LeavesOpen (serve rules env h r s)
  unfolding serve list_roles list_rules assign_role revoke_role upsert_rule reset_rule
  allowed-LeavesOpen roles_list s t o = rw t (on_roles-OpenIn s.roles _ _ s (λ b k. k) o o)
  allowed-LeavesOpen rules_list s t o = rw t (on_rules-OpenIn s.rules _ _ s o)
  allowed-LeavesOpen (role_assign fresh now body) s t o = rw t (
      on_roles-OpenIn s.roles _ _ s
        (assign-Open fresh now body.email body.role body.github_username) o o)
  allowed-LeavesOpen (role_revoke body) s t o =
      rw t (on_roles-OpenIn s.roles _ _ s (revoke-Open body.email body.role) o o)
  allowed-LeavesOpen (rule_upsert fresh now at body) s t o =
      rw t (checked_upsert-OpenIn s.rules fresh now at body _ s o)
  allowed-LeavesOpen (rule_reset fresh at rule_id) s t o = rw t (on_rules-OpenIn s.rules _ _ s o)

  serve-LeavesOpen :
      (r : AdminRequest) (s : AppState) → OpenIn s.roles → LeavesOpen (serve rules env h r s)
  serve-LeavesOpen r s o = elim (Bool-cases (is_admin_email env s.roles (verified_email env h))) [
    | inr f ↦ subst LeavesOpen (sym (not_admitted rules env h r s f)) (leaves-OpenIn _ o)
    | inl t ↦ allowed-LeavesOpen r s t o
  ]

  -- After an administrators' request, whoever it is of and whatever it is answered, the roles store
  -- has no row or an administrator, if it had before.
  pub serve-OpenIn :
      (r : AdminRequest) (s : AppState) → OpenIn s.roles → OpenIn (serve rules env h r s).1.roles
  unfolding LeavesOpen
  serve-OpenIn r s o = serve-LeavesOpen r s o
