-- ===== src/Engine/Identity.antt =====
-- engine_api/main.py: who calls an endpoint, and who is an administrator. The workspace's answer to a
-- token, and the environment's variables, are arguments.
use Prim.Native.Char.{code}
use Prim.Native.String.{[], ◌∷◌}
use genie_promote_cicd.Prelude.{
  ℕ, zero, suc, String, Bool, true, false, not, ◌&&◌, Option, none, some, List, map, select, any,
  ◌==◌, eqb, if◌then◌else◌, truthy, or_else, lower, strip, normalized, Result, ok, raise,
}
use genie_promote_cicd.Access.Authz.{Me, VerifiedIdentity, verify_identity}
use genie_promote_cicd.Config.Roles.{RolesBackend, effective_emails}

-- `APP_ALLOW_BEARER_OBO == "1"` and `APP_ADMINS`, and what the workspace says of a token.
pub record Surroundings : Type 0 where
  pub allow_bearer : Bool
  pub app_admins : Option String
  pub me : String → Result (Option Me)

-- The headers `x-forwarded-access-token` and `authorization`.
pub record Headers : Type 0 where
  pub x_forwarded_access_token : Option String
  pub authorization : Option String

-- `text.startswith(prefix)`
abbrev starts_with : String → String → Bool
starts_with s [] = true
starts_with [] (d ∷ prefix) = false
starts_with (c ∷ s) (d ∷ prefix) = eqb (code c) (code d) && starts_with s prefix

-- `text[n:]`
abbrev from_place : ℕ → String → String
from_place zero s = s
from_place (suc n) [] = []
from_place (suc n) (c ∷ s) = from_place n s

-- `text or None`
abbrev given : String → Option String
given s = if s == "" then none else some s

-- `_user_token`
unfoldable pub user_token : Surroundings → Headers → Option String
user_token env h =
    let authorization = or_else h.authorization "" in
    if truthy h.x_forwarded_access_token
    then h.x_forwarded_access_token
    else if env.allow_bearer
        && truthy h.authorization
        && starts_with (lower authorization) "bearer "
    then given (strip (from_place 7 authorization))
    else none

abbrev pub name_in : Result VerifiedIdentity → Option String
name_in (ok identity) = some identity.user_name
name_in (raise e) = none

abbrev pub verified_by : (String → Result (Option Me)) → Option String → Option String
verified_by me none = none
verified_by me (some token) = name_in (verify_identity (me token))

-- `_verified_email`
unfoldable pub verified_email : Surroundings → Headers → Option String
verified_email env h = verified_by env.me (user_token env h)

-- `text.split(",")`
unfoldable pub split_comma : String → List String
split_comma [] = List.◌∷◌ "" List.[]
split_comma (c ∷ s) = elim (split_comma s) [
  | List.[] ↦ List.◌∷◌ (c ∷ []) List.[]
  | List.◌∷◌ word words ↦
      if eqb (code c) b',' then List.◌∷◌ "" (List.◌∷◌ word words) else List.◌∷◌ (c ∷ word) words
]

-- `_env_emails`, of one variable.
unfoldable pub env_emails : Option String → List String
env_emails value =
    map normalized (select (λ e. not (strip e == "")) (split_comma (or_else value "")))

-- `_admin_emails`
unfoldable pub admin_emails : Surroundings → Option RolesBackend → List String
admin_emails env none = env_emails env.app_admins
admin_emails env (some store) = effective_emails "admin" (env_emails env.app_admins) store

-- `_is_admin`
unfoldable pub is_admin_email : Surroundings → Option RolesBackend → Option String → Bool
is_admin_email env store none = false
is_admin_email env store (some email) =
    not (email == "") && any (λ e. e == normalized email) (admin_emails env store)
