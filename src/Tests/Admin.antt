-- ===== src/Tests/Admin.antt =====
-- Requests of an administrator and of somebody else.
use genie_promote_cicd.Prelude.{
  ◌≡◌, refl, sym, ap, ◌∙◌, subst, inl, inr, texts_differ, Memᴰ, true, false, none, some, [], ◌∷◌,
  ok, raise, external_error, ◌==◌, if◌then◌else◌, normalized, lower, strip, lstrip, rstrip,
}
use genie_promote_cicd.Access.Authz.{verify_identity}
use genie_promote_cicd.Config.Roles.{effective_emails, revoke}
use genie_promote_cicd.Engine.Identity.{
  Surroundings, Headers, user_token, verified_email, admin_emails, is_admin_email,
}
use genie_promote_cicd.Engine.Admin.{AppState, http_error, revoke_role}
use genie_promote_cicd.Engine.Administrators.{HasNoRow, Administers, IsAdministrator}
use genie_promote_cicd.Engine.Gate.{role_revoke, serve, OpenIn, serve-refused, serve-OpenIn}
use genie_promote_cicd.Tests.Config.{store, env, eval}

abbrev surroundings : Surroundings
surroundings = record {
  allow_bearer = false;
  app_admins = some "eva@example.com";
  me = λ token.
      if token == "t-ana"
      then ok (some (record { user_name = some "Ana@example.com"; groups = [] }))
      else if token == "t-bia"
      then ok (some (record { user_name = some "Bia@example.com"; groups = [] }))
      else raise external_error;
}

abbrev of_ana : Headers
of_ana = record { x_forwarded_access_token = some "t-ana"; authorization = none }

abbrev of_bia : Headers
of_bia = record { x_forwarded_access_token = some "t-bia"; authorization = none }

abbrev state : AppState
state = record { roles = some store; rules = none }

ana_is_admin : is_admin_email surroundings state.roles (verified_email surroundings of_ana) ≡ true
unfolding is_admin_email verified_email user_token verify_identity admin_emails effective_emails
    normalized lower strip lstrip rstrip
ana_is_admin = refl

bia_verifies : verified_email surroundings of_bia ≡ some "Bia@example.com"
unfolding verified_email user_token verify_identity
bia_verifies = refl

bia_normalized : normalized "Bia@example.com" ≡ "bia@example.com"
unfolding normalized lower strip lstrip rstrip
bia_normalized = refl

-- The store has rows, of which the administrator's is Ana's.
bia_does_not : ¬ (Administers surroundings state.roles "Bia@example.com")
unfolding HasNoRow
bia_does_not (inl (no_row, listed)) = cc
bia_does_not (inr (b, row, same, there, role, name)) =
    let here : store ≡ b = cc in not_there (subst (λ c. Memᴰ row c.rows) (sym here) there)
  where
    not_there : Memᴰ row store.rows → ⊥
    not_there (Memᴰ.head is_ana) =
        texts_differ "ana@example.com" "bia@example.com" refl
          (ap (λ r. r.email) (sym is_ana) ∙ name ∙ bia_normalized)
    not_there (Memᴰ.tail (Memᴰ.head is_rui)) =
        texts_differ "steward" "admin" refl (ap (λ r. r.role) (sym is_rui) ∙ role)
    not_there (Memᴰ.tail (Memᴰ.tail none_left)) = elim none_left [ ]

bia_administers : ¬ (IsAdministrator surroundings of_bia state.roles)
bia_administers (email, verified, given, listed) =
    let same : "Bia@example.com" ≡ email = let e = bia_verifies in cc in
    bia_does_not (subst (λ e. Administers surroundings state.roles e) (sym same) listed)

serve-refused_example :
    serve
      (env ∷ eval ∷ [])
      surroundings
      of_bia
      (role_revoke (record { email = "ana@example.com"; role = "admin" }))
      state
    ≡ (http_error 403, state)
serve-refused_example =
    serve-refused (env ∷ eval ∷ []) surroundings of_bia
      (role_revoke (record { email = "ana@example.com"; role = "admin" })) state bia_administers

state-OpenIn : OpenIn state.roles
unfolding OpenIn
state-OpenIn = refl

serve-OpenIn_example :
    OpenIn
      (serve
        (env ∷ eval ∷ [])
        surroundings
        of_ana
        (role_revoke (record { email = "ana@example.com"; role = "admin" }))
        state).1.roles
serve-OpenIn_example =
    serve-OpenIn (env ∷ eval ∷ []) surroundings of_ana
      (role_revoke (record { email = "ana@example.com"; role = "admin" })) state state-OpenIn

-- The guard on the last administrator answers here.
serve_conflict :
    (serve
      (env ∷ eval ∷ [])
      surroundings
      of_ana
      (role_revoke (record { email = "ana@example.com"; role = "admin" }))
      state).0
    ≡ http_error 409
unfolding serve revoke_role revoke is_admin_email verified_email user_token verify_identity
    admin_emails effective_emails normalized lower strip lstrip rstrip
serve_conflict = refl
