-- ===== src/Tests/Shown.antt =====
-- The promotion of Samples, asked for by its requester.
use genie_promote_cicd.Prelude.{
  ◌≡◌, ◌↔◌, refl, true, none, some, [], ◌∷◌, ok, lookup, Memᴰ, lower, strip, lstrip, rstrip,
}
use genie_promote_cicd.Access.Authz.{verify_identity}
use genie_promote_cicd.Promotions.Types.{Promotion}
use genie_promote_cicd.Promotions.Backend
use genie_promote_cicd.Promotions.Store
use genie_promote_cicd.Config.Prompt.{PromptTemplateBackend, empty, save, reset}
use genie_promote_cicd.Config.PromptTrail.{start, next, saving, resetting, Chained, Reach-Chained}
use genie_promote_cicd.Engine.Identity.{
  Surroundings, Headers, user_token, verified_email, is_admin_email, admin_emails, env_emails,
  split_comma,
}
use genie_promote_cicd.Engine.Admin.{respond}
use genie_promote_cicd.Engine.Visibility.{list_promotions, get_promotion_audit, visible_promotion}
use genie_promote_cicd.Engine.Shown.{
  Entitled, Listed, list_promotions-Listed, get_promotion_audit_iff,
}
use genie_promote_cicd.Tests.Samples.{store, promotion}

abbrev surroundings : Surroundings
surroundings = record {
  allow_bearer = true;
  app_admins = none;
  me = λ token. ok (some (record { user_name = some "ana@example.com"; groups = [] }));
}

abbrev of_ana : Headers
of_ana = record { x_forwarded_access_token = none; authorization = some "Bearer t-ana" }

mine : list_promotions surroundings of_ana none "mine" (some store) ≡ respond (promotion ∷ [])
unfolding list_promotions Backend.list_promotions verified_email user_token verify_identity lower
    Store.create_promotion Backend.insert_promotion Store.append_audit_event
    Backend.insert_audit_event strip rstrip lstrip
mine = refl

list_promotions-Listed_example : Listed surroundings of_ana none store promotion
list_promotions-Listed_example =
    list_promotions-Listed surroundings of_ana none "mine" store (promotion ∷ []) mine
      (Memᴰ.head refl)

trail :
    get_promotion_audit surroundings of_ana none "p1" (some store)
    ≡ respond (Backend.list_audit_events "p1" store)
unfolding get_promotion_audit visible_promotion Backend.get_promotion is_admin_email verified_email
    user_token verify_identity lower Store.create_promotion Backend.insert_promotion
    Store.append_audit_event Backend.insert_audit_event strip rstrip lstrip admin_emails env_emails
    split_comma
trail = refl

get_promotion_audit_iff_example :
    (get_promotion_audit surroundings of_ana none "p1" (some store)
      ≡ respond (Backend.list_audit_events "p1" store))
    ↔ ((p : Promotion) × (lookup "p1" store.promotions ≡ some p)
        × Entitled surroundings of_ana none p
        × (Backend.list_audit_events "p1" store ≡ Backend.list_audit_events "p1" store))
get_promotion_audit_iff_example =
    get_promotion_audit_iff surroundings of_ana none "p1" store
      (Backend.list_audit_events "p1" store)

abbrev edited : PromptTemplateBackend
edited = (save "e1" 5 6 "Be strict." "ana@example.com" empty).1

Reach-Chained_example : Chained (reset "e2" 7 "rui@example.com" edited).1
Reach-Chained_example = Reach-Chained (
    next (next start (saving "e1" 5 6 "Be strict." "ana@example.com"))
      (resetting "e2" 7 "rui@example.com"))
