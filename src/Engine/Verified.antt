-- ===== src/Engine/Verified.antt =====
-- engine_api/main.py, `_verified_email`: a name that is verified.
use genie_promote_cicd.Prelude.{
  String, ◌≡◌, refl, Bool, true, false, not, ◌&&◌, Option, none, some, List, arith, ◌==◌, eq_iff,
  same_text, lower, truthy, or_else, eq_refl, Result, ok, raise, access_denied, if◌then◌else◌,
}
use genie_promote_cicd.Access.Authz.{Me, verify_identity}
use genie_promote_cicd.Engine.Identity.{
  Surroundings, Headers, user_token, verified_email, verified_by, name_in,
}

name_in-nonempty :
    (r : Result (Option Me)) (email : String)
    → name_in (verify_identity r) ≡ some email
    → (email == "") ≡ false
unfolding verify_identity
name_in-nonempty (raise e) email h = absurd (cc)
name_in-nonempty (ok none) email h = absurd (cc)
name_in-nonempty (ok (some me)) email h = named me.user_name h
  where
    named :
        (o : Option String)
        → name_in (verify_identity (ok (some (record me { user_name = o })))) ≡ some email
        → (email == "") ≡ false
    named none k = absurd (cc)
    named (some name) k = pick _ (name == "") refl k
      where
        pick :
            (groups : List String) (b : Bool)
            → (name == "") ≡ b
            → name_in (
                if not (not b)
                then raise access_denied
                else ok (record { user_name = name; group_names = groups }))
              ≡ some email
            → (email == "") ≡ false
        pick groups true t j = absurd (cc)
        pick groups false t j = let same : name ≡ email = cc in rw (← same) t

-- A verified email is not empty.
pub verified_email-nonempty :
    (env : Surroundings) (h : Headers) (email : String)
    → verified_email env h ≡ some email
    → (email == "") ≡ false
unfolding verified_email
verified_email-nonempty env h email e = by_token (user_token env h) e
  where
    by_token : (o : Option String) → verified_by env.me o ≡ some email → (email == "") ≡ false
    by_token none k = absurd (cc)
    by_token (some token) k = name_in-nonempty (env.me token) email k

pub is_owner-same :
    (o : Option String) (email : String)
    → (email == "") ≡ false
    → same_text o (some email) ≡ true
    → (truthy o && lower (or_else o "") == lower email) ≡ true
is_owner-same none email n h = absurd (cc)
is_owner-same (some name) email n h =
    let same : name ≡ email = (eq_iff name email).0 h in
    rw same (ground (arith, n, eq_refl (lower email)))
