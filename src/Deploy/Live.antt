-- ===== src/Deploy/Live.antt =====
-- The readback of the granted levels (scripts/deploy_attempt.py, `_sufficient_for` and
-- `verify_live_state`). A read of a resource's access control list, by object type and id, is a
-- parameter and returns or raises.
use genie_promote_cicd.Prelude.{
  String, ◌≡◌, refl, Bool, true, false, not, ◌&&◌, Option, none, some, List, [], ◌∷◌, ◌++◌, ◌==◌,
  if◌then◌else◌, Dict, lookup, all, select, All, Result, ok, raise, runtime_error,
}
use genie_promote_cicd.Access.Entries.{AclEntry}
use genie_promote_cicd.Access.Authz.{level_among}
use genie_promote_cicd.Access.Acl.{AudiencePrincipal, levels_by_name, read_level}
use genie_promote_cicd.Deploy.Artifacts.{Artifact}
use genie_promote_cicd.Resources.Kinds.{ResourceKind}

abbrev pub genie_sufficient : List String
genie_sufficient = "CAN_RUN" ∷ "CAN_EDIT" ∷ "CAN_MANAGE" ∷ "IS_OWNER" ∷ []

abbrev pub technical_sufficient : List String
technical_sufficient = "CAN_MANAGE" ∷ "IS_OWNER" ∷ []

-- `_sufficient_for`
unfoldable pub sufficient_for : ResourceKind → List String
sufficient_for kind =
    if kind.kind == "genie_space"
    then genie_sufficient
    else if kind.kind == "dashboard"
    then genie_sufficient ++ "CAN_READ" ∷ []
    else genie_sufficient

abbrev pub unverified :
    Dict (Option String) → List String → List AudiencePrincipal → List AudiencePrincipal
unverified levels sufficient desired =
    select (λ p. not (level_among sufficient (read_level levels p.name))) desired

abbrev pub refuse_any : List AudiencePrincipal → Result {0} Unit
refuse_any [] = ok tt
refuse_any (p ∷ missing) = raise runtime_error

-- The tests of one artifact, on what was read.
abbrev pub verify_acl : String → Artifact → List AclEntry → Result {0} Unit
verify_acl app_sp a acl =
    let levels = levels_by_name acl [] in
    if not (level_among technical_sufficient (read_level levels app_sp))
    then raise runtime_error
    else refuse_any (unverified levels (sufficient_for a.kind) a.audience)

abbrev verify_read : String → Artifact → Result (List AclEntry) → Result {0} Unit
verify_read app_sp a (raise e) = raise e
verify_read app_sp a (ok acl) = verify_acl app_sp a acl

-- A slug that `resolve_space` did not resolve is a KeyError.
abbrev pub verify_one :
    (String → String → Result (List AclEntry)) → String → Artifact → Option String → Result {0} Unit
verify_one read app_sp a none = raise runtime_error
verify_one read app_sp a (some resource_id) =
    verify_read app_sp a (read a.kind.permissions_object_type resource_id)

abbrev pub and_next : Result {0} Unit → Result {0} Unit → Result {0} Unit
and_next (raise e) next = raise e
and_next (ok u) next = next

-- The loop of `verify_live_state`.
unfoldable pub verify_live_state :
    (String → String → Result (List AclEntry))
    → String
    → Dict String
    → List Artifact
    → Result {0} Unit
verify_live_state read app_sp targets [] = ok tt
verify_live_state read app_sp targets (a ∷ artifacts) =
    and_next (verify_one read app_sp a (lookup a.slug targets))
      (verify_live_state read app_sp targets artifacts)

module _ (read : String → String → Result (List AclEntry)) (app_sp : String)
    (targets : Dict String) where
  -- What was read of an artifact's resource grants enough.
  abbrev pub Verified : Artifact → Type 0
  Verified a =
      (resource_id : String) × (acl : List AclEntry) × (lookup a.slug targets ≡ some resource_id)
      × (read a.kind.permissions_object_type resource_id ≡ ok acl)
      × (level_among technical_sufficient (read_level (levels_by_name acl []) app_sp) ≡ true)
      × (all (λ p. level_among (sufficient_for a.kind) (read_level (levels_by_name acl []) p.name))
            a.audience
          ≡ true)

  and_next-ok :
      (first next : Result {0} Unit)
      → and_next first next ≡ ok tt
      → (first ≡ ok tt) × (next ≡ ok tt)
  and_next-ok (raise e) next h = absurd (cc)
  and_next-ok (ok u) next h = (refl, h)

  refuse_any-ok :
      (levels : Dict (Option String)) (sufficient : List String) (desired : List AudiencePrincipal)
      → refuse_any (unverified levels sufficient desired) ≡ ok tt
      → all (λ p. level_among sufficient (read_level levels p.name)) desired ≡ true
  refuse_any-ok levels sufficient [] h = refl
  refuse_any-ok levels sufficient (p ∷ desired) h =
      passed (level_among sufficient (read_level levels p.name))
        (refuse_any-ok levels sufficient desired) h
    where
      passed :
          (b : Bool)
          → (refuse_any (unverified levels sufficient desired) ≡ ok tt
              → all (λ q. level_among sufficient (read_level levels q.name)) desired ≡ true)
          → refuse_any (
              if not b
              then p ∷ unverified levels sufficient desired
              else unverified levels sufficient desired)
            ≡ ok tt
          → (b && all (λ q. level_among sufficient (read_level levels q.name)) desired) ≡ true
      passed true ih k = ih k
      passed false ih k = absurd (cc)

  verify_acl-ok :
      (b : Bool) (rest : Result {0} Unit)
      → (if not b then raise runtime_error else rest) ≡ ok tt
      → (b ≡ true) × (rest ≡ ok tt)
  verify_acl-ok true rest h = (refl, h)
  verify_acl-ok false rest h = absurd (cc)

  verify_read-ok :
      (a : Artifact) (answer : Result (List AclEntry))
      → verify_read app_sp a answer ≡ ok tt
      → (acl : List AclEntry) × (answer ≡ ok acl) × (verify_acl app_sp a acl ≡ ok tt)
  verify_read-ok a (raise e) h = absurd (cc)
  verify_read-ok a (ok acl) h = (acl, refl, h)

  verify_one-ok :
      (a : Artifact) (target : Option String)
      → verify_one read app_sp a target ≡ ok tt
      → (resource_id : String) × (target ≡ some resource_id)
        × (verify_read app_sp a (read a.kind.permissions_object_type resource_id) ≡ ok tt)
  verify_one-ok a none h = absurd (cc)
  verify_one-ok a (some resource_id) h = (resource_id, refl, h)

  -- Where `verify_live_state` returns, the list of each artifact's resource was read, and in it the
  -- application's principal manages the resource and each declared principal has, under its name, a
  -- direct level that is enough for the artifact's own kind.
  pub verify_live_state-Verified :
      (artifacts : List Artifact)
      → verify_live_state read app_sp targets artifacts ≡ ok tt
      → All Verified artifacts
  unfolding verify_live_state
  verify_live_state-Verified [] h = tt
  verify_live_state-Verified (a ∷ artifacts) h =
      let (first, rest) =
        and_next-ok (verify_one read app_sp a (lookup a.slug targets))
          (verify_live_state read app_sp targets artifacts) h in
      let (resource_id, found, reading) = verify_one-ok a (lookup a.slug targets) first in
      let (acl, answered, tested) =
        verify_read-ok a (read a.kind.permissions_object_type resource_id) reading in
      let levels = levels_by_name acl [] in
      let (managed, granted) =
        verify_acl-ok (level_among technical_sufficient (read_level levels app_sp))
          (refuse_any (unverified levels (sufficient_for a.kind) a.audience)) tested in
      (
        (
          resource_id,
          acl,
          found,
          answered,
          managed,
          refuse_any-ok levels (sufficient_for a.kind) a.audience granted,
        ),
        verify_live_state-Verified artifacts rest,
      )
