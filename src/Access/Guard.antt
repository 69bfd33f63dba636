-- ===== src/Access/Guard.antt =====
-- app/authz.py: the decisions of the access guard.
use genie_promote_cicd.Prelude.{
  String, ◌≡◌, ◌↔◌, refl, sym, ap, subst, Bool, true, false, ◌&&◌, Option, none, some, List, [],
  ◌∷◌, arith, Bool-cases, inl, inr, ◌==◌, any, any-mem, any-exists, if◌then◌else◌, or_else, Result,
  ok, raise, access_denied, Memᴰ,
}
use genie_promote_cicd.Access.Entries.{Permission, AclEntry}
use genie_promote_cicd.Access.Naming.{Admits, admits_iff}
use genie_promote_cicd.Access.Authz.{
  VerifiedIdentity, genie_access_levels, dashboard_access_levels, access_levels_for, has_text,
  principal_names, level_among, grants_access, admits, assert_can_access,
}

-- Where the guard returns, an entry of the list passes its test.
assert_can_access-admits :
    (identity : VerifiedIdentity) (object_type : String) (answer : Result (Option (List AclEntry)))
    → (assert_can_access identity object_type answer ≡ ok tt) ↔ (
        (perms : Option (List AclEntry)) × (entry : AclEntry) × (answer ≡ ok perms)
        × Memᴰ entry (or_else perms [])
        × (admits identity object_type entry ≡ true))
unfolding assert_can_access
assert_can_access-admits identity object_type (raise e) =
    (λ h. absurd (cc), λ h. let never : raise e ≡ ok h.0 = h.2 in absurd (cc))
assert_can_access-admits identity object_type (ok perms) =
    elim (Bool-cases (any (admits identity object_type) (or_else perms []))) [
      | inl found ↦
          let (entry, there, yes_admits) =
            any-exists (admits identity object_type) (or_else perms []) found in
          (λ h. (perms, entry, refl, there, yes_admits), λ h. rw found refl)
      | inr absent ↦ (
        λ h. absurd (refused absent h),
        λ (q, entry, same, there, admitted). absurd (
            nobody absent (
              subst
                (λ (r : Result (Option (List AclEntry))).
                  any (admits identity object_type) (listed r) ≡ true)
                (sym same) (any-mem (admits identity object_type) there admitted))),
      )
    ]
  where
    listed : Result (Option (List AclEntry)) → List AclEntry
    listed (ok q) = or_else q []
    listed (raise e) = []

    refused :
        {b : Bool}
        → b ≡ false
        → Path (Result {0} Unit) (if b then ok tt else raise access_denied) (ok tt)
        → ⊥
    refused h k = cc

    nobody : {b : Bool} → b ≡ false → b ≡ true → ⊥
    nobody h k = cc

-- The guard returns exactly where the access control list was read and one of its entries is of the
-- caller, by the user's name or a group's, which is not empty, and has a permission whose level is
-- one of those that are enough for the object type.
pub assert_can_access_iff :
    (identity : VerifiedIdentity) (object_type : String) (answer : Result (Option (List AclEntry)))
    → (assert_can_access identity object_type answer ≡ ok tt) ↔ (
        (perms : Option (List AclEntry)) × (entry : AclEntry) × (answer ≡ ok perms)
        × Memᴰ entry (or_else perms [])
        × Admits identity object_type entry)
assert_can_access_iff identity object_type answer = (
  λ h.
      let (perms, entry, same, there, admitted) =
        (assert_can_access-admits identity object_type answer).0 h in
      (perms, entry, same, there, (admits_iff identity object_type entry).0 admitted),
  λ (perms, entry, same, there, admitted).
      (assert_can_access-admits identity object_type answer).1
        (perms, entry, same, there, (admits_iff identity object_type entry).1 admitted),
)

dashboard-includes_genie :
    (level : Option String)
    → level_among genie_access_levels level ≡ true
    → level_among dashboard_access_levels level ≡ true
dashboard-includes_genie none h = absurd (cc)
dashboard-includes_genie (some level) h = ground arith

grants-weaker :
    (p q : Permission → Bool) (perms : List Permission)
    → ((perm : Permission) → p perm ≡ true → q perm ≡ true)
    → any p perms ≡ true
    → any q perms ≡ true
grants-weaker p q [] weaker h = absurd (cc)
grants-weaker p q (perm ∷ perms) weaker h =
    ground (arith, weaker perm, grants-weaker p q perms weaker)

levels-wider :
    (object_type : String) (level : Option String)
    → level_among (access_levels_for object_type) level ≡ true
    → level_among (access_levels_for "dashboards") level ≡ true
unfolding access_levels_for
levels-wider object_type level h = elim (Bool-cases (object_type == "genie")) [
  | inl genie ↦ dashboard-includes_genie level (
      subst
        (λ (b : Bool).
          level_among
            (if b
              then genie_access_levels
              else if object_type == "dashboards"
              then dashboard_access_levels
              else genie_access_levels)
            level
          ≡ true)
        genie h)
  | inr other ↦ elim (Bool-cases (object_type == "dashboards")) [
    | inl dashboards ↦
        subst
          (λ (b : Bool).
            level_among (if b then dashboard_access_levels else genie_access_levels) level ≡ true)
          dashboards
          (subst
            (λ (b : Bool).
              level_among
                (if b
                  then genie_access_levels
                  else if object_type == "dashboards"
                  then dashboard_access_levels
                  else genie_access_levels)
                level
              ≡ true)
            other h)
    | inr unknown ↦ dashboard-includes_genie level (
        subst
          (λ (b : Bool).
            level_among (if b then dashboard_access_levels else genie_access_levels) level ≡ true)
          unknown
          (subst
            (λ (b : Bool).
              level_among
                (if b
                  then genie_access_levels
                  else if object_type == "dashboards"
                  then dashboard_access_levels
                  else genie_access_levels)
                level
              ≡ true)
            other h))
  ]
]

both_true : (a b : Bool) → (a && b) ≡ true → (a ≡ true) × (b ≡ true)
both_true a b h = (ground arith, ground arith)

admits-dashboards :
    (identity : VerifiedIdentity) (object_type : String) (entry : AclEntry)
    → admits identity object_type entry ≡ true
    → admits identity "dashboards" entry ≡ true
admits-dashboards identity object_type entry h =
    let (named, granted) =
      both_true (any (has_text (identity.user_name ∷ identity.group_names)) (principal_names entry))
        (grants_access object_type entry) h in
    rw named (
      grants-weaker (λ perm. level_among (access_levels_for object_type) perm.permission_level)
        (λ perm. level_among (access_levels_for "dashboards") perm.permission_level)
        entry.all_permissions (λ perm. levels-wider object_type perm.permission_level) granted)

other_levels :
    (object_type : String)
    → object_type == "dashboards" ≡ false
    → access_levels_for object_type ≡ access_levels_for "genie"
unfolding access_levels_for
other_levels object_type h = elim (Bool-cases (object_type == "genie")) [
  | inl genie ↦ rw genie refl
  | inr other ↦ rw (other, h) refl
]

same_levels-same_answer :
    (identity : VerifiedIdentity) (s t : String)
    → access_levels_for s ≡ access_levels_for t
    → (answer : Result (Option (List AclEntry)))
    → assert_can_access identity s answer ≡ assert_can_access identity t answer
unfolding assert_can_access
same_levels-same_answer identity s t same (raise e) = refl
same_levels-same_answer identity s t same (ok perms) =
    ap
      (λ levels.
        if any
          (λ entry.
            any (has_text (identity.user_name ∷ identity.group_names)) (principal_names entry)
            && any (λ perm. level_among levels perm.permission_level) entry.all_permissions)
          (or_else perms [])
        then ok tt
        else raise access_denied)
      same

-- No kind of resource is easier to reach than a dashboard: a caller that the guard lets through for any
-- object type, an unknown one included, it lets through on the same list for a dashboard. And every
-- object type but "dashboards" is decided as a Genie space is, so an unknown one is not widened.
pub assert_can_access-narrow :
    (identity : VerifiedIdentity) (object_type : String) (answer : Result (Option (List AclEntry)))
    → (assert_can_access identity object_type answer ≡ ok tt
        → assert_can_access identity "dashboards" answer ≡ ok tt)
      × (object_type == "dashboards" ≡ false
          → assert_can_access identity object_type answer
            ≡ assert_can_access identity "genie" answer)
assert_can_access-narrow identity object_type answer = (
  λ h.
      let (perms, entry, same, there, admitted) =
        (assert_can_access-admits identity object_type answer).0 h in
      (assert_can_access-admits identity "dashboards" answer).1
        (perms, entry, same, there, admits-dashboards identity object_type entry admitted),
  λ h. same_levels-same_answer identity object_type "genie" (other_levels object_type h) answer,
)
