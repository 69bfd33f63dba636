-- ===== src/Access/Kept.antt =====
-- scripts/reconcile_audience.py: what the written access control list keeps.
use genie_promote_cicd.Prelude.{
  String, ◌≡◌, ap, ◌∙◌, subst, Bool, true, false, not, ◌&&◌, ◌||◌, Option, none, some, List, [],
  ◌∷◌, arith, Option-cases, inl, inr, ◌==◌, eq_refl, any, any-append, if◌then◌else◌, truthy, Dict,
  lookup, is_some, lower, Memᴰ,
}
use genie_promote_cicd.Access.Entries.{AclEntry}
use genie_promote_cicd.Access.Authz.{has_text}
use genie_promote_cicd.Access.Acl.{
  AudiencePrincipal, Request, at_least, name_of, direct_level, by_name, converge, requests_of,
  kept_requests, new_requests, keys_of, desired_acl,
}
use genie_promote_cicd.Access.Audience.{same_kind, same_kind_refl}

-- What is written for one entry is part of the list.
requests-written :
    (desired : Dict AudiencePrincipal) (previous : List String) (level : String)
    (test : Request → Bool) (entry : AclEntry) (current : List AclEntry)
    → Memᴰ entry current
    → any test (requests_of desired previous level entry) ≡ true
    → any test (kept_requests desired previous level current) ≡ true
unfolding kept_requests
requests-written desired previous level test entry [] m h = elim m [ ]
requests-written desired previous level test entry (e ∷ more) (Memᴰ.head same) h =
    let here : any test (requests_of desired previous level e) ≡ true =
      subst (λ x. any test (requests_of desired previous level x) ≡ true) same h in
    ground (
      arith,
      any-append test (requests_of desired previous level e)
          (kept_requests desired previous level more),
    )
requests-written desired previous level test entry (e ∷ more) (Memᴰ.tail m) h =
    let there = requests-written desired previous level test entry more m h in
    ground (
      arith,
      any-append test (requests_of desired previous level e)
          (kept_requests desired previous level more),
    )

-- A request of the group, or the user, of this name with the level.
abbrev pub keeps : String → String → Bool → Request → Bool
keeps name level is_group r = r.name == name && r.level == level && same_kind r.is_group is_group

-- The kind that an entry is written as: the desired principal's own, or else a group where it has a
-- group's name, and a user where it has none.
abbrev pub written_kind : Option AudiencePrincipal → AclEntry → Bool
written_kind none entry = truthy entry.group_name
written_kind (some wanted) entry = wanted.is_group

converge-keeps :
    (desired : Dict AudiencePrincipal) (previous : List String) (level name held : String)
    (entry : AclEntry)
    → (if is_some (lookup (lower name) desired)
        then at_least (some held) level
        else not (has_text previous (lower name)) || not (held == level))
      ≡ true
    → any
        (keeps name held (written_kind (lookup (lower name) desired) entry))
        (converge desired previous level entry name held)
      ≡ true
converge-keeps desired previous level name held entry own =
    elim (Option-cases (lookup (lower name) desired)) [
      | inl absent ↦
          let kept : (has_text previous (lower name) && held == level) ≡ false =
            not_own (has_text previous (lower name)) (held == level) (
              subst
                (λ (o : Option AudiencePrincipal).
                  (if is_some o
                    then at_least (some held) level
                    else not (has_text previous (lower name)) || not (held == level))
                  ≡ true)
                absent own) in
          rw (converge, absent, kept)
            (ground (arith, eq_refl name, eq_refl held, same_kind_refl (truthy entry.group_name)))
      | inr (wanted, found) ↦
          let enough : at_least (some held) level ≡ true =
            subst
              (λ (o : Option AudiencePrincipal).
                (if is_some o
                  then at_least (some held) level
                  else not (has_text previous (lower name)) || not (held == level))
                ≡ true)
              found own in
          rw (converge, found, enough)
            (ground (arith, eq_refl name, eq_refl held, same_kind_refl wanted.is_group))
    ]
  where
    not_own : (a b : Bool) → (not a || not b) ≡ true → (a && b) ≡ false
    not_own a b h = ground arith

-- The name of an entry with a name and a direct level keeps that level in the written list, where its
-- principal is desired and the level is at least the derived one, or where it is not desired and was
-- not desired before or its level is not the derived one. It is written as the kind of the desired
-- principal, or else as a group where the entry has a group's name, and as a user otherwise, a
-- service principal's entry included.
pub desired_acl-keeps :
    (current : List AclEntry) (desired : List AudiencePrincipal)
    (previous : Option (List AudiencePrincipal)) (level name held : String) (entry : AclEntry)
    → Memᴰ entry current
    → name_of entry ≡ some name
    → direct_level entry.all_permissions ≡ some held
    → (name == "" || held == "") ≡ false
    → (if is_some (lookup (lower name) (by_name desired []))
        then at_least (some held) level
        else not (has_text (keys_of previous) (lower name)) || not (held == level))
      ≡ true
    → any
        (keeps name held (written_kind (lookup (lower name) (by_name desired [])) entry))
        (desired_acl current desired previous level)
      ≡ true
unfolding desired_acl
desired_acl-keeps current desired previous level name held entry m named levelled given own =
    let d = by_name desired [] in
    let old = keys_of previous in
    let kept = keeps name held (written_kind (lookup (lower name) d) entry) in
    let (some_name, some_level) = neither (name == "") (held == "") given in
    let written : any kept (requests_of d old level entry) ≡ true =
      rw (requests_of, named, levelled, some_name, some_level)
        (converge-keeps d old level name held entry own) in
    any-append kept (kept_requests d old level current) (new_requests d old level current d)
    ∙ ap (λ b. b || any kept (new_requests d old level current d))
        (requests-written d old level kept entry current m written)
  where
    neither : (a b : Bool) → (a || b) ≡ false → (a ≡ false) × (b ≡ false)
    neither a b h = (ground arith, ground arith)
