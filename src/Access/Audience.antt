-- ===== src/Access/Audience.antt =====
-- scripts/reconcile_audience.py: the written access control list, entry by entry.
use genie_promote_cicd.Prelude.{
  String, ◌≡◌, refl, ap, ◌∙◌, subst, Bool, true, false, not, ◌&&◌, ◌||◌, Option, some, List, [],
  ◌∷◌, arith, Bool-cases, inl, inr, ◌==◌, eq_iff, eq_refl, any, any-append, if◌then◌else◌, truthy,
  or_else, Dict, lookup, insert, lookup-insert, lower, ◌⊎◌,
}
use genie_promote_cicd.Access.Entries.{AclEntry}
use genie_promote_cicd.Access.Acl.{
  AudiencePrincipal, Request, at_least, name_of, direct_level, by_name, converge, requests_of,
  is_present, kept_requests, new_requests, keys_of, desired_acl,
}

at_least_refl : (level : String) → at_least (some level) level ≡ true
unfolding at_least
at_least_refl level = ground arith

abbrev pub same_kind : Bool → Bool → Bool
same_kind a b = if a then b else not b

pub same_kind_refl : (b : Bool) → same_kind b b ≡ true
same_kind_refl true = refl
same_kind_refl false = refl

-- A request that gives the group, or the user, with this key at least the level.
abbrev pub grants : String → Bool → String → Request → Bool
grants level is_group key r =
    lower r.name == key && same_kind r.is_group is_group && at_least (some r.level) level

-- Each principal is kept under its own key.
abbrev Keyed : Dict AudiencePrincipal → Type 0
Keyed d = (key : String) (p : AudiencePrincipal) → lookup key d ≡ some p → lower p.name ≡ key

empty-Keyed : Keyed []
empty-Keyed key p found = absurd (cc)

by_name-Keyed :
    (principals : List AudiencePrincipal) (d : Dict AudiencePrincipal)
    → Keyed d
    → Keyed (by_name principals d)
unfolding by_name
by_name-Keyed [] d h = h
by_name-Keyed (q ∷ principals) d h =
    by_name-Keyed principals (insert (lower q.name) q d) (λ key p found.
      ground (arith, lookup-insert (lower q.name) key q d, eq_iff (lower q.name) key, h key p))

module _ (desired : Dict AudiencePrincipal) (previous : List String) (level : String) where
  converge-grants :
      (entry : AclEntry) (name current : String) (p : AudiencePrincipal)
      → lookup (lower name) desired ≡ some p
      → any
          (grants level p.is_group (lower name))
          (converge desired previous level entry name current)
        ≡ true
  converge-grants entry name current p found =
      rw (converge, found)
        (wanted-grants name current p.is_group (Bool-cases (at_least (some current) level)))
    where
      kept_level : String → String
      kept_level c = if at_least (some c) level then c else level

      wanted-grants :
          (n c : String) (g : Bool)
          → (at_least (some c) level ≡ true) ⊎ (at_least (some c) level ≡ false)
          → any
              (grants level g (lower n))
              (record { name = n; is_group = g; level = kept_level c } ∷ [])
            ≡ true
      wanted-grants n c g (inl enough) =
          rw (kept_level, enough) (ground (arith, enough, eq_refl (lower n), same_kind_refl g))
      wanted-grants n c g (inr less) =
          rw (kept_level, less)
            (ground (arith, at_least_refl level, eq_refl (lower n), same_kind_refl g))

  present-grants :
      (key : String) (p : AudiencePrincipal) (entry : AclEntry)
      → lookup key desired ≡ some p
      → is_present desired previous level key entry ≡ true
      → any (grants level p.is_group key) (requests_of desired previous level entry) ≡ true
  present-grants key p entry found present =
      let name = or_else (name_of entry) "" in
      let current = or_else (direct_level entry.all_permissions) "" in
      let (named, levelled, same) =
        three (truthy (name_of entry)) (truthy (direct_level entry.all_permissions))
          (lower name == key) present in
      let e : lower name ≡ key = (eq_iff (lower name) key).0 same in
      rw (requests_of, named, levelled)
        (subst
          (λ k.
            any (grants level p.is_group k) (converge desired previous level entry name current)
            ≡ true)
          e (converge-grants entry name current p (ap (λ k. lookup k desired) e ∙ found)))
    where
      three : (a b c : Bool) → (a && b && c) ≡ true → (a ≡ true) × (b ≡ true) × (c ≡ true)
      three a b c h = (ground arith, ground arith, ground arith)

  kept-grants :
      (key : String) (p : AudiencePrincipal) (current : List AclEntry)
      → lookup key desired ≡ some p
      → any (is_present desired previous level key) current ≡ true
      → any (grants level p.is_group key) (kept_requests desired previous level current) ≡ true
  unfolding kept_requests
  kept-grants key p [] found h = absurd (cc)
  kept-grants key p (entry ∷ more) found h =
      any-append (grants level p.is_group key) (requests_of desired previous level entry)
        (kept_requests desired previous level more)
      ∙ either (is_present desired previous level key entry)
          (any (is_present desired previous level key) more) _ _ h
          (present-grants key p entry found) (kept-grants key p more found)
    where
      either :
          (a b c d : Bool)
          → (a || b) ≡ true
          → (a ≡ true → c ≡ true)
          → (b ≡ true → d ≡ true)
          → (c || d) ≡ true
      either a b c d h f g = ground arith

  new-grants :
      (key : String) (p : AudiencePrincipal) (current : List AclEntry) (d : Dict AudiencePrincipal)
      → lower p.name ≡ key
      → lookup key d ≡ some p
      → any (is_present desired previous level key) current ≡ false
      → any (grants level p.is_group key) (new_requests desired previous level current d) ≡ true
  unfolding new_requests
  new-grants key p current [] keyed found absent = absurd (cc)
  new-grants key p current ((j, q) ∷ d) keyed found absent = elim (Bool-cases (j == key)) [
    | inl same ↦
        let here : q ≡ p = ground (arith, found, same) in
        let own : lower q.name == key ≡ true =
          (eq_iff (lower q.name) key).1 (ap (λ r. lower r.name) here ∙ keyed) in
        let gone : any (is_present desired previous level j) current ≡ false =
          ap (λ k. any (is_present desired previous level k) current) ((eq_iff j key).0 same)
          ∙ absent in
        let kind : same_kind q.is_group p.is_group ≡ true =
          ap (λ r. same_kind r.is_group p.is_group) here ∙ same_kind_refl p.is_group in
        rw gone (ground (arith, own, at_least_refl level, kind))
    | inr other ↦
        let rest = new-grants key p current d keyed (ground (arith, found, other)) absent in
        elim (Bool-cases (any (is_present desired previous level j) current)) [
          | inl present ↦ rw present rest
          | inr new ↦ rw new (ground (arith, rest))
        ]
  ]

-- Each desired principal is granted at least the derived level by the list that is written, in a
-- request of its name up to letter case and of its kind, a group or a user.
pub desired_acl-grants :
    (current : List AclEntry) (desired : List AudiencePrincipal)
    (previous : Option (List AudiencePrincipal)) (level key : String) (p : AudiencePrincipal)
    → lookup key (by_name desired []) ≡ some p
    → any (grants level p.is_group key) (desired_acl current desired previous level) ≡ true
unfolding desired_acl
desired_acl-grants current desired previous level key p found =
    let d = by_name desired [] in
    let old = keys_of previous in
    any-append (grants level p.is_group key) (kept_requests d old level current)
      (new_requests d old level current d)
    ∙ (elim (Bool-cases (any (is_present d old level key) current)) [
      | inl present ↦ rw (kept-grants d old level key p current found present) refl
      | inr absent ↦
          or_right (any (grants level p.is_group key) (kept_requests d old level current)) _ (
            new-grants d old level key p current d
              (by_name-Keyed desired [] empty-Keyed key p found) found absent)
    ])
  where
    or_right : (a b : Bool) → b ≡ true → (a || b) ≡ true
    or_right a b h = ground arith
