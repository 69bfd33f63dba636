-- ===== src/Access/Readback.antt =====
-- scripts/reconcile_audience.py: the readback that ends the reconciliation of an audience.
use genie_promote_cicd.Prelude.{
  String, ◌≡◌, refl, sym, ap, ◌∙◌, Bool, true, not, Option, List, [], ◌∷◌, arith, Bool-cases, inl,
  inr, all, if◌then◌else◌, ok, and_then-ok,
}
use genie_promote_cicd.Access.Entries.{AclEntry}
use genie_promote_cicd.Access.Acl.{
  AudiencePrincipal, at_least, desired_acl, Permissions, levels_by_name, read_level,
  missing_principals, refuse_missing, reconcile_audience,
}

none_missing :
    (after : List AclEntry) (level : String) (desired : List AudiencePrincipal)
    → missing_principals after desired level ≡ []
    → all (λ p. at_least (read_level (levels_by_name after []) p.name) level) desired ≡ true
none_missing after level [] h = refl
none_missing after level (p ∷ desired) h =
    elim (Bool-cases (at_least (read_level (levels_by_name after []) p.name) level)) [
      | inl enough ↦ rw enough (none_missing after level desired (ground (arith, h, enough)))
      | inr less ↦ absurd (
          cons_not_nil (
            ap
              (λ (b : Bool).
                if not b
                then p ∷ missing_principals after desired level
                else missing_principals after desired level)
              (sym less)
            ∙ h))
    ]
  where
    cons_not_nil :
        {q : AudiencePrincipal} {qs : List AudiencePrincipal}
        → Path (List AudiencePrincipal) (q ∷ qs) []
        → ⊥
    cons_not_nil e = cc

refuse_missing-ok :
    {W : Type 0} (missing : List AudiencePrincipal) (w : W) (u : Unit)
    → (refuse_missing missing w).0 ≡ ok u
    → missing ≡ []
refuse_missing-ok [] w u h = refl
refuse_missing-ok (p ∷ missing) w u h = absurd (cc)

-- `reconcile` returns only on evidence that was read back after the write: where it returns, the access
-- control list was read once more after `permissions.set` returned, and in what was read every desired
-- principal has, under its name, a direct level of at least the derived one.
pub reconcile_audience-verified :
    {W : Type 0} (api : Permissions W) (desired : List AudiencePrincipal)
    (previous : Option (List AudiencePrincipal)) (level : String) (w : W) (names : List String)
    → (reconcile_audience api desired previous level w).0 ≡ ok names
    → (before : List AclEntry) × (after : List AclEntry) × ((api.get w).0 ≡ ok before)
      × ((api.set (desired_acl before desired previous level) (api.get w).1).0 ≡ ok tt)
      × ((api.get (api.set (desired_acl before desired previous level) (api.get w).1).1).0
          ≡ ok after)
      × (all (λ p. at_least (read_level (levels_by_name after []) p.name) level) desired ≡ true)
unfolding reconcile_audience
reconcile_audience-verified api desired previous level w names h =
    let (before, read, rest) = and_then-ok api.get _ w names h in
    let (u, wrote, rest2) =
      and_then-ok (api.set (desired_acl before desired previous level)) _ (api.get w).1 names
        rest in
    let (after, reread, rest3) =
      and_then-ok api.get _ (api.set (desired_acl before desired previous level) (api.get w).1).1
        names rest2 in
    let (v, complete, last) =
      and_then-ok (refuse_missing (missing_principals after desired level)) _ _ names rest3 in
    (
      before,
      after,
      read,
      wrote,
      reread,
      none_missing after level desired
          (refuse_missing-ok (missing_principals after desired level) _ v complete),
    )
