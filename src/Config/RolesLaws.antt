-- ===== src/Config/RolesLaws.antt =====
-- app/roles_store.py: who is an administrator after a change.
use genie_promote_cicd.Prelude.{
  ℕ, String, ◌≡◌, refl, sym, ap, subst, Bool, true, false, not, ◌&&◌, ◌||◌, Option, List, [], ◌∷◌,
  arith, Bool-cases, inl, inr, ◌⊎◌, ◌==◌, eq_iff, any, select, ok, raise, last_admin_error, strip,
  normalized, normalized_idem,
}
use genie_promote_cicd.Config.Roles.{
  RoleAssignment, RolesBackend, has_key, is_removed, is_role, is_admin_role, has_admin, is_given,
  locks_out, put, assigned, find, upsert, delete, assign, revoke,
}

-- What `delete` removes the guard counted as removed.
has_key-is_removed :
    (email role : String) (r : RoleAssignment)
    → has_key (normalized email) role r ≡ true
    → is_removed (normalized email) role r ≡ true
has_key-is_removed email role r h =
    let same : r.email ≡ normalized email = ground (arith, eq_iff r.email (normalized email)) in
    rw (same, normalized_idem email) (ground (arith, eq_iff (normalized email) (normalized email)))

-- An administrator that the guard counts as remaining does remain.
has_admin-delete :
    (email role : String) (rows : List RoleAssignment)
    → has_admin (select (λ r. not (is_removed (normalized email) role r)) rows) ≡ true
    → has_admin (select (λ r. not (has_key (normalized email) role r)) rows) ≡ true
has_admin-delete email role [] h = h
has_admin-delete email role (r ∷ rows) h =
    ground (arith, has_admin-delete email role rows, has_key-is_removed email role r)

-- Nothing of the role is removed.
select_all :
    (p : RoleAssignment → Bool) (rows : List RoleAssignment)
    → any p rows ≡ false
    → select (λ r. not (p r)) rows ≡ rows
select_all p [] h = refl
select_all p (r ∷ rows) h = ground (arith, select_all p rows)

-- Without an administrator's role, no administrator is removed.
has_admin-other :
    (name role : String) (rows : List RoleAssignment)
    → is_admin_role role ≡ false
    → has_admin rows ≡ true
    → has_admin (select (λ r. not (is_removed name role r)) rows) ≡ true
has_admin-other name role [] f h = h
has_admin-other name role (r ∷ rows) f h =
    ground (arith, has_admin-other name role rows, eq_iff r.role role, f)

abbrev pub remaining : String → String → List RoleAssignment → List RoleAssignment
remaining name role rows = select (λ r. not (is_removed name role r)) rows

abbrev pub deleted : String → String → List RoleAssignment → List RoleAssignment
deleted name role rows = select (λ r. not (has_key name role r)) rows

-- Where the guard counts the whole store as removed, whoever is left is an administrator.
deleted-only :
    (name role : String) (rows : List RoleAssignment)
    → is_admin_role role ≡ true
    → is_given (remaining name role rows) ≡ false
    → (is_given (deleted name role rows) && not (has_admin (deleted name role rows))) ≡ false
deleted-only name role [] t h = refl
deleted-only name role (r ∷ rows) t h =
    ground (arith, deleted-only name role rows, eq_iff r.role role, t)

-- Where the guard counts nothing as removed, nothing is.
deleted-all :
    (email role : String) (rows : List RoleAssignment)
    → any (is_removed (normalized email) role) rows ≡ false
    → deleted (normalized email) role rows ≡ rows
deleted-all email role [] h = refl
deleted-all email role (r ∷ rows) h =
    ground (arith, deleted-all email role rows, has_key-is_removed email role r)

deleted-admin :
    (email role : String) (rows : List RoleAssignment)
    → has_admin rows ≡ true
    → locks_out (normalized email) role rows ≡ false
    → (is_given (deleted (normalized email) role rows)
        && not (has_admin (deleted (normalized email) role rows)))
      ≡ false
deleted-admin email role rows h allowed = elim (Bool-cases (is_admin_role role)) [
  | inr other ↦ ground (
    arith,
    has_admin-delete email role rows,
    has_admin-other (normalized email) role rows other h,
  )
  | inl t ↦ elim (Bool-cases (any (is_removed (normalized email) role) rows)) [
    | inr nobody ↦ rw (deleted-all email role rows nobody) (ground arith)
    | inl u ↦ elim (Bool-cases (is_given (remaining (normalized email) role rows))) [
      | inr gone ↦ deleted-only (normalized email) role rows t gone
      | inl left ↦ ground (arith, has_admin-delete email role rows)
    ]
  ]
]

-- Where some row is an administrator's, revoking either raises LastAdminError, leaves the store as it
-- was, and the rows that are not revoked are some and none an administrator's; or it returns, with
-- the row of the normalized email and role gone, and a store that still has rows has an administrator.
pub revoke-lockout :
    (email role : String) (b : RolesBackend)
    → has_admin b.rows ≡ true
    → ((revoke email role b ≡ (raise last_admin_error, b))
        × (is_given (remaining (normalized email) role b.rows) ≡ true)
        × (has_admin (remaining (normalized email) role b.rows) ≡ false))
      ⊎ ((revoke email role b ≡ (ok tt, record b { rows = deleted (normalized email) role b.rows }))
          × ((is_given (deleted (normalized email) role b.rows)
                && not (has_admin (deleted (normalized email) role b.rows)))
              ≡ false))
unfolding revoke delete
revoke-lockout email role b h = elim (Bool-cases (locks_out (normalized email) role b.rows)) [
  | inl t ↦ inl (rw t, ground arith, ground arith)
  | inr f ↦ inr (rw f, deleted-admin email role b.rows h f)
]

-- A store without rows, or with an administrator: `effective_emails` is then not empty for the role
-- unless the fallback decides.
abbrev pub Open : RolesBackend → Type 0
Open b = (is_given b.rows && not (has_admin b.rows)) ≡ false

revoke-empty :
    (email role : String) (b : RolesBackend)
    → is_given b.rows ≡ false
    → is_given (revoke email role b).1.rows ≡ false
unfolding revoke delete
revoke-empty email role b h = nobody b.rows h
  where
    nobody :
        (rows : List RoleAssignment)
        → is_given rows ≡ false
        → is_given (revoke email role (record b { rows = rows })).1.rows ≡ false
    nobody [] k = ground arith
    nobody (r ∷ rows) k = absurd (cc)

pub revoke-Open : (email role : String) (b : RolesBackend) → Open b → Open (revoke email role b).1
revoke-Open email role b h = elim (Bool-cases (has_admin b.rows)) [
  | inl t ↦ elim (revoke-lockout email role b t) [
    | inl raised ↦ subst Open (sym (ap (λ r. r.1) raised.0)) h
    | inr done ↦ subst Open (sym (ap (λ r. r.1) done.0)) done.1
  ]
  | inr f ↦ ground (arith, revoke-empty email role b, h, f)
]

put-has_admin :
    (row : RoleAssignment) (rows : List RoleAssignment)
    → is_admin_role row.role ≡ true
    → has_admin (put row rows) ≡ true
put-has_admin row [] h = ground arith
put-has_admin row (r ∷ rows) h = ground (arith, put-has_admin row rows)

pub assign-Open :
    (fresh : String) (now : ℕ) (email role : String) (username : Option String) (b : RolesBackend)
    → Open b
    → Open (assign fresh now email role username b).1
unfolding assign upsert
assign-Open fresh now email role username b h = elim (Bool-cases (is_role role)) [
  | inr f ↦ rw f h
  | inl t ↦ elim (Bool-cases (email == "" || strip email == "")) [
    | inl u ↦ rw (t, u) h
    | inr g ↦
        rw (t, g)
          (ground (
            arith,
            put-has_admin
                (assigned fresh now (normalized email) role username
                  (find (normalized email) role b))
                b.rows t,
          ))
  ]
]
