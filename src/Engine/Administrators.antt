-- ===== src/Engine/Administrators.antt =====
-- engine_api/main.py, `_is_admin`: who is an administrator.
use genie_promote_cicd.Prelude.{
  String, ◌≡◌, refl, sym, subst, if◌then◌else◌, Bool, true, false, not, ◌&&◌, Option, none, some,
  List, [], ◌∷◌, arith, Bool-cases, inl, inr, ◌⊎◌, ◌==◌, eq_iff, any, any-exists, map, select,
  normalized, Memᴰ,
}
use genie_promote_cicd.Config.Roles.{RolesBackend, RoleAssignment, is_given, effective_emails}
use genie_promote_cicd.Engine.Identity.{
  Surroundings, Headers, verified_email, env_emails, admin_emails, is_admin_email,
}

-- The roles store has no row, or there is none.
unfoldable pub HasNoRow : Option RolesBackend → Type 0
HasNoRow none = Unit
HasNoRow (some b) = b.rows ≡ []

-- The name, normalized, is in `APP_ADMINS` while there is no role in the store, and in an
-- administrator's row of the store where there is one.
abbrev pub Administers : Surroundings → Option RolesBackend → String → Type 0
Administers env roles email =
    (HasNoRow roles × Memᴰ (normalized email) (env_emails env.app_admins))
    ⊎ ((b : RolesBackend) × (row : RoleAssignment) × (roles ≡ some b)
        × Memᴰ row b.rows
        × (row.role ≡ "admin")
        × (row.email ≡ normalized email))

-- The caller's verified email is not empty, and is an administrator's.
abbrev pub IsAdministrator : Surroundings → Headers → Option RolesBackend → Type 0
IsAdministrator env h roles =
    (email : String) × (verified_email env h ≡ some email)
    × ((email == "") ≡ false)
    × Administers env roles email

named-Memᴰ : (names : List String) (n : String) → any (λ e. e == n) names ≡ true → Memᴰ n names
named-Memᴰ names n h =
    let (m, there, same) = any-exists (λ e. e == n) names h in
    subst (λ x. Memᴰ x names) ((eq_iff m n).0 same) there

row_of :
    (rows : List RoleAssignment) (n : String)
    → any (λ e. e == n) (map (λ r. r.email) (select (λ r. r.role == "admin") rows)) ≡ true
    → (row : RoleAssignment) × Memᴰ row rows × (row.role ≡ "admin") × (row.email ≡ n)
row_of [] n h = absurd (cc)
row_of (r ∷ rows) n h = elim (Bool-cases (r.role == "admin" && r.email == n)) [
  | inl t ↦
      let (role, email) = both (r.role == "admin") (r.email == n) t in
      (r, Memᴰ.head refl, (eq_iff r.role "admin").0 role, (eq_iff r.email n).0 email)
  | inr f ↦
      let (row, there, role, email) = row_of rows n (ground (arith, f, h)) in
      (row, Memᴰ.tail there, role, email)
]
  where
    both : (a b : Bool) → (a && b) ≡ true → (a ≡ true) × (b ≡ true)
    both a b h = (ground arith, ground arith)

effective-Administers :
    (env : Surroundings) (roles : Option RolesBackend) (email : String)
    → any (λ e. e == normalized email) (admin_emails env roles) ≡ true
    → Administers env roles email
unfolding admin_emails effective_emails HasNoRow
effective-Administers env none email h = inl (tt, named-Memᴰ _ _ h)
effective-Administers env (some b) email h = by_rows b.rows refl h
  where
    by_rows :
        (rows : List RoleAssignment)
        → b.rows ≡ rows
        → any
            (λ e. e == normalized email)
            (if is_given rows
              then map (λ r. r.email) (select (λ r. r.role == "admin") rows)
              else env_emails env.app_admins)
          ≡ true
        → Administers env (some b) email
    by_rows [] same k = inl (same, named-Memᴰ _ _ k)
    by_rows (r ∷ rows) same k =
        let (row, there, role, name) = row_of (r ∷ rows) (normalized email) k in
        inr (b, row, refl, subst (λ l. Memᴰ row l) (sym same) there, role, name)

pub is_admin_email-IsAdministrator :
    (env : Surroundings) (h : Headers) (roles : Option RolesBackend)
    → is_admin_email env roles (verified_email env h) ≡ true
    → IsAdministrator env h roles
unfolding is_admin_email
is_admin_email-IsAdministrator env h roles t = by_name (verified_email env h) refl t
  where
    both : (a b : Bool) → (not a && b) ≡ true → (a ≡ false) × (b ≡ true)
    both a b h = (ground arith, ground arith)

    by_name :
        (o : Option String)
        → verified_email env h ≡ o
        → is_admin_email env roles o ≡ true
        → IsAdministrator env h roles
    by_name none e k = absurd (cc)
    by_name (some email) e k =
        let (given, listed) =
          both (email == "") (any (λ x. x == normalized email) (admin_emails env roles)) k in
        (email, e, given, effective-Administers env roles email listed)
