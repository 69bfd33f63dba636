-- ===== src/Config/Roles.antt =====
-- app/roles_store.py: the role assignments, with `InMemoryBackend` and `RolesStore`. A row's key is
-- the pair of its email and role, so the dictionary is the list of its rows. The uuid and the reading
-- of the clock that `assign` draws are its arguments `fresh` and `now`.
use genie_promote_cicd.Prelude.{
  ℕ, String, Bool, true, false, not, ◌&&◌, ◌||◌, Option, none, some, List, [], ◌∷◌, Exec, pure,
  throw, modify, ◌>>◌, value_error, last_admin_error, ◌==◌, if◌then◌else◌, truthy, any, select,
  find_first, map, strip, normalized,
}

abbrev pub roles : List String
roles = "admin" ∷ []

abbrev pub is_role : String → Bool
is_role role = any (λ t. t == role) roles

abbrev pub admin_roles : List String
admin_roles = "admin" ∷ []

abbrev pub is_admin_role : String → Bool
is_admin_role role = any (λ t. t == role) admin_roles

pub record RoleAssignment : Type 0 where
  pub id : String
  pub email : String
  pub role : String
  pub github_username : Option String
  pub created_at : ℕ
  pub updated_at : ℕ

pub record RolesBackend : Type 0 where
  pub rows : List RoleAssignment
  pub migrated : Bool

abbrev pub empty : RolesBackend
empty = record { rows = []; migrated = false }

-- `(row["email"], row["role"]) == (email, role)`
abbrev pub has_key : String → String → RoleAssignment → Bool
has_key email role r = r.email == email && r.role == role

abbrev pub put : RoleAssignment → List RoleAssignment → List RoleAssignment
put row [] = row ∷ []
put row (r ∷ rows) =
    let rest = r ∷ put row rows in if has_key row.email row.role r then row ∷ rows else rest

unfoldable pub migrate : Exec RolesBackend Unit
migrate = modify λ b. record b { rows = select (λ r. is_role r.role) b.rows; migrated = true }

unfoldable pub upsert : RoleAssignment → Exec RolesBackend Unit
upsert row = modify λ b. record b { rows = put row b.rows }

unfoldable pub delete : String → String → Exec RolesBackend Unit
delete email role = modify λ b. record b { rows = select (λ r. not (has_key email role r)) b.rows }

abbrev pub find : String → String → RolesBackend → Option RoleAssignment
find email role b = find_first (has_key email role) b.rows

abbrev id_of : Option RoleAssignment → String → String
id_of none fresh = fresh
id_of (some r) fresh = r.id

abbrev created_at_of : Option RoleAssignment → ℕ → ℕ
created_at_of none now = now
created_at_of (some r) now = r.created_at

-- `username.strip() if username else None`
abbrev stripped : Option String → Option String
stripped none = none
stripped (some s) = if s == "" then none else some (strip s)

abbrev pub assigned :
    String → ℕ → (email role : String) → Option String → Option RoleAssignment → RoleAssignment
assigned fresh now email role github_username existing = record {
  id = id_of existing fresh;
  email = email;
  role = role;
  github_username = stripped github_username;
  created_at = created_at_of existing now;
  updated_at = now;
}

unfoldable pub assign :
    String → ℕ → (email role : String) → Option String → Exec RolesBackend RoleAssignment
assign fresh now email role github_username b =
    if not (is_role role)
    then throw value_error b
    else if email == "" || strip email == ""
    then throw value_error b
    else let name = normalized email in
      let row = assigned fresh now name role github_username (find name role b) in
      (upsert row >> pure row) b

-- The rows that the lockout guard counts as removed.
abbrev pub is_removed : String → String → RoleAssignment → Bool
is_removed name role r = normalized r.email == name && r.role == role

abbrev pub has_admin : List RoleAssignment → Bool
has_admin rows = any (λ r. is_admin_role r.role) rows

-- `bool(rows)`
abbrev pub is_given : List RoleAssignment → Bool
is_given [] = false
is_given (r ∷ rows) = true

abbrev pub locks_out : String → String → List RoleAssignment → Bool
locks_out name role rows =
    let remaining = select (λ r. not (is_removed name role r)) rows in
    is_admin_role role
    && any (is_removed name role) rows
    && is_given remaining
    && not (has_admin remaining)

unfoldable pub revoke : (email role : String) → Exec RolesBackend Unit
revoke email role b =
    let name = normalized email in
    if locks_out name role b.rows then throw last_admin_error b else delete name role b

-- The fallback where there is no row at all.
unfoldable pub effective_emails : String → List String → RolesBackend → List String
effective_emails role env_fallback b =
    if is_given b.rows
    then map (λ r. r.email) (select (λ r. r.role == role) b.rows)
    else env_fallback

abbrev username_of : Option RoleAssignment → Option String
username_of none = none
username_of (some r) = r.github_username

unfoldable pub github_username_for : String → RolesBackend → Option String
github_username_for email b =
    let name = normalized email in
    username_of (find_first (λ r. r.email == name && truthy r.github_username) b.rows)

unfoldable pub list_all : RolesBackend → List RoleAssignment
list_all b = b.rows
