-- ===== src/Access/Naming.antt =====
-- app/authz.py: whom an entry of an access control list names, and what it grants.
use genie_promote_cicd.Prelude.{
  String, ◌≡◌, ◌↔◌, refl, sym, ap, ◌∙◌, subst, Bool, true, false, not, ◌&&◌, Option, none, some,
  List, [], ◌∷◌, arith, inl, inr, ◌⊎◌, ◌==◌, eq_iff, eq_refl, any, any-mem, any-exists, Memᴰ,
  if◌then◌else◌,
}
use genie_promote_cicd.Access.Entries.{Permission, AclEntry}
use genie_promote_cicd.Access.Authz.{
  VerifiedIdentity, access_levels_for, has_text, with_name, principal_names, level_among,
  grants_access, admits,
}

-- The entry is of the user, the group or the service principal of this name, which is not empty.
abbrev pub Names : AclEntry → String → Type 0
Names entry name =
    ((name == "") ≡ false)
    × ((entry.user_name ≡ some name)
        ⊎ ((entry.group_name ≡ some name) ⊎ (entry.service_principal_name ≡ some name)))

-- The entry names the user or one of the groups, and one of its permissions has one of the levels.
abbrev pub Admits : VerifiedIdentity → String → AclEntry → Type 0
Admits identity object_type entry =
    (name : String) × (perm : Permission) × (level : String) × Memᴰ name
      (identity.user_name ∷ identity.group_names)
    × Names entry name
    × Memᴰ perm entry.all_permissions
    × (perm.permission_level ≡ some level)
    × Memᴰ level (access_levels_for object_type)

has_text-mem : (xs : List String) (x : String) → has_text xs x ≡ true → Memᴰ x xs
has_text-mem xs x h =
    let (y, m, t) = any-exists (λ y. y == x) xs h in subst (λ z. Memᴰ z xs) ((eq_iff y x).0 t) m

mem-has_text : (xs : List String) (x : String) → Memᴰ x xs → has_text xs x ≡ true
mem-has_text xs x m = any-mem (λ y. y == x) m (eq_refl x)

-- The names with one more, where that is given.
with_name-mem :
    (o : Option String) (names : List String) (n : String)
    → Memᴰ n (with_name o names)
    → (((n == "") ≡ false) × (o ≡ some n)) ⊎ Memᴰ n names
with_name-mem none names n m = inr m
with_name-mem (some s) names n m = by_given (s == "") refl m
  where
    by_given :
        (b : Bool)
        → (s == "") ≡ b
        → Memᴰ n (if not b then s ∷ names else names)
        → (((n == "") ≡ false) × (some s ≡ some n)) ⊎ Memᴰ n names
    by_given true e k = inr k
    by_given false e (Memᴰ.head same) = inl (ap (λ x. x == "") same ∙ e, ap some (sym same))
    by_given false e (Memᴰ.tail k) = inr k

mem-with_name_own :
    (o : Option String) (names : List String) (n : String)
    → (n == "") ≡ false
    → o ≡ some n
    → Memᴰ n (with_name o names)
mem-with_name_own none names n f e = absurd (cc)
mem-with_name_own (some s) names n f e =
    let same : s ≡ n = cc in
    subst (λ b. Memᴰ n (if not b then s ∷ names else names)) (sym f ∙ ap (λ x. x == "") (sym same))
      (Memᴰ.head (sym same))

mem-with_name_other :
    (o : Option String) (names : List String) (n : String)
    → Memᴰ n names
    → Memᴰ n (with_name o names)
mem-with_name_other none names n m = m
mem-with_name_other (some s) names n m = by_given (s == "")
  where
    by_given : (b : Bool) → Memᴰ n (if not b then s ∷ names else names)
    by_given true = m
    by_given false = Memᴰ.tail m

principal_names-Names :
    (entry : AclEntry) (n : String) → Memᴰ n (principal_names entry) → Names entry n
principal_names-Names entry n m = elim (with_name-mem entry.user_name _ n m) [
  | inl (f, e) ↦ (f, inl e)
  | inr k ↦ elim (with_name-mem entry.group_name _ n k) [
    | inl (f, e) ↦ (f, inr (inl e))
    | inr l ↦ elim (with_name-mem entry.service_principal_name [] n l) [
      | inl (f, e) ↦ (f, inr (inr e))
      | inr never ↦ elim never [ ]
    ]
  ]
]

Names-principal_names :
    (entry : AclEntry) (n : String) → Names entry n → Memᴰ n (principal_names entry)
Names-principal_names entry n (f, inl e) = mem-with_name_own entry.user_name _ n f e
Names-principal_names entry n (f, inr (inl e)) =
    mem-with_name_other entry.user_name _ n (mem-with_name_own entry.group_name _ n f e)
Names-principal_names entry n (f, inr (inr e)) = mem-with_name_other entry.user_name _ n (
    mem-with_name_other entry.group_name _ n
      (mem-with_name_own entry.service_principal_name [] n f e))

level_among-mem :
    (levels : List String) (o : Option String)
    → level_among levels o ≡ true
    → (level : String) × (o ≡ some level) × Memᴰ level levels
level_among-mem levels none h = absurd (cc)
level_among-mem levels (some level) h = (level, refl, has_text-mem levels level h)

both_true : (a b : Bool) → (a && b) ≡ true → (a ≡ true) × (b ≡ true)
both_true a b h = (ground arith, ground arith)

pub admits_iff :
    (identity : VerifiedIdentity) (object_type : String) (entry : AclEntry)
    → (admits identity object_type entry ≡ true) ↔ Admits identity object_type entry
admits_iff identity object_type entry = (
  λ h.
      let own = identity.user_name ∷ identity.group_names in
      let levels = access_levels_for object_type in
      let (named, granted) =
        both_true (any (has_text own) (principal_names entry)) (grants_access object_type entry)
          h in
      let (name, m, t) = any-exists (has_text own) (principal_names entry) named in
      let (perm, k, u) =
        any-exists (λ perm. level_among levels perm.permission_level) entry.all_permissions
          granted in
      let (level, e, l) = level_among-mem levels perm.permission_level u in
      (name, perm, level, has_text-mem own name t, principal_names-Names entry name m, k, e, l),
  λ (name, perm, level, own, named, k, e, l).
      let names = identity.user_name ∷ identity.group_names in
      let levels = access_levels_for object_type in
      let first : any (has_text names) (principal_names entry) ≡ true =
        any-mem (has_text names) (Names-principal_names entry name named)
          (mem-has_text names name own) in
      let second : grants_access object_type entry ≡ true =
        any-mem (λ p. level_among levels p.permission_level) k
          (ap (level_among levels) e ∙ mem-has_text levels level l) in
      both first second,
)
  where
    both : {a b : Bool} → a ≡ true → b ≡ true → (a && b) ≡ true
    both h k = ground arith
