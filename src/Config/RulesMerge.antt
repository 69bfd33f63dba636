-- ===== src/Config/RulesMerge.antt =====
-- genie_reviewer/rules_config.py: which rules the merge of the handbook's and the administrators' has.
use mathlib.Core.List.{append-nil, append_assoc}
use genie_promote_cicd.Prelude.{
  ℕ, String, ◌≡◌, refl, sym, ap, ◌∙◌, subst, Bool, false, ◌&&◌, ◌||◌, Option, none, some, List, [],
  ◌∷◌, ◌++◌, Dict, arith, Bool-cases, inl, inr, ◌==◌, eq_iff, lookup, insert, lookup-insert,
  insert_fresh, values, values-append, map, any, any-append, All, All-of_mem, mem-select, length,
  Memᴰ, ok, Json,
}
use genie_promote_cicd.Config.Rules.{
  Rule, RuleOverride, RulesBackend, seeded, seed_rows, seed_defaults, upsert_row, list_all,
}
use genie_promote_cicd.Config.Effective.{
  indexed, by_id, applies, rules_for_kind, text_or, params_or, merged, with_overrides, custom_rules,
  effective_rules, kept_rule,
}

-- No id twice.
abbrev pub IsUnique {ℓ} : {A : Type ℓ} → (A → String) → List A → Type 0
IsUnique id_of [] = Unit
IsUnique id_of (x ∷ xs) = (any (λ y. id_of y == id_of x) xs ≡ false) × IsUnique id_of xs

abbrev pub has_rule : String → List Rule → Bool
has_rule rule_id rules = any (λ r. r.rule_id == rule_id) rules

lookup-indexed_other :
    (rule_id : String) (overrides : List RuleOverride) (d : Dict RuleOverride)
    → any (λ o. o.rule_id == rule_id) overrides ≡ false
    → lookup rule_id (indexed overrides d) ≡ lookup rule_id d
lookup-indexed_other rule_id [] d h = refl
lookup-indexed_other rule_id (o ∷ overrides) d h =
    lookup-indexed_other rule_id overrides (insert o.rule_id o d) (ground arith)
    ∙ rw lookup-insert (ground arith)

module _ (rule_id : String) where
  -- What the overrides decide of the handbook's rule.
  abbrev allowed : Option RuleOverride → Bool → Bool
  allowed none listed = listed
  allowed (some o) listed = o.enabled && listed

  allowed-false : (o : Option RuleOverride) → allowed o false ≡ false
  allowed-false none = refl
  allowed-false (some o) = ground arith

  allowed_or :
      (o : Option RuleOverride) (b c : Bool) → (allowed o b || allowed o c) ≡ allowed o (b || c)
  allowed_or none b c = refl
  allowed_or (some o) b c = ground arith

  has_rule-kept_rule :
      (rule : Rule) (o : Option RuleOverride) (rest : List Rule)
      → has_rule rule_id (kept_rule rule o rest)
        ≡ (allowed o (rule.rule_id == rule_id) || has_rule rule_id rest)
  has_rule-kept_rule rule none rest = refl
  has_rule-kept_rule rule (some o) rest = ground arith

  has_rule-with_overrides :
      (d : Dict RuleOverride) (rules : List Rule)
      → has_rule rule_id (with_overrides d rules)
        ≡ allowed (lookup rule_id d) (has_rule rule_id rules)
  has_rule-with_overrides d [] = sym (allowed-false (lookup rule_id d))
  has_rule-with_overrides d (rule ∷ rules) =
      has_rule-kept_rule rule (lookup rule.rule_id d) (with_overrides d rules)
      ∙ rw (has_rule-with_overrides d rules) (elim (Bool-cases (rule.rule_id == rule_id)) [
        | inl t ↦
            rw (ap (λ k. lookup k d) ((eq_iff rule.rule_id rule_id).0 t))
              (allowed_or (lookup rule_id d) (rule.rule_id == rule_id) (has_rule rule_id rules))
        | inr f ↦ rw (f, allowed-false (lookup rule.rule_id d))
      ])

  abbrev added : Option RuleOverride → Bool
  added none = false
  added (some o) = o.is_custom && o.enabled

  has_rule-custom_rules_other :
      (overrides : List RuleOverride)
      → any (λ o. o.rule_id == rule_id) overrides ≡ false
      → has_rule rule_id (custom_rules overrides) ≡ false
  has_rule-custom_rules_other [] h = refl
  has_rule-custom_rules_other (o ∷ overrides) h =
      ground (arith, has_rule-custom_rules_other overrides)

  has_rule-custom_rules :
      (overrides : List RuleOverride) (d : Dict RuleOverride)
      → IsUnique (λ o. o.rule_id) overrides
      → lookup rule_id d ≡ none
      → has_rule rule_id (custom_rules overrides) ≡ added (lookup rule_id (indexed overrides d))
  has_rule-custom_rules [] d u h = rw h
  has_rule-custom_rules (o ∷ overrides) d u h = elim (Bool-cases (o.rule_id == rule_id)) [
    | inl t ↦
        let same : o.rule_id ≡ rule_id = (eq_iff o.rule_id rule_id).0 t in
        let others : any (λ p. p.rule_id == rule_id) overrides ≡ false =
          subst (λ k. any (λ p. p.rule_id == k) overrides ≡ false) same u.0 in
        let found : lookup rule_id (indexed overrides (insert o.rule_id o d)) ≡ some o =
          lookup-indexed_other rule_id overrides (insert o.rule_id o d) others
          ∙ rw (lookup-insert, t) in
        rw found (ground (arith, has_rule-custom_rules_other overrides others))
    | inr f ↦ ground (
      arith,
      has_rule-custom_rules overrides (insert o.rule_id o d) u.1 (rw (lookup-insert, f) h),
    )
  ]

-- Whether the merged rules have an id, where each override has its own: a rule that no override names
-- as the handbook has it, and one that an override names exactly where that is enabled, and it is a
-- custom rule or the handbook has the rule for this kind.
pub effective_rules-ids :
    (rules : List Rule) (overrides : List RuleOverride) (kind : Option String) (rule_id : String)
    → IsUnique (λ o. o.rule_id) overrides
    → has_rule rule_id (effective_rules rules overrides kind)
      ≡ elim (lookup rule_id (by_id overrides)) [
        | none ↦ has_rule rule_id (rules_for_kind kind rules)
        | some o ↦ o.enabled && (o.is_custom || has_rule rule_id (rules_for_kind kind rules))
      ]
unfolding effective_rules
effective_rules-ids rules overrides kind rule_id u =
    rw
      (
        any-append,
        has_rule-with_overrides rule_id (by_id overrides),
        has_rule-custom_rules rule_id overrides [] u refl,
      )
      (split (lookup rule_id (by_id overrides)))
  where
    split :
        (o : Option RuleOverride)
        → (allowed rule_id o (has_rule rule_id (rules_for_kind kind rules)) || added rule_id o)
          ≡ elim o [
            | none ↦ has_rule rule_id (rules_for_kind kind rules)
            | some o ↦ o.enabled && (o.is_custom || has_rule rule_id (rules_for_kind kind rules))
          ]
    split none = ground arith
    split (some o) = ground arith

seed_rows-rows :
    (now : ℕ) (actor_email : String) (rules : List Rule) (b : RulesBackend)
    → (seed_rows now actor_email rules b)
      ≡ (ok (length rules), record b { rows = indexed (map (seeded now actor_email) rules) b.rows })
unfolding seed_rows upsert_row
seed_rows-rows now actor_email [] b = refl
seed_rows-rows now actor_email (r ∷ rules) b = rw (
    seed_rows-rows now actor_email rules
      (record b { rows = insert r.rule_id (seeded now actor_email r) b.rows }))

with_overrides-none : (rules : List Rule) → with_overrides [] rules ≡ rules
with_overrides-none [] = refl
with_overrides-none (r ∷ rules) = ap (λ l. r ∷ l) (with_overrides-none rules)

text_or_self : (s : String) → text_or (some s) s ≡ s
text_or_self s = ground arith

params_or_self : (ps : Option (Dict Json)) → params_or ps ps ≡ ps
params_or_self none = refl
params_or_self (some []) = refl
params_or_self (some (p ∷ ps)) = refl

module _ (now : ℕ) (actor_email : String) where
  abbrev overrides_of : List Rule → List RuleOverride
  overrides_of rules = map (seeded now actor_email) rules

  any-overrides_of :
      (p : String → Bool) (rules : List Rule)
      → any (λ o. p o.rule_id) (overrides_of rules) ≡ any (λ r. p r.rule_id) rules
  any-overrides_of p [] = refl
  any-overrides_of p (r ∷ rules) = rw (any-overrides_of p rules)

  lookup-indexed :
      (rules : List Rule) (d : Dict RuleOverride) {r : Rule}
      → IsUnique (λ s. s.rule_id) rules
      → Memᴰ r rules
      → lookup r.rule_id (indexed (overrides_of rules) d) ≡ some (seeded now actor_email r)
  lookup-indexed (s ∷ rules) d {r} u (Memᴰ.tail m) =
      lookup-indexed rules (insert s.rule_id (seeded now actor_email s) d) u.1 m
  lookup-indexed (s ∷ rules) d {r} u (Memᴰ.head e) = rw e (
      lookup-indexed_other s.rule_id (overrides_of rules)
        (insert s.rule_id (seeded now actor_email s) d)
        (any-overrides_of (λ k. k == s.rule_id) rules ∙ u.0)
      ∙ rw lookup-insert (ground (arith, eq_iff s.rule_id s.rule_id)))
  lookup-indexed [] d {r} u m = elim m [ ]

  fresh_insert :
      (rule_id : String) (o : RuleOverride) (d : Dict RuleOverride) (rules : List Rule)
      → any (λ s. s.rule_id == rule_id) rules ≡ false
      → All (λ s. lookup s.rule_id d ≡ none) rules
      → All (λ s. lookup s.rule_id (insert rule_id o d) ≡ none) rules
  fresh_insert rule_id o d [] h k = tt
  fresh_insert rule_id o d (s ∷ rules) h k = (
    rw lookup-insert (ground (arith, eq_iff s.rule_id rule_id, eq_iff rule_id s.rule_id, k.0)),
    fresh_insert rule_id o d rules (ground arith) k.1,
  )

  -- Each seeded row is a new one, at the end.
  values-indexed :
      (rules : List Rule) (d : Dict RuleOverride)
      → IsUnique (λ s. s.rule_id) rules
      → All (λ r. lookup r.rule_id d ≡ none) rules
      → values (indexed (overrides_of rules) d) ≡ values d ++ overrides_of rules
  values-indexed [] d u fresh = sym (append-nil (values d))
  values-indexed (r ∷ rules) d u fresh =
      values-indexed rules (insert r.rule_id (seeded now actor_email r) d) u.1
        (fresh_insert r.rule_id (seeded now actor_email r) d rules u.0 fresh.1)
      ∙ rw (insert_fresh r.rule_id (seeded now actor_email r) d fresh.0, values-append)
          (append_assoc (values d) (seeded now actor_email r ∷ []) (overrides_of rules))

  merged-seeded : (r : Rule) → merged r (seeded now actor_email r) ≡ r
  merged-seeded r = rw (
    text_or_self r.severity_hint,
    text_or_self r.citation,
    text_or_self r.content,
    params_or_self r.params,
  )

  with_overrides-seeded :
      (d : Dict RuleOverride) (rules : List Rule)
      → All (λ r. lookup r.rule_id d ≡ some (seeded now actor_email r)) rules
      → with_overrides d rules ≡ rules
  with_overrides-seeded d [] h = refl
  with_overrides-seeded d (r ∷ rules) h =
      rw (h.0, merged-seeded r) (ap (λ l. r ∷ l) (with_overrides-seeded d rules h.1))

  custom_rules-seeded : (rules : List Rule) → custom_rules (overrides_of rules) ≡ []
  custom_rules-seeded [] = refl
  custom_rules-seeded (r ∷ rules) = custom_rules-seeded rules

seed_defaults-rows :
    (now : ℕ) (rules : List Rule) (actor_email : String) (b : RulesBackend)
    → b.rows ≡ []
    → seed_defaults now rules actor_email b
      ≡ (ok (length rules), record b { rows = indexed (overrides_of now actor_email rules) [] })
unfolding seed_defaults
seed_defaults-rows now rules actor_email b h =
    rw h (seed_rows-rows now actor_email rules (record b { rows = [] }))

rules_for_kind-mem :
    (kind : Option String) (rules : List Rule) {r : Rule}
    → Memᴰ r (rules_for_kind kind rules)
    → Memᴰ r rules
unfolding rules_for_kind
rules_for_kind-mem none rules m = m
rules_for_kind-mem (some kind) rules m = (mem-select (λ r. applies kind r.kinds) rules m).0

-- Where each rule of the handbook has its own id, seeding a store without rows returns the number of
-- the rules, and the merge of the handbook with the seeded rows is the handbook, for each kind of
-- resource and for all, as it is with no override at all.
pub effective_rules-seeded :
    (now : ℕ) (rules : List Rule) (actor_email : String) (b : RulesBackend) (kind : Option String)
    → IsUnique (λ r. r.rule_id) rules
    → b.rows ≡ []
    → ((seed_defaults now rules actor_email b).0 ≡ ok (length rules))
      × (effective_rules rules (list_all (seed_defaults now rules actor_email b).1) kind
          ≡ rules_for_kind kind rules)
      × (effective_rules rules [] kind ≡ rules_for_kind kind rules)
unfolding seed_defaults list_all effective_rules
effective_rules-seeded now rules actor_email b kind u h =
    rw (seed_defaults-rows now rules actor_email b h) (
      refl,
      rw
          (
            values-indexed now actor_email rules [] u (All-of_mem _ rules (λ r m. refl)),
            custom_rules-seeded now actor_email rules,
            append-nil,
          )
          (with_overrides-seeded now actor_email (by_id (overrides_of now actor_email rules))
            (rules_for_kind kind rules)
            (All-of_mem _ (rules_for_kind kind rules) (λ r m.
              lookup-indexed now actor_email rules [] u (rules_for_kind-mem kind rules m)))),
      rw append-nil (with_overrides-none (rules_for_kind kind rules)),
    )
