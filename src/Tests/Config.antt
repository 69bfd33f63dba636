-- ===== src/Tests/Config.antt =====
-- Two administrators and an old role, and a handbook of two rules.
use genie_promote_cicd.Prelude.{
  ◌≡◌, refl, true, false, not, ◌&&◌, ◌||◌, none, some, [], ◌∷◌, ◌⊎◌, ok, raise, last_admin_error,
  ◌++◌, String, List, lookup, normalized, lower, strip, lstrip, rstrip,
}
use genie_promote_cicd.Config.Roles.{RoleAssignment, RolesBackend, revoke, is_given, has_admin}
use genie_promote_cicd.Config.RolesLaws.{remaining, deleted, revoke-lockout}
use genie_promote_cicd.Config.Rules.{
  Rule, RuleOverride, NewRule, RulesBackend, RuleAuditEvent, empty, upsert, reset, seeded,
  seed_defaults, list_all,
}
use genie_promote_cicd.Config.RulesTrail.{
  Run, stay, after, upserting, resetting, setting_at, replay, Run-replay,
}
use genie_promote_cicd.Config.Effective.{effective_rules, rules_for_kind, by_id}
use genie_promote_cicd.Config.RulesMerge.{has_rule, effective_rules-ids, effective_rules-seeded}

abbrev admin : RoleAssignment
admin = record {
  id = "r1";
  email = "ana@example.com";
  role = "admin";
  github_username = none;
  created_at = 1;
  updated_at = 1;
}

abbrev steward : RoleAssignment
steward = record {
  id = "r2";
  email = "rui@example.com";
  role = "steward";
  github_username = some "rui";
  created_at = 2;
  updated_at = 2;
}

abbrev pub store : RolesBackend
store = record { rows = admin ∷ steward ∷ []; migrated = false }

revoke-lockout_example :
    ((revoke " Ana@Example.com " "admin" store ≡ (raise last_admin_error, store))
      × (is_given (remaining (normalized " Ana@Example.com ") "admin" store.rows) ≡ true)
      × (has_admin (remaining (normalized " Ana@Example.com ") "admin" store.rows) ≡ false))
    ⊎ ((revoke " Ana@Example.com " "admin" store ≡ (
      ok tt,
      record store { rows = deleted (normalized " Ana@Example.com ") "admin" store.rows },
    ))
        × ((is_given (deleted (normalized " Ana@Example.com ") "admin" store.rows)
              && not (has_admin (deleted (normalized " Ana@Example.com ") "admin" store.rows)))
            ≡ false))
revoke-lockout_example = revoke-lockout " Ana@Example.com " "admin" store refl

-- The guard speaks up here.
revoke_raises : revoke " Ana@Example.com " "admin" store ≡ (raise last_admin_error, store)
unfolding revoke normalized lower strip lstrip rstrip
revoke_raises = refl

abbrev pub env : Rule
env = record {
  rule_id = "ENV-01";
  severity_hint = "BLOCKER";
  citation = "Ambientes";
  content = "No dev catalog.";
  params = none;
  kinds = none;
}

abbrev pub eval : Rule
eval = record {
  rule_id = "EVAL-01";
  severity_hint = "BLOCKER";
  citation = "Benchmarks";
  content = "Two benchmarks.";
  params = none;
  kinds = some ("genie_space" ∷ []);
}

abbrev off : NewRule
off = record {
  rule_id = " EVAL-01";
  actor_email = "ana@example.com";
  is_custom = false;
  enabled = false;
  severity = none;
  params = none;
  content = none;
  citation = none;
}

abbrev switched : RulesBackend
switched = (upsert "e1" 5 6 off empty).1

abbrev restored : RulesBackend
restored = (reset "e2" 7 "EVAL-01" "rui@example.com" switched).1

switching : Run empty restored
switching =
    after (after stay (upserting "e1" 5 6 off)) (resetting "e2" 7 "EVAL-01" "rui@example.com")

Run-replay_example :
    (events : List RuleAuditEvent) × (restored.events ≡ empty.events ++ events)
    × ((rule_id : String)
        → setting_at rule_id restored ≡ replay rule_id events (setting_at rule_id empty))
Run-replay_example = Run-replay switching

abbrev disabled : RuleOverride
disabled = record (seeded 5 "ana@example.com" eval) { enabled = false }

effective_rules-ids_example :
    has_rule "EVAL-01" (effective_rules (env ∷ eval ∷ []) (disabled ∷ []) none)
    ≡ elim (lookup "EVAL-01" (by_id (disabled ∷ []))) [
      | none ↦ has_rule "EVAL-01" (rules_for_kind none (env ∷ eval ∷ []))
      | some o ↦
          o.enabled && (o.is_custom || has_rule "EVAL-01" (rules_for_kind none (env ∷ eval ∷ [])))
    ]
effective_rules-ids_example =
    effective_rules-ids (env ∷ eval ∷ []) (disabled ∷ []) none "EVAL-01" (refl, tt)

effective_rules-seeded_example :
    ((seed_defaults 9 (env ∷ eval ∷ []) "system" empty).0 ≡ ok 2)
    × (effective_rules
          (env ∷ eval ∷ [])
          (list_all (seed_defaults 9 (env ∷ eval ∷ []) "system" empty).1)
          (some "dashboard")
        ≡ rules_for_kind (some "dashboard") (env ∷ eval ∷ []))
    × (effective_rules (env ∷ eval ∷ []) [] (some "dashboard")
        ≡ rules_for_kind (some "dashboard") (env ∷ eval ∷ []))
effective_rules-seeded_example =
    effective_rules-seeded 9 (env ∷ eval ∷ []) "system" empty (some "dashboard") (refl, (refl, tt))
      refl
