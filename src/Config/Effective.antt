-- ===== src/Config/Effective.antt =====
-- genie_reviewer/rules_config.py: the rules that the reviewer works with, of the handbook's and the
-- administrators', and the configuration of EVAL-01. `handbook_rules.RULES` is the argument `rules`.
use genie_promote_cicd.Prelude.{
  ℕ, String, Bool, true, not, ◌&&◌, Option, none, some, List, [], ◌∷◌, ◌++◌, Dict, lookup, insert,
  ◌==◌, if◌then◌else◌, or_else, any, select, Json, ℤ, pos, negsuc, int_of_text, concat,
}
use genie_promote_cicd.Config.Rules.{Rule, RuleOverride}

-- `{o["rule_id"]: o for o in overrides}`
abbrev pub indexed : List RuleOverride → Dict RuleOverride → Dict RuleOverride
indexed [] d = d
indexed (o ∷ overrides) d = indexed overrides (insert o.rule_id o d)

abbrev pub by_id : List RuleOverride → Dict RuleOverride
by_id overrides = indexed overrides []

-- `kind in (rule.get("kinds") or (kind,))`
abbrev pub applies : String → Option (List String) → Bool
applies kind none = true
applies kind (some []) = true
applies kind (some (k ∷ kinds)) = any (λ j. j == kind) (k ∷ kinds)

unfoldable pub rules_for_kind : Option String → List Rule → List Rule
rules_for_kind none rules = rules
rules_for_kind (some kind) rules = select (λ r. applies kind r.kinds) rules

-- The override's text where it is set and not empty.
abbrev pub text_or : Option String → String → String
text_or none d = d
text_or (some s) d = if s == "" then d else s

-- The override's parameters where there are any.
abbrev pub params_or : Option (Dict Json) → Option (Dict Json) → Option (Dict Json)
params_or none d = d
params_or (some []) d = d
params_or (some (p ∷ ps)) d = some (p ∷ ps)

abbrev pub merged : Rule → RuleOverride → Rule
merged rule o = record rule {
  severity_hint = text_or o.severity rule.severity_hint;
  content = text_or o.content rule.content;
  citation = text_or o.citation rule.citation;
  params = params_or o.params rule.params;
}

abbrev pub kept_rule : Rule → Option RuleOverride → List Rule → List Rule
kept_rule rule none rest = rule ∷ rest
kept_rule rule (some o) rest = if o.enabled then merged rule o ∷ rest else rest

abbrev pub with_overrides : Dict RuleOverride → List Rule → List Rule
with_overrides d [] = []
with_overrides d (rule ∷ rules) = kept_rule rule (lookup rule.rule_id d) (with_overrides d rules)

abbrev pub custom_rule : RuleOverride → Rule
custom_rule o = record {
  rule_id = o.rule_id;
  severity_hint = text_or o.severity "SUGGESTION";
  citation = text_or o.citation (concat "Regra customizada › " o.rule_id);
  content = text_or o.content "";
  params = none;
  kinds = none;
}

abbrev pub custom_rules : List RuleOverride → List Rule
custom_rules [] = []
custom_rules (o ∷ overrides) =
    let rest = custom_rules overrides in
    if o.is_custom && o.enabled then custom_rule o ∷ rest else rest

unfoldable pub effective_rules : List Rule → List RuleOverride → Option String → List Rule
effective_rules rules overrides kind =
    with_overrides (by_id overrides) (rules_for_kind kind rules) ++ custom_rules overrides

-- `int(value)` on a JSON value, none where it raises.
abbrev pub int_of : Json → Option ℤ
int_of (Json.num n) = some (pos n)
int_of (Json.bool b) = some (if b then pos 1 else pos 0)
int_of (Json.str s) = int_of_text s
int_of Json.null = none
int_of (Json.arr items) = none
int_of (Json.obj fields) = none

-- The number where it is one and not negative.
abbrev pub natural_or : Option ℤ → ℕ → ℕ
natural_or (some (pos n)) d = n
natural_or (some (negsuc n)) d = d
natural_or none d = d

abbrev pub min_benchmarks : Option Json → ℕ → ℕ
min_benchmarks none d = d
min_benchmarks (some v) d = natural_or (int_of v) d

unfoldable pub eval01_config : List RuleOverride → ℕ → String → ℕ × String
eval01_config overrides default_min_benchmark default_severity =
    elim (lookup "EVAL-01" (by_id overrides)) [
      | none ↦ (default_min_benchmark, default_severity)
      | some o ↦ if not o.enabled then (0, text_or o.severity default_severity) else (
        min_benchmarks (lookup "min_benchmarks" (or_else o.params [])) default_min_benchmark,
        text_or o.severity default_severity,
      )
    ]
