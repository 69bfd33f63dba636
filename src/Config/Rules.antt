-- ===== src/Config/Rules.antt =====
-- app/rules_store.py: the reviewer's rules that an administrator has set, with `InMemoryBackend` and
-- `RulesStore`, and the shape of a rule of genie_reviewer/handbook_rules.py. The uuid and the readings
-- of the clock that a method draws are its arguments.
use genie_promote_cicd.Prelude.{
  ℕ, suc, ◌+◌, max, String, Bool, true, false, not, ◌&&◌, ◌||◌, Option, none, some, List, [], ◌∷◌,
  ◌++◌, Dict, lookup, insert, values, keep, remove, Exec, pure, throw, modify, ◌>>=◌, ◌>>◌,
  value_error, ◌==◌, if◌then◌else◌, truthy, is_some, any, select, strip, Json,
}

-- A rule of the handbook, `kinds` being the kinds of resource that it applies to.
pub record Rule : Type 0 where
  pub rule_id : String
  pub severity_hint : String
  pub citation : String
  pub content : String
  pub params : Option (Dict Json)
  pub kinds : Option (List String)

abbrev pub severities : List String
severities = "BLOCKER" ∷ "SUGGESTION" ∷ "STYLE" ∷ []

abbrev pub event_types : List String
event_types = "rule_created" ∷ "rule_updated" ∷ "rule_deleted" ∷ "rule_reset" ∷ []

abbrev pub retired_rule_ids : List String
retired_rule_ids = "GRANT-01" ∷ "GRANT-02" ∷ []

abbrev among : List String → String → Bool
among texts s = any (λ t. t == s) texts

pub record RuleOverride : Type 0 where
  pub rule_id : String
  pub is_custom : Bool
  pub enabled : Bool
  pub severity : Option String
  pub params : Option (Dict Json)
  pub content : Option String
  pub citation : Option String
  pub updated_by : Option String
  pub created_at : ℕ
  pub updated_at : ℕ

-- The `detail` of a change.
pub record Change : Type 0 where
  pub enabled : Bool
  pub severity : Option String
  pub params : Option (Dict Json)

pub record RuleAuditRow : Type 0 where
  pub id : String
  pub rule_id : String
  pub occurred_at : ℕ
  pub event_type : String
  pub actor_email : String
  pub detail : Option Change

pub record RuleAuditEvent : Type 0 where
  pub row : RuleAuditRow
  pub open row use *
  pub seq : ℕ

pub record RulesBackend : Type 0 where
  pub rows : Dict RuleOverride
  pub events : List RuleAuditEvent
  pub migrated : Bool

abbrev pub empty : RulesBackend
empty = record { rows = []; events = []; migrated = false }

unfoldable pub migrate : Exec RulesBackend Unit
migrate =
    modify
      λ b. record b { rows = keep (λ k. not (among retired_rule_ids k)) b.rows; migrated = true }

unfoldable pub upsert_row : RuleOverride → Exec RulesBackend Unit
upsert_row row = modify λ b. record b { rows = insert row.rule_id row b.rows }

unfoldable pub delete : String → Exec RulesBackend Unit
delete rule_id = modify λ b. record b { rows = remove rule_id b.rows }

abbrev pub of_rule : String → RuleAuditEvent → Bool
of_rule rule_id e = e.rule_id == rule_id

abbrev pub max_seq : List RuleAuditEvent → ℕ
max_seq [] = 0
max_seq (e ∷ events) = max e.seq (max_seq events)

abbrev pub next_seq : String → List RuleAuditEvent → ℕ
next_seq rule_id events = 1 + max_seq (select (of_rule rule_id) events)

unfoldable pub insert_audit_event : RuleAuditRow → Exec RulesBackend ℕ
insert_audit_event row b =
    let seq = next_seq row.rule_id b.events in
    pure seq (record b { events = b.events ++ record { row = row; seq = seq } ∷ [] })

unfoldable pub append_event : RuleAuditRow → Exec RulesBackend RuleAuditEvent
append_event row b =
    if not (among event_types row.event_type)
    then throw value_error b
    else (insert_audit_event row >>= λ seq. pure (record { row = row; seq = seq })) b

-- The keyword arguments of `upsert`.
pub record NewRule : Type 0 where
  pub rule_id : String
  pub actor_email : String
  pub is_custom : Bool
  pub enabled : Bool
  pub severity : Option String
  pub params : Option (Dict Json)
  pub content : Option String
  pub citation : Option String

-- `not text or not text.strip()`
abbrev blank : Option String → Bool
blank none = true
blank (some s) = s == "" || strip s == ""

abbrev unknown_severity : Option String → Bool
unknown_severity none = false
unknown_severity (some s) = not (among severities s)

abbrev pub is_refused : NewRule → Bool
is_refused a =
    blank (some a.rule_id)
    || unknown_severity a.severity
    || (a.is_custom && (not (truthy a.severity) || blank a.content || blank a.citation))
    || a.actor_email == ""

abbrev created_at_of : Option RuleOverride → ℕ → ℕ
created_at_of none now = now
created_at_of (some r) now = r.created_at

abbrev pub override_of : NewRule → String → Option RuleOverride → ℕ → RuleOverride
override_of a rule_id existing now = record {
  rule_id = rule_id;
  is_custom = a.is_custom;
  enabled = a.enabled;
  severity = a.severity;
  params = a.params;
  content = a.content;
  citation = a.citation;
  updated_by = some a.actor_email;
  created_at = created_at_of existing now;
  updated_at = now;
}

abbrev pub written : NewRule → String → Option RuleOverride → String → ℕ → RuleAuditRow
written a rule_id existing fresh at = record {
  id = fresh;
  rule_id = rule_id;
  occurred_at = at;
  event_type = if not (is_some existing) && a.is_custom then "rule_created" else "rule_updated";
  actor_email = a.actor_email;
  detail = some (record { enabled = a.enabled; severity = a.severity; params = a.params });
}

unfoldable pub upsert : String → (now at : ℕ) → NewRule → Exec RulesBackend RuleOverride
upsert fresh now at a b =
    if is_refused a
    then throw value_error b
    else let rule_id = strip a.rule_id in
      let existing = lookup rule_id b.rows in
      let row = override_of a rule_id existing now in
      (upsert_row row >> append_event (written a rule_id existing fresh at) >> pure row) b

abbrev pub dropped : RuleOverride → String → String → String → ℕ → RuleAuditRow
dropped existing rule_id actor_email fresh at = record {
  id = fresh;
  rule_id = rule_id;
  occurred_at = at;
  event_type = if existing.is_custom then "rule_deleted" else "rule_reset";
  actor_email = actor_email;
  detail = none;
}

abbrev reset_row :
    Option RuleOverride → String → ℕ → (rule_id actor_email : String) → Exec RulesBackend Unit
reset_row none fresh at rule_id actor_email = pure tt
reset_row (some existing) fresh at rule_id actor_email =
    delete rule_id >> append_event (dropped existing rule_id actor_email fresh at) >> pure tt

unfoldable pub reset : String → ℕ → (rule_id actor_email : String) → Exec RulesBackend Unit
reset fresh at rule_id actor_email b =
    reset_row (lookup rule_id b.rows) fresh at rule_id actor_email b

abbrev pub seeded : ℕ → String → Rule → RuleOverride
seeded now actor_email r = record {
  rule_id = r.rule_id;
  is_custom = false;
  enabled = true;
  severity = some r.severity_hint;
  params = r.params;
  content = some r.content;
  citation = some r.citation;
  updated_by = some actor_email;
  created_at = now;
  updated_at = now;
}

unfoldable pub seed_rows : ℕ → String → List Rule → Exec RulesBackend ℕ
seed_rows now actor_email [] = pure 0
seed_rows now actor_email (r ∷ rules) =
    upsert_row (seeded now actor_email r) >> (seed_rows now actor_email rules >>= λ n. pure (suc n))

-- `if rows: return 0`
abbrev unless_given : List RuleOverride → Exec RulesBackend ℕ → Exec RulesBackend ℕ
unless_given [] seed = seed
unless_given (row ∷ rows) seed = pure 0

unfoldable pub seed_defaults : ℕ → List Rule → String → Exec RulesBackend ℕ
seed_defaults now rules actor_email b =
    unless_given (values b.rows) (seed_rows now actor_email rules) b

unfoldable pub list_all : RulesBackend → List RuleOverride
list_all b = values b.rows
