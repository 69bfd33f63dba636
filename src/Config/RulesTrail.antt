-- ===== src/Config/RulesTrail.antt =====
-- app/rules_store.py: the audit trail and the configuration it tells of.
use mathlib.Core.List.{append-nil, append_assoc}
use genie_promote_cicd.Prelude.{
  ℕ, String, ◌≡◌, refl, sym, ap, ◌∙◌, subst, Bool, true, false, not, ◌&&◌, Option, none, some, List,
  [], ◌∷◌, ◌++◌, Dict, Bool-cases, Option-cases, inl, inr, ◌==◌, lookup, insert, lookup-insert,
  lookup-remove, remove, is_some, strip, if◌then◌else◌, Json,
}
use genie_promote_cicd.Config.Rules.{
  RuleOverride, Change, RuleAuditRow, RuleAuditEvent, RulesBackend, NewRule, upsert, reset,
  is_refused, upsert_row, delete, append_event, insert_audit_event, override_of, written, dropped,
  next_seq,
}

-- What the trail tells of a rule that has a row.
pub record Setting : Type 0 where
  pub enabled : Bool
  pub severity : Option String
  pub params : Option (Dict Json)
  pub updated_by : Option String

abbrev setting_of : RuleOverride → Setting
setting_of o = record {
  enabled = o.enabled;
  severity = o.severity;
  params = o.params;
  updated_by = o.updated_by;
}

abbrev map_setting : Option RuleOverride → Option Setting
map_setting none = none
map_setting (some o) = some (setting_of o)

-- The setting that a rule has in the store.
abbrev pub setting_at : String → RulesBackend → Option Setting
setting_at rule_id b = map_setting (lookup rule_id b.rows)

-- The setting that one change leaves: none where it has no detail.
abbrev told : String → Option Change → Option Setting
told actor none = none
told actor (some c) = some (record {
  enabled = c.enabled;
  severity = c.severity;
  params = c.params;
  updated_by = some actor;
})

-- A rule's setting by its events alone, the last of them deciding.
abbrev pub replay : String → List RuleAuditEvent → Option Setting → Option Setting
replay rule_id [] s = s
replay rule_id (e ∷ events) s =
    replay rule_id events (if e.rule_id == rule_id then told e.actor_email e.detail else s)

-- The state that a call leaves, whether it returns or raises.
pub data Step (b : RulesBackend) : RulesBackend → Type 0 where
  upserting : (fresh : String) (now at : ℕ) (a : NewRule) → Step b (upsert fresh now at a b).1
  resetting :
      (fresh : String) (at : ℕ) (rule_id actor_email : String)
      → Step b (reset fresh at rule_id actor_email b).1

pub data Run (b : RulesBackend) : RulesBackend → Type 0 where
  stay : Run b b
  after : {c d : RulesBackend} → Run b c → Step c d → Run b d

abbrev pub Told : RulesBackend → RulesBackend → Type 0
Told b c =
    (events : List RuleAuditEvent) × (c.events ≡ b.events ++ events)
    × ((rule_id : String) → setting_at rule_id c ≡ replay rule_id events (setting_at rule_id b))

replay-append :
    (rule_id : String) (es fs : List RuleAuditEvent) (s : Option Setting)
    → replay rule_id (es ++ fs) s ≡ replay rule_id fs (replay rule_id es s)
replay-append rule_id [] fs s = refl
replay-append rule_id (e ∷ es) fs s =
    replay-append rule_id es fs (if e.rule_id == rule_id then told e.actor_email e.detail else s)

Told-refl : (b : RulesBackend) → Told b b
Told-refl b = ([], sym (append-nil _), λ rule_id. refl)

Told-trans : (b c d : RulesBackend) → Told b c → Told c d → Told b d
Told-trans b c d h k = (
  h.0 ++ k.0,
  k.1 ∙ ap (λ es. es ++ k.0) h.1 ∙ append_assoc b.events h.0 k.0,
  λ rule_id.
      k.2 rule_id
      ∙ ap (replay rule_id k.0) (h.2 rule_id)
      ∙ sym (replay-append rule_id h.0 k.0 (setting_at rule_id b)),
)

abbrev logged : RuleAuditRow → RulesBackend → RuleAuditEvent
logged row b = record { row = row; seq = next_seq row.rule_id b.events }

-- One written row and one event that tells of it.
told_once :
    (b c : RulesBackend) (e : RuleAuditEvent)
    → c.events ≡ b.events ++ e ∷ []
    → ((rule_id : String)
        → setting_at rule_id c
          ≡ (if e.rule_id == rule_id then told e.actor_email e.detail else setting_at rule_id b))
    → Told b c
told_once b c e h k = (e ∷ [], h, k)

upsert-accepted :
    (fresh : String) (now at : ℕ) (a : NewRule) (b : RulesBackend)
    → is_refused a ≡ false
    → (upsert fresh now at a b).1 ≡ (
        let rule_id = strip a.rule_id in
        let existing = lookup rule_id b.rows in
        record b {
          rows = insert rule_id (override_of a rule_id existing now) b.rows;
          events = b.events ++ logged (written a rule_id existing fresh at) b ∷ [];
        })
unfolding upsert upsert_row append_event insert_audit_event
upsert-accepted fresh now at a b h =
    elim (Bool-cases (not (is_some (lookup (strip a.rule_id) b.rows)) && a.is_custom)) [
      | inl t ↦ rw (h, t)
      | inr f ↦ rw (h, f)
    ]

upsert-refused :
    (fresh : String) (now at : ℕ) (a : NewRule) (b : RulesBackend)
    → is_refused a ≡ true
    → (upsert fresh now at a b).1 ≡ b
unfolding upsert
upsert-refused fresh now at a b h = rw h

upsert-Told :
    (fresh : String) (now at : ℕ) (a : NewRule) (b : RulesBackend)
    → Told b (upsert fresh now at a b).1
upsert-Told fresh now at a b = elim (Bool-cases (is_refused a)) [
  | inl t ↦ subst (Told b) (sym (upsert-refused fresh now at a b t)) (Told-refl b)
  | inr f ↦
      let rule_id = strip a.rule_id in
      let existing = lookup rule_id b.rows in
      let e = logged (written a rule_id existing fresh at) b in
      subst (Told b) (sym (upsert-accepted fresh now at a b f)) (
        told_once b
          (record b {
            rows = insert rule_id (override_of a rule_id existing now) b.rows;
            events = b.events ++ e ∷ [];
          })
          e refl
          (λ j. elim (Bool-cases (rule_id == j)) [
            | inl t ↦ rw (lookup-insert, t)
            | inr g ↦ rw (lookup-insert, g)
          ]))
]

reset-absent :
    (fresh : String) (at : ℕ) (rule_id actor_email : String) (b : RulesBackend)
    → lookup rule_id b.rows ≡ none
    → (reset fresh at rule_id actor_email b).1 ≡ b
unfolding reset
reset-absent fresh at rule_id actor_email b h = rw h

reset-present :
    (fresh : String) (at : ℕ) (rule_id actor_email : String) (b : RulesBackend) (o : RuleOverride)
    → lookup rule_id b.rows ≡ some o
    → (reset fresh at rule_id actor_email b).1 ≡ record b {
      rows = remove rule_id b.rows;
      events = b.events ++ logged (dropped o rule_id actor_email fresh at) b ∷ [];
    }
unfolding reset delete append_event insert_audit_event
reset-present fresh at rule_id actor_email b o h = elim (Bool-cases o.is_custom) [
  | inl t ↦ rw (h, t)
  | inr f ↦ rw (h, f)
]

reset-Told :
    (fresh : String) (at : ℕ) (rule_id actor_email : String) (b : RulesBackend)
    → Told b (reset fresh at rule_id actor_email b).1
reset-Told fresh at rule_id actor_email b = elim (Option-cases (lookup rule_id b.rows)) [
  | inl n ↦ subst (Told b) (sym (reset-absent fresh at rule_id actor_email b n)) (Told-refl b)
  | inr (o, found) ↦
      let e = logged (dropped o rule_id actor_email fresh at) b in
      subst (Told b) (sym (reset-present fresh at rule_id actor_email b o found)) (
        told_once b (record b { rows = remove rule_id b.rows; events = b.events ++ e ∷ [] }) e refl
          (λ j. elim (Bool-cases (rule_id == j)) [
            | inl t ↦ rw (lookup-remove, t)
            | inr g ↦ rw (lookup-remove, g)
          ]))
]

Step-Told : {b c : RulesBackend} → Step b c → Told b c
Step-Told {b} (upserting fresh now at a) = upsert-Told fresh now at a b
Step-Told {b} (resetting fresh at rule_id actor_email) = reset-Told fresh at rule_id actor_email b

-- However often rules are written and reset, with calls that return or raise, the trail keeps what it
-- had, and the events that it gained give each rule's setting (whether it is enabled, its severity,
-- its parameters and who set it, or none) from the setting before: the last event of the rule decides.
pub Run-replay :
    {b c : RulesBackend}
    → Run b c
    → (events : List RuleAuditEvent) × (c.events ≡ b.events ++ events)
      × ((rule_id : String) → setting_at rule_id c ≡ replay rule_id events (setting_at rule_id b))
Run-replay {b} stay = Told-refl b
Run-replay {b} {c} (after {c = d} run step) = Told-trans b d c (Run-replay run) (Step-Told step)
