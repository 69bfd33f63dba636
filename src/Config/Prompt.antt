-- ===== src/Config/Prompt.antt =====
-- app/prompt_template_store.py: the reviewer's editable text, with `InMemoryBackend` and
-- `PromptTemplateStore`. The uuid and the readings of the clock that a method draws are its arguments.
use genie_promote_cicd.Prelude.{
  ℕ, ◌+◌, String, Bool, true, false, not, ◌||◌, Option, none, some, List, [], ◌∷◌, ◌++◌, any,
  length, Exec, pure, throw, modify, ◌>>=◌, ◌>>◌, value_error, ◌==◌, if◌then◌else◌, strip,
}

pub record PromptTemplate : Type 0 where
  pub template_text : String
  pub updated_by : String
  pub updated_at : ℕ

abbrev pub event_types : List String
event_types = "prompt_template_saved" ∷ "prompt_template_reset" ∷ []

-- The `detail` of an event: a reset has no text after it.
pub record TemplateChange : Type 0 where
  pub before_text : Option String
  pub after_text : Option String

pub record TemplateRow : Type 0 where
  pub id : String
  pub occurred_at : ℕ
  pub event_type : String
  pub actor_email : String
  pub detail : TemplateChange

pub record PromptTemplateAuditEvent : Type 0 where
  pub row : TemplateRow
  pub open row use *
  pub seq : ℕ

pub record PromptTemplateBackend : Type 0 where
  pub template : Option PromptTemplate
  pub events : List PromptTemplateAuditEvent
  pub migrated : Bool

abbrev pub empty : PromptTemplateBackend
empty = record { template = none; events = []; migrated = false }

unfoldable pub migrate : Exec PromptTemplateBackend Unit
migrate = modify λ b. record b { migrated = true }

unfoldable pub set : PromptTemplate → Exec PromptTemplateBackend Unit
set row = modify λ b. record b { template = some row }

unfoldable pub clear : Exec PromptTemplateBackend Unit
clear = modify λ b. record b { template = none }

abbrev pub numbered : TemplateRow → PromptTemplateBackend → PromptTemplateAuditEvent
numbered row b = record { row = row; seq = 1 + length b.events }

unfoldable pub insert_audit_event : TemplateRow → Exec PromptTemplateBackend ℕ
insert_audit_event row b =
    pure (1 + length b.events) (record b { events = b.events ++ numbered row b ∷ [] })

unfoldable pub append_event : TemplateRow → Exec PromptTemplateBackend PromptTemplateAuditEvent
append_event row b =
    if not (any (λ t. t == row.event_type) event_types)
    then throw value_error b
    else (insert_audit_event row >>= λ seq. pure (record { row = row; seq = seq })) b

-- The text of the row, where there is one.
abbrev pub text_of : Option PromptTemplate → Option String
text_of none = none
text_of (some t) = some t.template_text

abbrev pub saved :
    String → ℕ → (template_text actor_email : String) → Option PromptTemplate → TemplateRow
saved fresh at template_text actor_email before = record {
  id = fresh;
  occurred_at = at;
  event_type = "prompt_template_saved";
  actor_email = actor_email;
  detail = record { before_text = text_of before; after_text = some template_text };
}

unfoldable pub save :
    String
    → (now at : ℕ) → (template_text actor_email : String)
    → Exec PromptTemplateBackend PromptTemplate
save fresh now at template_text actor_email b =
    if template_text == "" || strip template_text == ""
    then throw value_error b
    else if actor_email == ""
    then throw value_error b
    else let row : PromptTemplate = record {
      template_text = template_text;
      updated_by = actor_email;
      updated_at = now;
    } in
      (set row >> append_event (saved fresh at template_text actor_email b.template) >> pure row) b

abbrev pub undone : String → ℕ → String → PromptTemplate → TemplateRow
undone fresh at actor_email existing = record {
  id = fresh;
  occurred_at = at;
  event_type = "prompt_template_reset";
  actor_email = actor_email;
  detail = record { before_text = some existing.template_text; after_text = none };
}

abbrev reset_row : Option PromptTemplate → String → ℕ → String → Exec PromptTemplateBackend Unit
reset_row none fresh at actor_email = pure tt
reset_row (some existing) fresh at actor_email =
    clear >> append_event (undone fresh at actor_email existing) >> pure tt

unfoldable pub reset : String → ℕ → String → Exec PromptTemplateBackend Unit
reset fresh at actor_email b = reset_row b.template fresh at actor_email b
