-- ===== src/Config/PromptTrail.antt =====
-- app/prompt_template_store.py: the audit trail and the text in force.
use genie_promote_cicd.Prelude.{
  ℕ, suc, ◌+◌, String, ◌≡◌, refl, sym, ◌∙◌, subst, ◌||◌, Option, none, some, List, [], ◌∷◌, ◌++◌,
  arith, Bool-cases, Option-cases, inl, inr, length, ◌==◌, strip,
}
use genie_promote_cicd.Config.Prompt.{
  PromptTemplateAuditEvent, PromptTemplateBackend, empty, text_of, numbered, save, reset, set,
  clear, append_event, insert_audit_event, saved, undone, migrate,
}

-- The events are numbered from `n` on, each starts from the text that the one before it left, the
-- first from `t`, and the last leaves `u`.
abbrev pub Chain : ℕ → Option String → List PromptTemplateAuditEvent → Option String → Type 0
Chain n t [] u = u ≡ t
Chain n t (e ∷ events) u =
    (e.seq ≡ n) × (e.detail.before_text ≡ t) × Chain (suc n) e.detail.after_text events u

Chain-snoc :
    (n : ℕ) (t u v : Option String) (events : List PromptTemplateAuditEvent)
    (e : PromptTemplateAuditEvent)
    → Chain n t events u
    → e.seq ≡ n + length events
    → e.detail.before_text ≡ u
    → e.detail.after_text ≡ v
    → Chain n t (events ++ e ∷ []) v
Chain-snoc n t u v [] e h s b a = (omega (arith, s), b ∙ h, sym a)
Chain-snoc n t u v (d ∷ events) e h s b a =
    (h.0, h.1, Chain-snoc (suc n) d.detail.after_text u v events e h.2 (omega (arith, s)) b a)

abbrev pub Chained : PromptTemplateBackend → Type 0
Chained b = Chain 1 none b.events (text_of b.template)

pub data Step (b : PromptTemplateBackend) : PromptTemplateBackend → Type 0 where
  migrating : Step b (migrate b).1
  saving :
      (fresh : String) (now at : ℕ) (template_text actor_email : String)
      → Step b (save fresh now at template_text actor_email b).1
  resetting :
      (fresh : String) (at : ℕ) (actor_email : String) → Step b (reset fresh at actor_email b).1

pub data Reach : PromptTemplateBackend → Type 0 where
  start : Reach empty
  next : {b c : PromptTemplateBackend} → Reach b → Step b c → Reach c

save-Chained :
    (fresh : String) (now at : ℕ) (template_text actor_email : String) (b : PromptTemplateBackend)
    → Chained b
    → Chained (save fresh now at template_text actor_email b).1
unfolding save set append_event insert_audit_event
save-Chained fresh now at template_text actor_email b h =
    elim (Bool-cases (template_text == "" || strip template_text == "")) [
      | inl t ↦ rw t h
      | inr f ↦ elim (Bool-cases (actor_email == "")) [
        | inl u ↦ rw (f, u) h
        | inr g ↦
            rw (f, g)
              (Chain-snoc 1 none (text_of b.template) (some template_text) b.events
                (numbered (saved fresh at template_text actor_email b.template) b) h refl refl refl)
      ]
    ]

reset-Chained :
    (fresh : String) (at : ℕ) (actor_email : String) (b : PromptTemplateBackend)
    → Chained b
    → Chained (reset fresh at actor_email b).1
unfolding reset clear append_event insert_audit_event
reset-Chained fresh at actor_email b h = elim (Option-cases b.template) [
  | inl n ↦ rw n (subst (λ t. Chain 1 none b.events (text_of t)) n h)
  | inr (t, e) ↦ rw e (
      Chain-snoc 1 none (some t.template_text) none b.events
        (numbered (undone fresh at actor_email t) b)
        (subst (λ t. Chain 1 none b.events (text_of t)) e h) refl refl refl)
]

-- In each store that saves and resets have reached from the empty one, returning or raising, the
-- events of the audit trail are numbered 1, 2, 3, …, each starts from the text that the one before it
-- left, the first from none, and the last left the text in force.
pub Reach-Chained : {b : PromptTemplateBackend} → Reach b → Chained b
unfolding migrate
Reach-Chained start = refl
Reach-Chained (next {b = b} r migrating) = Reach-Chained r
Reach-Chained (next {b = b} r (saving fresh now at template_text actor_email)) =
    save-Chained fresh now at template_text actor_email b (Reach-Chained r)
Reach-Chained (next {b = b} r (resetting fresh at actor_email)) =
    reset-Chained fresh at actor_email b (Reach-Chained r)
