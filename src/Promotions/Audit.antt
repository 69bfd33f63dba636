-- ===== src/Promotions/Audit.antt =====
-- The numbering of the audit trail and the milestones that it holds at most once.
use mathlib.Core.List.{append-nil}
use genie_promote_cicd.Prelude.{
  ℕ, suc, ◌+◌, ◌≤◌, max, String, ◌≡◌, refl, Bool, true, false, List, [], ◌∷◌, ◌++◌, arith, ◌==◌,
  eq_iff, Bool-cases, inl, inr, length, length-append, any, select, select-append,
}
use genie_promote_cicd.Promotions.Types.{EventRow, AuditEvent}
use genie_promote_cicd.Promotions.Backend.{max_seq, next_seq, belongs, is_event, is_recurring}

-- The events carry the numbers from `n` on, with no gap.
abbrev pub IsNumbered : ℕ → List AuditEvent → Type 0
IsNumbered n [] = Unit
IsNumbered n (e ∷ es) = (e.seq ≡ n) × IsNumbered (suc n) es

max_seq_of_IsNumbered :
    (n : ℕ) (es : List AuditEvent) → IsNumbered (suc n) es → max n (max_seq es) ≡ n + length es
max_seq_of_IsNumbered n [] h = omega arith
max_seq_of_IsNumbered n (e ∷ es) h = omega (arith, max_seq_of_IsNumbered (suc n) es h.1)

IsNumbered-snoc :
    (n : ℕ) (es : List AuditEvent) (e : AuditEvent)
    → IsNumbered n es
    → e.seq ≡ n + length es
    → IsNumbered n (es ++ e ∷ [])
IsNumbered-snoc n [] e h s = (omega arith, tt)
IsNumbered-snoc n (d ∷ es) e h s = (h.0, IsNumbered-snoc (suc n) es e h.1 (omega arith))

pub next_seq_of_IsNumbered :
    (pid : String) (es : List AuditEvent)
    → IsNumbered 1 (select (belongs pid) es)
    → next_seq pid es ≡ 1 + length (select (belongs pid) es)
next_seq_of_IsNumbered pid es h = omega (arith, max_seq_of_IsNumbered 0 (select (belongs pid) es) h)

abbrev numbered : EventRow → List AuditEvent → AuditEvent
numbered row es = record { row = row; seq = next_seq row.promotion_id es }

pub IsNumbered-append_event :
    (row : EventRow) (es : List AuditEvent)
    → ((pid : String) → IsNumbered 1 (select (belongs pid) es))
    → (pid : String) → IsNumbered 1 (select (belongs pid) (es ++ numbered row es ∷ []))
IsNumbered-append_event row es h pid =
    rw select-append (elim (Bool-cases (row.promotion_id == pid)) [
      | inl t ↦
          rw t (IsNumbered-snoc 1 (select (belongs pid) es) (numbered row es) (h pid) (number t))
      | inr f ↦ rw f (rw append-nil (h pid))
    ])
  where
    number :
        (row.promotion_id == pid) ≡ true
        → next_seq row.promotion_id es ≡ 1 + length (select (belongs pid) es)
    number t = rw ((eq_iff row.promotion_id pid).0 t) (next_seq_of_IsNumbered pid es (h pid))

pub length-select_of_none {ℓ} :
    {A : Type ℓ} (p : A → Bool) (xs : List A) → any p xs ≡ false → length (select p xs) ≡ 0
length-select_of_none p [] h = refl
length-select_of_none p (x ∷ xs) h = ground (arith, length-select_of_none p xs)

-- Appending an event that is no repeated milestone keeps each milestone at most once.
pub AtMostOnce-append_event :
    (e : AuditEvent) (es : List AuditEvent)
    → (is_recurring e.event_type ≡ false → any (is_event e.promotion_id e.event_type) es ≡ false)
    → ((pid t : String) → is_recurring t ≡ false → length (select (is_event pid t) es) ≤ 1)
    → (pid t : String) → is_recurring t ≡ false
    → length (select (is_event pid t) (es ++ e ∷ [])) ≤ 1
AtMostOnce-append_event e es new h pid t r =
    rw (select-append, length-append)
      (elim (Bool-cases (is_event pid t e)) [
        | inl hit ↦ rw hit (first hit)
        | inr miss ↦ rw miss (omega (arith, h pid t r))
      ])
  where
    first : is_event pid t e ≡ true → length (select (is_event pid t) es) + 1 ≤ 1
    first hit =
        let same_id : e.promotion_id ≡ pid = ground (arith, eq_iff e.promotion_id pid) in
        let same_type : e.event_type ≡ t = ground (arith, eq_iff e.event_type t) in
        let r' : is_recurring e.event_type ≡ false = rw same_type r in
        let none_yet : any (is_event pid t) es ≡ false = rw (← same_id, ← same_type) (new r') in
        omega (arith, length-select_of_none (is_event pid t) es none_yet)
