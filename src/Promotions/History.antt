-- ===== src/Promotions/History.antt =====
-- app/promotion_store.py: the audit trail as it is listed, and how each call changes it.
use genie_promote_cicd.Prelude.{
  ℕ, suc, ◌≤◌, String, ◌≡◌, refl, Bool, true, Option, List, [], ◌∷◌, ◌++◌, arith, Bool-cases, inl,
  inr, All, select, lookup, leb, IsOrdered, sort_by_of_IsOrdered, not, any, is_some, keep_state,
  Json, ◌⊎◌, ◌&&◌,
}
use genie_promote_cicd.ChangeRequest.{AttemptPayload}
use genie_promote_cicd.Promotions.Types.{EventRow, AuditEvent, ReviewSnapshot, DeploymentAttempt}
use genie_promote_cicd.Promotions.Backend
use genie_promote_cicd.Promotions.Backend.{
  Backend, belongs, list_audit_events, is_event, is_recurring,
}
use genie_promote_cicd.Promotions.Store
use genie_promote_cicd.Promotions.Store.{NewPromotion}
use genie_promote_cicd.Promotions.Audit.{IsNumbered}
use genie_promote_cicd.Promotions.Invariant.{IsConsistent}
use genie_promote_cicd.Promotions.Reach.{
  Step, create, touch, declare, rebase, cache, snapshot, audit, rehydrate, attempt,
}

abbrev by_seq : AuditEvent → AuditEvent → Bool
by_seq d e = leb d.seq e.seq

later_seqs :
    (n m : ℕ) (e : AuditEvent) (es : List AuditEvent)
    → e.seq ≤ m
    → IsNumbered m es
    → All (λ d. by_seq e d ≡ true) es
later_seqs n m e [] h k = tt
later_seqs n m e (d ∷ es) h k = (ground arith, later_seqs n (suc m) e es (omega arith) k.1)

IsOrdered-of_IsNumbered : (n : ℕ) (es : List AuditEvent) → IsNumbered n es → IsOrdered by_seq es
IsOrdered-of_IsNumbered n [] h = tt
IsOrdered-of_IsNumbered n (e ∷ es) h =
    (later_seqs n (suc n) e es (omega arith) h.1, IsOrdered-of_IsNumbered (suc n) es h.1)

-- In a consistent store the events of a promotion are listed as they were appended, and are numbered
-- 1, 2, 3, … in that order.
pub list_audit_events-appended :
    (b : Backend) (pid : String)
    → IsConsistent b
    → (list_audit_events pid b ≡ select (belongs pid) b.events)
      × IsNumbered 1 (list_audit_events pid b)
unfolding list_audit_events
list_audit_events-appended b pid c =
    let unsorted =
      sort_by_of_IsOrdered by_seq (select (belongs pid) b.events)
        (IsOrdered-of_IsNumbered 1 _ (c.numbered pid)) in
    (unsorted, rw unsorted (c.numbered pid))

-- The events of the second state are those of the first, or those and one more at the end.
abbrev pub Extends : Backend → Backend → Type 0
Extends b c = (c.events ≡ b.events) ⊎ ((e : AuditEvent) × (c.events ≡ b.events ++ e ∷ []))

create-events :
    (fresh : String) (now : ℕ) (a : NewPromotion) (b : Backend)
    → (Store.create_promotion fresh now a b).1.events ≡ b.events
unfolding Store.create_promotion Backend.insert_promotion
create-events fresh now a b = ground arith

snapshot-events :
    (row : ReviewSnapshot) (b : Backend) → (Backend.insert_snapshot row b).1.events ≡ b.events
unfolding Backend.insert_snapshot
snapshot-events row b = ground arith

rehydrate-events :
    (fresh : String) (now : ℕ) (resource : String) (title : Option String) (actor mode : String)
    (space : Option String) (detail : Option Json) (b : Backend)
    → (Store.append_rehydrate_event fresh now resource title actor mode space detail b).1.events
      ≡ b.events
unfolding Store.append_rehydrate_event Backend.insert_rehydrate_event
rehydrate-events fresh now resource title actor mode space detail b = ground arith

upsert-events :
    (row : DeploymentAttempt) (b : Backend)
    → (Backend.upsert_deployment_attempt row b).1.events ≡ b.events
unfolding Backend.upsert_deployment_attempt
upsert-events row b = ground arith

pub attempt-events :
    (now : ℕ) (id : String) (evidence : AttemptPayload) (provider : String) (b : Backend)
    → (Store.upsert_deployment_attempt now id evidence provider b).1.events ≡ b.events
unfolding Store.upsert_deployment_attempt
attempt-events now id evidence provider b =
    ground (arith, upsert-events (Store.attempt_row now id provider evidence) b)

insert-Extends : (row : EventRow) (b : Backend) → Extends b (Backend.insert_audit_event row b).1
unfolding Backend.insert_audit_event
insert-Extends row b = elim (Bool-cases (is_some (lookup row.promotion_id b.promotions))) [
  | inr missing ↦ rw missing (inl refl)
  | inl stored ↦
      elim (Bool-cases (
        not (is_recurring row.event_type)
        && any (is_event row.promotion_id row.event_type) b.events)) [
          | inl repeated ↦ rw (stored, repeated) (inl refl)
          | inr new ↦ rw (stored, new) (inr (_, refl))
        ]
]

audit-Extends : (row : EventRow) (b : Backend) → Extends b (Store.append_audit_event row b).1
unfolding Store.append_audit_event
audit-Extends row b = elim (Bool-cases (not (Store.contains Store.event_types row.event_type))) [
  | inl unknown ↦ rw unknown (inl refl)
  | inr known ↦ rw known (
      keep_state (Extends b) (Backend.insert_audit_event row) (Store.as_event row) b
        (insert-Extends row b))
]

-- Each call of a method leaves every event of the audit trail where it is, with its contents, and
-- adds at most one, at the end. It holds for calls that raise too.
pub Step-Extends : {b c : Backend} → Step b c → Extends b c
unfolding Store.touch Store.update_declarations Store.update_cache Store.update_change_request
    Store.append_snapshot Backend.update_promotion
Step-Extends {b} (create fresh now a new) = inl (create-events fresh now a b)
Step-Extends (touch now id) = inl refl
Step-Extends (declare now id title audience mapping) = inl refl
Step-Extends (rebase now p provider external_id url content engine found) = inl refl
Step-Extends (cache now id phase status terminal at) = inl refl
Step-Extends {b} (snapshot fresh now id conclusion summary findings eval timeline) =
    let row = Store.snapshot_row fresh now id conclusion summary findings eval timeline in
    inl (
      keep_state (λ c. c.events ≡ b.events) (Backend.insert_snapshot row) (λ u. row) b
        (snapshot-events row b))
Step-Extends {b} (audit row) = audit-Extends row b
Step-Extends {b} (rehydrate fresh now resource title actor mode space detail) =
    inl (rehydrate-events fresh now resource title actor mode space detail b)
Step-Extends {b} (attempt now id evidence provider) =
    inl (attempt-events now id evidence provider b)
