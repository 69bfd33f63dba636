-- ===== src/Promotions/Invariant.antt =====
-- app/promotion_store.py: the invariant of the store, and the methods against it.
-- A fresh uuid is no id of a stored promotion, and the application moves a promotion to a Change
-- Request only where it has just found it under that Change Request (engine_api/main.py,
-- `_persist_promotion`).
use genie_promote_cicd.Prelude.{
  ◌≤◌, String, ◌≡◌, refl, true, false, none, some, List, [], ◌∷◌, ◌++◌, arith, eq_iff, Bool-cases,
  Option-cases, inl, inr, All, All-append, length, any, select, Dict, lookup, lookup-insert, insert,
  values, All-values-insert, IsDict, insert-IsDict, ◌∙◌, is_some,
}
use genie_promote_cicd.Promotions.Types.{Promotion, EventRow, ReviewSnapshot, DeploymentAttempt}
use genie_promote_cicd.Promotions.Backend
use genie_promote_cicd.Promotions.Backend.{Backend, empty, belongs, is_event, is_recurring}
use genie_promote_cicd.Promotions.Audit.{
  IsNumbered, IsNumbered-append_event, AtMostOnce-append_event,
}
use genie_promote_cicd.Promotions.Identity.{
  Distinct, identities, identity, Distinct-insert, Distinct-rewrite,
}

-- The promotion that a row refers to is stored.
abbrev pub IsStored : Dict Promotion → String → Type 0
IsStored d promotion_id = is_some (lookup promotion_id d) ≡ true

pub record IsConsistent (b : Backend) : Type 0 where
  pub dict : IsDict b.promotions
  pub ids : (k : String) (p : Promotion) → lookup k b.promotions ≡ some p → p.id ≡ k
  pub distinct : Distinct (identities b.promotions)
  pub snapshots_stored : All (λ s. IsStored b.promotions s.promotion_id) b.snapshots
  pub events_stored : All (λ e. IsStored b.promotions e.promotion_id) b.events
  pub attempts_stored :
      All (λ a. IsStored b.promotions a.promotion_id) (values b.deployment_attempts)
  pub numbered : (pid : String) → IsNumbered 1 (select (belongs pid) b.events)
  pub milestones :
      (pid t : String) → is_recurring t ≡ false → length (select (is_event pid t) b.events) ≤ 1

-- A write to the promotions loses no id.
pub IsStored-insert :
    (k : String) (p : Promotion) (d : Dict Promotion) (j : String)
    → IsStored d j
    → IsStored (insert k p d) j
IsStored-insert k p d j h = ground (arith, lookup-insert k j p d, eq_iff k j)

All-IsStored-insert {ℓ} :
    {A : Type ℓ} (owner : A → String) (k : String) (p : Promotion) (d : Dict Promotion)
    (xs : List A)
    → All (λ x. IsStored d (owner x)) xs
    → All (λ x. IsStored (insert k p d) (owner x)) xs
All-IsStored-insert owner k p d [] h = tt
All-IsStored-insert owner k p d (x ∷ xs) h =
    (IsStored-insert k p d (owner x) h.0, All-IsStored-insert owner k p d xs h.1)

-- The promotions are written at one id; the other tables stay.
module _ {b : Backend} (h : IsConsistent b) (k : String) (p : Promotion) (named : p.id ≡ k)
    (distinct : Distinct (identities (insert k p b.promotions))) where
  write-IsConsistent : IsConsistent (record b { promotions = insert k p b.promotions })
  write-IsConsistent = record {
    dict = insert-IsDict k p b.promotions h.dict;
    ids =
        λ j q found. ground (arith, lookup-insert k j p b.promotions, eq_iff k j, named, h.ids j q);
    distinct = distinct;
    snapshots_stored =
        All-IsStored-insert (λ s. s.promotion_id) k p b.promotions b.snapshots h.snapshots_stored;
    events_stored =
        All-IsStored-insert (λ e. e.promotion_id) k p b.promotions b.events h.events_stored;
    attempts_stored =
        All-IsStored-insert (λ a. a.promotion_id) k p b.promotions (values b.deployment_attempts)
          h.attempts_stored;
    numbered = h.numbered;
    milestones = h.milestones;
  }

pub insert_promotion-IsConsistent :
    {b : Backend} (p : Promotion)
    → lookup p.id b.promotions ≡ none
    → IsConsistent b
    → IsConsistent (Backend.insert_promotion p b).1
unfolding Backend.insert_promotion
insert_promotion-IsConsistent {b} p fresh h = ground (
  arith,
  λ (new : any (Backend.has_change_request p.change_provider p.external_id) (values b.promotions)
        ≡ false).
      write-IsConsistent h p.id p refl (Distinct-insert p.id p b.promotions fresh new h.distinct),
)

-- An update keeps consistency where it keeps the id and the identity of the promotion.
pub update_promotion-IsConsistent :
    {b : Backend} (k : String) (f : Promotion → Promotion)
    → ((p : Promotion)
        → lookup k b.promotions ≡ some p
        → ((f p).id ≡ p.id) × (identity (f p) ≡ identity p))
    → IsConsistent b
    → IsConsistent (Backend.update_promotion k f b).1
unfolding Backend.update_promotion
update_promotion-IsConsistent {b} k f keeps h = elim (Option-cases (lookup k b.promotions)) [
  | inl absent ↦ rw absent h
  | inr (p, found) ↦ rw found (
      write-IsConsistent h k (f p) ((keeps p found).0 ∙ h.ids k p found)
        (Distinct-rewrite k (f p) p b.promotions found (keeps p found).1 h.distinct))
]

pub insert_snapshot-IsConsistent :
    {b : Backend} (row : ReviewSnapshot)
    → IsConsistent b
    → IsConsistent (Backend.insert_snapshot row b).1
unfolding Backend.insert_snapshot
insert_snapshot-IsConsistent {b} row h =
    elim (Bool-cases (is_some (lookup row.promotion_id b.promotions))) [
      | inl stored ↦ rw stored (record {
        dict = h.dict;
        ids = h.ids;
        distinct = h.distinct;
        snapshots_stored = All-append _ b.snapshots (row ∷ []) h.snapshots_stored (stored, tt);
        events_stored = h.events_stored;
        attempts_stored = h.attempts_stored;
        numbered = h.numbered;
        milestones = h.milestones;
      })
      | inr missing ↦ rw missing h
    ]

module _ {b : Backend} (row : EventRow) (h : IsConsistent b)
    (stored : IsStored b.promotions row.promotion_id) where
  abbrev with_event : Backend
  with_event = record b {
    events =
        b.events ++ (record { row = row; seq = Backend.next_seq row.promotion_id b.events }) ∷ [];
  }

  with_event-IsConsistent :
      (is_recurring row.event_type ≡ false
        → any (is_event row.promotion_id row.event_type) b.events ≡ false)
      → IsConsistent with_event
  with_event-IsConsistent new = record {
    dict = h.dict;
    ids = h.ids;
    distinct = h.distinct;
    snapshots_stored = h.snapshots_stored;
    events_stored = All-append _ b.events _ h.events_stored (stored, tt);
    attempts_stored = h.attempts_stored;
    numbered = IsNumbered-append_event row b.events h.numbered;
    milestones = AtMostOnce-append_event _ b.events new h.milestones;
  }

pub insert_audit_event-IsConsistent :
    {b : Backend} (row : EventRow)
    → IsConsistent b
    → IsConsistent (Backend.insert_audit_event row b).1
unfolding Backend.insert_audit_event
insert_audit_event-IsConsistent {b} row h =
    elim (Bool-cases (is_some (lookup row.promotion_id b.promotions))) [
      | inr missing ↦ rw missing h
      | inl stored ↦ elim (Bool-cases (is_recurring row.event_type)) [
        | inl recurring ↦ rw (stored, recurring) (with_event-IsConsistent row h stored (λ r. cc))
        | inr milestone ↦
            elim (Bool-cases (any (is_event row.promotion_id row.event_type) b.events)) [
              | inl repeated ↦ rw (stored, milestone, repeated) h
              | inr new ↦
                  rw (stored, milestone, new) (with_event-IsConsistent row h stored (λ r. new))
            ]
      ]
    ]

pub upsert_deployment_attempt-IsConsistent :
    {b : Backend} (row : DeploymentAttempt)
    → IsConsistent b
    → IsConsistent (Backend.upsert_deployment_attempt row b).1
unfolding Backend.upsert_deployment_attempt
upsert_deployment_attempt-IsConsistent {b} row h =
    elim (Bool-cases (is_some (lookup row.promotion_id b.promotions))) [
      | inr missing ↦ rw missing h
      | inl stored ↦
          elim (Bool-cases
            (Backend.is_foreign row.promotion_id (lookup row.id b.deployment_attempts))) [
              | inl foreign ↦ rw (stored, foreign) h
              | inr own ↦
                  rw (stored, own)
                    (record {
                      dict = h.dict;
                      ids = h.ids;
                      distinct = h.distinct;
                      snapshots_stored = h.snapshots_stored;
                      events_stored = h.events_stored;
                      attempts_stored =
                          All-values-insert _ row.id row b.deployment_attempts stored
                            h.attempts_stored;
                      numbered = h.numbered;
                      milestones = h.milestones;
                    })
            ]
    ]
