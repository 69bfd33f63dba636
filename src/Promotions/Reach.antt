-- ===== src/Promotions/Reach.antt =====
-- The runs of the store: one step for each method of `PromotionStore`.
use genie_promote_cicd.Prelude.{
  ℕ, String, ◌≡◌, refl, sym, ◌∙◌, ap, Bool, Option, none, some, List, arith, Bool-cases, inl, inr,
  lookup, Json, ◌==◌, ◌||◌, not, truthy, keep_state,
}
use genie_promote_cicd.ChangeRequest.{AttemptPayload, ChangeRequestObservation}
use genie_promote_cicd.Promotions.Types.{Promotion, EventRow}
use genie_promote_cicd.Promotions.Backend
use genie_promote_cicd.Promotions.Backend.{Backend, empty, belongs, is_event, is_recurring}
use genie_promote_cicd.Promotions.Store
use genie_promote_cicd.Promotions.Store.{NewPromotion, snapshot_row, find_by_change_request}
use genie_promote_cicd.Promotions.Identity.{identity}
use genie_promote_cicd.Promotions.Invariant.{
  IsConsistent, insert_promotion-IsConsistent, update_promotion-IsConsistent,
  insert_snapshot-IsConsistent, insert_audit_event-IsConsistent,
  upsert_deployment_attempt-IsConsistent,
}
use genie_promote_cicd.Promotions.Lookup.{find_by_change_request-stored, is_request-identity}

-- The state that a call leaves, whether it returns or raises.
pub data Step (b : Backend) : Backend → Type 0 where
  create :
      (fresh : String) (now : ℕ) (a : NewPromotion)
      → lookup fresh b.promotions ≡ none
      → Step b (Store.create_promotion fresh now a b).1
  touch : (now : ℕ) (id : String) → Step b (Store.touch now id b).1
  declare :
      (now : ℕ) (id : String) (title : Option String) (audience mapping : Option Json)
      → Step b (Store.update_declarations now id title audience mapping b).1
  rebase :
      (now : ℕ) (p : Promotion) (provider external_id : String) (url content engine : Option String)
      → find_by_change_request provider external_id b ≡ some p
      → Step b (Store.update_change_request now p.id provider external_id url content engine b).1
  cache :
      (now : ℕ) (id : String) (phase : Option String) (status : Option ChangeRequestObservation)
      (terminal : Bool) (at : Option ℕ)
      → Step b (Store.update_cache now id phase status terminal at b).1
  snapshot :
      (fresh : String) (now : ℕ) (id : String) (conclusion summary : Option String)
      (findings : List Json) (eval : Option Json) (timeline : List Json)
      → Step b (Store.append_snapshot fresh now id conclusion summary findings eval timeline b).1
  audit : (row : EventRow) → Step b (Store.append_audit_event row b).1
  rehydrate :
      (fresh : String) (now : ℕ) (resource : String) (title : Option String) (actor mode : String)
      (space : Option String) (detail : Option Json)
      → Step b (Store.append_rehydrate_event fresh now resource title actor mode space detail b).1
  attempt :
      (now : ℕ) (id : String) (evidence : AttemptPayload) (provider : String)
      → Step b (Store.upsert_deployment_attempt now id evidence provider b).1

pub data Reach : Backend → Type 0 where
  start : Reach empty
  next : {b c : Backend} → Reach b → Step b c → Reach c

empty-IsConsistent : IsConsistent empty
empty-IsConsistent = record {
  dict = tt;
  ids = λ k p found. cc;
  distinct = tt;
  snapshots_stored = tt;
  events_stored = tt;
  attempts_stored = tt;
  numbered = λ pid. tt;
  milestones = λ pid t r. omega arith;
}

-- The writes of one promotion's fields.
update_promotion-keeps :
    {b : Backend} (id : String) (f : Promotion → Promotion)
    → ((p : Promotion) → ((f p).id ≡ p.id) × (identity (f p) ≡ identity p))
    → IsConsistent b
    → IsConsistent (Backend.update_promotion id f b).1
update_promotion-keeps id f keeps h = update_promotion-IsConsistent id f (λ p found. keeps p) h

create-IsConsistent :
    {b : Backend} (fresh : String) (now : ℕ) (a : NewPromotion)
    → lookup fresh b.promotions ≡ none
    → IsConsistent b
    → IsConsistent (Store.create_promotion fresh now a b).1
unfolding Store.create_promotion
create-IsConsistent {b} fresh now a new h =
    elim (Bool-cases (not (truthy a.change_provider) || not (truthy a.external_id))) [
      | inl refused ↦ rw refused h
      | inr given ↦
          let p = Store.new_promotion fresh now a in
          rw given (
            keep_state IsConsistent (Backend.insert_promotion p) (λ u. p) b
              (insert_promotion-IsConsistent p new h))
    ]

rebase-IsConsistent :
    {b : Backend} (now : ℕ) (p : Promotion) (provider external_id : String)
    (url content engine : Option String)
    → find_by_change_request provider external_id b ≡ some p
    → IsConsistent b
    → IsConsistent
        (Store.update_change_request now p.id provider external_id url content engine b).1
unfolding Store.update_change_request
rebase-IsConsistent {b} now p provider external_id url content engine found h =
    let (stored, asked) = find_by_change_request-stored b h provider external_id p found in
    update_promotion-IsConsistent p.id _
      (λ q there.
        let same : p ≡ q = cc in
        (refl, sym (is_request-identity provider external_id p asked) ∙ ap identity same))
      h

snapshot-IsConsistent :
    {b : Backend} (fresh : String) (now : ℕ) (id : String) (conclusion summary : Option String)
    (findings : List Json) (eval : Option Json) (timeline : List Json)
    → IsConsistent b
    → IsConsistent
        (Store.append_snapshot fresh now id conclusion summary findings eval timeline b).1
unfolding Store.append_snapshot
snapshot-IsConsistent {b} fresh now id conclusion summary findings eval timeline h =
    let row = snapshot_row fresh now id conclusion summary findings eval timeline in
    keep_state IsConsistent (Backend.insert_snapshot row) (λ u. row) b
      (insert_snapshot-IsConsistent row h)

audit-IsConsistent :
    {b : Backend} (row : EventRow)
    → IsConsistent b
    → IsConsistent (Store.append_audit_event row b).1
unfolding Store.append_audit_event
audit-IsConsistent {b} row h =
    elim (Bool-cases (not (Store.contains Store.event_types row.event_type))) [
      | inl unknown ↦ rw unknown h
      | inr known ↦ rw known (
          keep_state IsConsistent (Backend.insert_audit_event row) (Store.as_event row) b
            (insert_audit_event-IsConsistent row h))
    ]

rehydrate-IsConsistent :
    {b : Backend} (fresh : String) (now : ℕ) (resource : String) (title : Option String)
    (actor mode : String) (space : Option String) (detail : Option Json)
    → IsConsistent b
    → IsConsistent
        (Store.append_rehydrate_event fresh now resource title actor mode space detail b).1
unfolding Store.append_rehydrate_event Backend.insert_rehydrate_event
rehydrate-IsConsistent {b} fresh now resource title actor mode space detail h =
    elim (Bool-cases (actor == "")) [
      | inl missing ↦ rw missing h
      | inr given ↦ elim (Bool-cases (not (mode == "create" || mode == "overwrite"))) [
        | inl unknown ↦ rw (given, unknown) h
        | inr known ↦
            rw (given, known)
              (record {
                dict = h.dict;
                ids = h.ids;
                distinct = h.distinct;
                snapshots_stored = h.snapshots_stored;
                events_stored = h.events_stored;
                attempts_stored = h.attempts_stored;
                numbered = h.numbered;
                milestones = h.milestones;
              })
      ]
    ]

attempt-IsConsistent :
    {b : Backend} (now : ℕ) (id : String) (evidence : AttemptPayload) (provider : String)
    → IsConsistent b
    → IsConsistent (Store.upsert_deployment_attempt now id evidence provider b).1
unfolding Store.upsert_deployment_attempt
attempt-IsConsistent {b} now id evidence provider h =
    elim (Bool-cases (Store.text_or evidence.attempt_id "" == "")) [
      | inl missing ↦ rw missing h
      | inr given ↦
          elim (Bool-cases (
            not (
              Store.contains Store.terminal_states
                (Store.text_or evidence.terminal_state "running")))) [
                  | inl unknown ↦ rw (given, unknown) h
                  | inr known ↦
                      let row = Store.attempt_row now id provider evidence in
                      rw (given, known)
                        (keep_state IsConsistent (Backend.upsert_deployment_attempt row) (λ u. row)
                          b (upsert_deployment_attempt-IsConsistent row h))
                ]
    ]

pub Step-IsConsistent : {b c : Backend} → Step b c → IsConsistent b → IsConsistent c
unfolding Store.touch Store.update_declarations Store.update_cache
Step-IsConsistent (create fresh now a new) h = create-IsConsistent fresh now a new h
Step-IsConsistent (touch now id) h = update_promotion-keeps id _ (λ p. (refl, refl)) h
Step-IsConsistent (declare now id title audience mapping) h =
    update_promotion-keeps id _ (λ p. (refl, refl)) h
Step-IsConsistent (rebase now p provider external_id url content engine found) h =
    rebase-IsConsistent now p provider external_id url content engine found h
Step-IsConsistent (cache now id phase status terminal at) h =
    update_promotion-keeps id _ (λ p. (refl, refl)) h
Step-IsConsistent (snapshot fresh now id conclusion summary findings eval timeline) h =
    snapshot-IsConsistent fresh now id conclusion summary findings eval timeline h
Step-IsConsistent (audit row) h = audit-IsConsistent row h
Step-IsConsistent (rehydrate fresh now resource title actor mode space detail) h =
    rehydrate-IsConsistent fresh now resource title actor mode space detail h
Step-IsConsistent (attempt now id evidence provider) h =
    attempt-IsConsistent now id evidence provider h

-- Every run of the store from the empty one, through any calls of `PromotionStore`'s methods, returning
-- or raising, keeps: each id once and the row's own; each Change Request at most once; each snapshot,
-- event and deployment attempt at a stored promotion; the events of each promotion numbered 1, 2, 3, …
-- in order with no gap; and each milestone at most once for each promotion. A created promotion has an
-- id that is not stored yet, and a promotion is moved to a Change Request only where it was found.
pub Reach-IsConsistent : {b : Backend} → Reach b → IsConsistent b
Reach-IsConsistent start = empty-IsConsistent
Reach-IsConsistent (next r s) = Step-IsConsistent s (Reach-IsConsistent r)
