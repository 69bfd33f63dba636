-- ===== src/Reconcile/Outcome.antt =====
-- What `reconcile` returns and what it leaves in the trail.
use mathlib.Core.List.{map-append}
use genie_promote_cicd.Prelude.{
  ℕ, String, ◌≡◌, refl, sym, ap, ◌∙◌, Bool, true, false, not, ◌||◌, Option, none, some, List, ◌++◌,
  arith, select, select-append, map, lookup, is_some, ok, Exec, pure, Dict, or_else, same_text,
  if◌then◌else◌,
}
use genie_promote_cicd.ChangeRequest.{AttemptPayload, ChangeRequestObservation}
use genie_promote_cicd.Promotions.Types.{Promotion, EventRow, AuditEvent}
use genie_promote_cicd.Promotions.Backend
use genie_promote_cicd.Promotions.Backend.{Backend, belongs, is_event}
use genie_promote_cicd.Promotions.Store
use genie_promote_cicd.Promotions.Store.{contains}
use genie_promote_cicd.Promotions.Invariant.{IsConsistent, IsStored-insert}
use genie_promote_cicd.Promotions.History.{list_audit_events-appended, attempt-events}
use genie_promote_cicd.Reconcile.Defs.{
  Environment, milestone_row, mirror, append_events, refresh, reconcile, reached, missing,
  event_types_of, gather_facts, is_empty,
}
use genie_promote_cicd.Reconcile.Append.{appended, append_events_lem, appended-types}
use genie_promote_cicd.Reconcile.Milestones.{reconcile-IsConsistent, Ready-missing}

upsert-promotions :
    (now : ℕ) (id : String) (evidence : AttemptPayload) (provider : String) (b : Backend)
    → (Store.upsert_deployment_attempt now id evidence provider b).1.promotions ≡ b.promotions
unfolding Store.upsert_deployment_attempt Backend.upsert_deployment_attempt
upsert-promotions now id evidence provider b = ground arith

mirror-keeps :
    (env : Environment) (p : Promotion) (status : ChangeRequestObservation)
    (evidence : Option AttemptPayload) (b : Backend)
    → ((mirror env p status evidence b).1.events ≡ b.events)
      × ((mirror env p status evidence b).1.promotions ≡ b.promotions)
mirror-keeps env p status none b = (refl, refl)
mirror-keeps env p status (some evidence) b =
    let now = env.now "attempt" in
    let provider = Store.text_or (some status.provider) "github" in
    ground (
      arith,
      attempt-events now p.id evidence provider b,
      upsert-promotions now p.id evidence provider b,
    )

refresh_lem :
    (env : Environment) (p : Promotion) (status : ChangeRequestObservation) (ms : List String)
    (b : Backend)
    → ((refresh env p status ms b).0 ≡ ok tt) × ((refresh env p status ms b).1.events ≡ b.events)
unfolding refresh Store.update_cache Backend.update_promotion
refresh_lem env p status ms b = ground arith

rewrite-IsStored :
    (id : String) (f : Promotion → Promotion) (o : Option Promotion) (d : Dict Promotion)
    → is_some (lookup id d) ≡ true
    → is_some (lookup id (Backend.rewrite id f o d)) ≡ true
rewrite-IsStored id f none d h = h
rewrite-IsStored id f (some p) d h = IsStored-insert id (f p) d id h

pub update_promotion-stored :
    (id : String) (f : Promotion → Promotion) (b : Backend)
    → is_some (lookup id b.promotions) ≡ true
    → is_some (lookup id (Backend.update_promotion id f b).1.promotions) ≡ true
unfolding Backend.update_promotion
update_promotion-stored id f b h = rewrite-IsStored id f (lookup id b.promotions) b.promotions h

if-keeps :
    {S : Type 0} (P : S → Type 0) (test : Bool) (m n : Exec S Unit) (s : S)
    → P (m s).1
    → P (n s).1
    → P ((if test then m else n) s).1
if-keeps P true m n s h k = h
if-keeps P false m n s h k = k

update_cache-stored :
    (now : ℕ) (id : String) (phase : Option String) (status : Option ChangeRequestObservation)
    (terminal : Bool) (at : Option ℕ) (b : Backend)
    → is_some (lookup id b.promotions) ≡ true
    → is_some (lookup id (Store.update_cache now id phase status terminal at b).1.promotions) ≡ true
unfolding Store.update_cache
update_cache-stored now id phase status terminal at b h =
    update_promotion-stored id
      (λ p. record p {
        current_phase = phase;
        live_status = status;
        terminal = terminal;
        last_reconciled_at = some (or_else at now);
        updated_at = or_else at now;
      })
      b h

refresh-stored :
    (env : Environment) (p : Promotion) (status : ChangeRequestObservation) (ms : List String)
    (b : Backend)
    → is_some (lookup p.id b.promotions) ≡ true
    → is_some (lookup p.id (refresh env p status ms b).1.promotions) ≡ true
unfolding refresh
refresh-stored env p status ms b h =
    let terminal = contains Store.terminal_phases status.phase in
    if-keeps (λ c. is_some (lookup p.id c.promotions) ≡ true)
      (not (is_empty ms) || not (same_text (some status.phase) p.current_phase))
      (Store.update_cache (env.now "cache") p.id (some status.phase) (some status) terminal none)
      (pure tt) b
      (update_cache-stored (env.now "cache") p.id (some status.phase) (some status) terminal none b
        h)
      h

types_append :
    (pid : String) (xs ys : List AuditEvent)
    → select (belongs pid) ys ≡ ys
    → map (λ e. e.event_type) (select (belongs pid) (xs ++ ys))
      ≡ map (λ e. e.event_type) (select (belongs pid) xs) ++ map (λ e. e.event_type) ys
types_append pid xs ys own =
    rw
      (
        select-append (belongs pid) xs ys,
        own,
        map-append (λ e. e.event_type) (select (belongs pid) xs) ys,
      )
      refl

module _ (env : Environment) (p : Promotion) (status : ChangeRequestObservation) (b : Backend)
    (h : IsConsistent b) (stored : is_some (lookup p.id b.promotions) ≡ true)
    (mirrored : (mirror env p status status.deployment.attempt b).0 ≡ ok tt) where
  abbrev to_append : List String
  to_append = missing (reached status) (event_types_of p.id b)

  abbrev rows : String → EventRow
  rows = milestone_row env p status (gather_facts env p to_append)

  abbrev after_mirror : Backend
  after_mirror = (mirror env p status status.deployment.attempt b).1

  abbrev after_events : Backend
  after_events = record after_mirror {
    events = after_mirror.events ++ appended p.id rows to_append after_mirror.events;
  }

  events_appended : append_events rows to_append after_mirror ≡ (ok tt, after_events)
  events_appended =
      let (same_events, same_promotions) = mirror-keeps env p status status.deployment.attempt b in
      append_events_lem p.id rows (λ m. refl) (λ m. refl) to_append after_mirror
        (rw same_promotions stored) (rw same_events (Ready-missing p.id rows (reached status) b h))

  outcome :
      reconcile env p status b ≡ (ok to_append, (refresh env p status to_append after_events).1)
  unfolding reconcile
  outcome = ground (arith, events_appended, refresh_lem env p status to_append after_events)

  added : List AuditEvent
  added = appended p.id rows to_append after_mirror.events

  listed :
      (c : Backend)
      → IsConsistent c
      → c.events ≡ after_events.events
      → event_types_of p.id c ≡ event_types_of p.id b ++ to_append
  unfolding event_types_of added
  listed c k same =
      let (own, types) =
        appended-types p.id rows (λ m. refl) (λ m. refl) to_append after_mirror.events in
      ap (map (λ e. e.event_type))
        ((list_audit_events-appended c p.id k).0 ∙ ap (select (belongs p.id)) same)
      ∙ types_append p.id after_mirror.events added own
      ∙ ap (λ l. map (λ e. e.event_type) (select (belongs p.id) l) ++ map (λ e. e.event_type) added)
          (mirror-keeps env p status status.deployment.attempt b).0
      ∙ ap (λ l. map (λ e. e.event_type) l ++ map (λ e. e.event_type) added)
          (sym (list_audit_events-appended b p.id h).0)
      ∙ ap (λ l. event_types_of p.id b ++ l) types

  -- In a consistent store that has the promotion, and where the deployment evidence is accepted,
  -- `reconcile` returns the reached milestones that the trail did not have, in their fixed order, and
  -- the trail then has exactly those types more, at its end.
  pub reconcile-appends :
      ((reconcile env p status b).0 ≡ ok (missing (reached status) (event_types_of p.id b)))
      × (event_types_of p.id (reconcile env p status b).1
          ≡ event_types_of p.id b ++ missing (reached status) (event_types_of p.id b))
  reconcile-appends = (
    ap (λ r. r.0) outcome,
    listed (reconcile env p status b).1 (reconcile-IsConsistent env p status b h)
        (ap (λ r. r.1.events) outcome ∙ (refresh_lem env p status to_append after_events).1),
  )

  -- A run of `reconcile` loses no promotion.
  pub reconcile-stored : is_some (lookup p.id (reconcile env p status b).1.promotions) ≡ true
  reconcile-stored =
      let (same_events, same_promotions) = mirror-keeps env p status status.deployment.attempt b in
      rw outcome (refresh-stored env p status to_append after_events (rw same_promotions stored))
