-- ===== src/Promotions/Backend.antt =====
-- app/promotion_store.py, `InMemoryBackend`: the rows of the five tables, and each method as an action
-- that may raise.
use Prim.Native.Nat.{Ordering}
use Prim.Native.String.{compare}
use genie_promote_cicd.Prelude.{
  ℕ, ◌+◌, max, String, Bool, true, false, not, ◌&&◌, ◌||◌, Option, none, some, List, [], ◌∷◌, ◌++◌,
  Dict, lookup, insert, values, Exec, pure, throw, modify, ◌>>◌, value_error,
  duplicate_change_request, ◌==◌, ltb, leb, if◌then◌else◌, truthy, same_text, is_some, any, select,
  map, take, drop, sort_by, ℤ, max_zero,
}
use genie_promote_cicd.Promotions.Types.{
  Promotion, ReviewSnapshot, EventRow, AuditEvent, RecentEvent, RehydrateEvent, DeploymentAttempt,
}

pub record Backend : Type 0 where
  pub promotions : Dict Promotion
  pub snapshots : List ReviewSnapshot
  pub events : List AuditEvent
  pub rehydrate_events : List RehydrateEvent
  pub deployment_attempts : Dict DeploymentAttempt
  pub migrated : Bool

abbrev pub empty : Backend
empty = record {
  promotions = [];
  snapshots = [];
  events = [];
  rehydrate_events = [];
  deployment_attempts = [];
  migrated = false;
}

abbrev pub recurring_events : List String
recurring_events = "requested" ∷ "re_reviewed" ∷ "rehydrated" ∷ []

abbrev pub is_recurring : String → Bool
is_recurring event_type = any (λ t. t == event_type) recurring_events

unfoldable pub migrate : Exec Backend Unit
migrate = modify (λ b. record b { migrated = true })

-- Whether a stored promotion has this Change Request.
abbrev pub has_change_request : Option String → Option String → Promotion → Bool
has_change_request provider external_id p =
    same_text p.change_provider provider && same_text p.external_id external_id

unfoldable pub insert_promotion : Promotion → Exec Backend Unit
insert_promotion row b =
    if not (truthy row.change_provider) || not (truthy row.external_id)
    then throw value_error b
    else if any (has_change_request row.change_provider row.external_id) (values b.promotions)
    then throw duplicate_change_request b
    else modify (λ c. record c { promotions = insert row.id row c.promotions }) b

-- `_require_promotion`, with the rest of the method that calls it.
abbrev pub require_promotion : {A : Type 0} → String → Exec Backend A → Exec Backend A
require_promotion promotion_id rest b =
    if is_some (lookup promotion_id b.promotions) then rest b else throw value_error b

unfoldable pub get_promotion : String → Backend → Option Promotion
get_promotion promotion_id b = lookup promotion_id b.promotions

-- Newest first.
abbrev pub newer_promotion : Promotion → Promotion → Bool
newer_promotion p q = leb q.created_at p.created_at

unfoldable pub list_promotions : Option String → Backend → List Promotion
list_promotions none b = sort_by newer_promotion (values b.promotions)
list_promotions (some email) b =
    sort_by newer_promotion
      (select (λ p. same_text p.requester_email (some email)) (values b.promotions))

unfoldable pub list_non_terminal : Backend → List Promotion
list_non_terminal b = select (λ p. not p.terminal) (values b.promotions)

abbrev pub rewrite :
    String → (Promotion → Promotion) → Option Promotion → Dict Promotion → Dict Promotion
rewrite promotion_id f none d = d
rewrite promotion_id f (some p) d = insert promotion_id (f p) d

-- The fields that are given anew are those that `f` changes. An id that is not there is ignored.
unfoldable pub update_promotion : String → (Promotion → Promotion) → Exec Backend Unit
update_promotion promotion_id f = modify (λ b. record b {
  promotions = rewrite promotion_id f (lookup promotion_id b.promotions) b.promotions;
})

unfoldable pub insert_snapshot : ReviewSnapshot → Exec Backend Unit
insert_snapshot row =
    require_promotion row.promotion_id
      (modify (λ b. record b { snapshots = b.snapshots ++ row ∷ [] }))

unfoldable pub list_snapshots : String → Backend → List ReviewSnapshot
list_snapshots promotion_id b =
    sort_by (λ s t. leb s.created_at t.created_at)
      (select (λ s. s.promotion_id == promotion_id) b.snapshots)

abbrev pub belongs : String → AuditEvent → Bool
belongs promotion_id e = e.promotion_id == promotion_id

abbrev pub is_event : String → String → AuditEvent → Bool
is_event promotion_id event_type e = e.promotion_id == promotion_id && e.event_type == event_type

-- `max((e["seq"] for e in ...), default=0)`
abbrev pub max_seq : List AuditEvent → ℕ
max_seq [] = 0
max_seq (e ∷ es) = max e.seq (max_seq es)

abbrev pub next_seq : String → List AuditEvent → ℕ
next_seq promotion_id es = 1 + max_seq (select (belongs promotion_id) es)

abbrev append_event : EventRow → Exec Backend (Option ℕ)
append_event row b =
    let seq = next_seq row.promotion_id b.events in
    (modify (λ c. record c { events = c.events ++ (record { row = row; seq = seq }) ∷ [] })
        >> pure (some seq))
      b

unfoldable pub insert_audit_event : EventRow → Exec Backend (Option ℕ)
insert_audit_event row = require_promotion row.promotion_id λ b.
    if not (is_recurring row.event_type) && any (is_event row.promotion_id row.event_type) b.events
    then pure none b
    else append_event row b

unfoldable pub list_audit_events : String → Backend → List AuditEvent
list_audit_events promotion_id b =
    sort_by (λ d e. leb d.seq e.seq) (select (belongs promotion_id) b.events)

abbrev joined : Option Promotion → AuditEvent → RecentEvent
joined none e = record { event = e; resource_id = none; resource_title = none }
joined (some p) e = record {
  event = e;
  resource_id = some p.resource_id;
  resource_title = p.resource_title;
}

abbrev pub join : Backend → AuditEvent → RecentEvent
join b e = joined (lookup e.promotion_id b.promotions) e

abbrev pub on_resource : Option String → RecentEvent → Bool
on_resource none e = true
on_resource (some r) e = same_text e.resource_id (some r)

abbrev pub by_actor : Option String → RecentEvent → Bool
by_actor none e = true
by_actor (some a) e =
    same_text e.actor_github_login (some a) || same_text e.actor_app_email (some a)

abbrev pub not_before : Option ℕ → RecentEvent → Bool
not_before none e = true
not_before (some t) e = leb t e.occurred_at

abbrev pub not_after : Option ℕ → RecentEvent → Bool
not_after none e = true
not_after (some t) e = leb e.occurred_at t

-- The filters of `list_recent_audit_events`; None leaves all through.
pub record Filters : Type 0 where
  pub resource_id : Option String
  pub actor : Option String
  pub after : Option ℕ
  pub before : Option ℕ

abbrev text_then : Ordering → Bool → Bool
text_then Ordering.lt rest = true
text_then Ordering.eq rest = rest
text_then Ordering.gt rest = false

-- The order of the keys (occurred_at, promotion_id, seq), the greatest first.
abbrev pub newer_event : RecentEvent → RecentEvent → Bool
newer_event d e =
    if ltb e.occurred_at d.occurred_at
    then true
    else if ltb d.occurred_at e.occurred_at
    then false
    else text_then (compare e.promotion_id d.promotion_id) (leb e.seq d.seq)

unfoldable pub matching_events : Filters → Backend → List RecentEvent
matching_events f b = sort_by newer_event (
    select (not_after f.before) (
      select (not_before f.after)
        (select (by_actor f.actor) (select (on_resource f.resource_id) (map (join b) b.events)))))

unfoldable pub list_recent_audit_events : (limit offset : ℤ) → Filters → Backend → List RecentEvent
unfolding matching_events
list_recent_audit_events limit offset f b =
    take (max_zero limit) (drop (max_zero offset) (matching_events f b))

unfoldable pub insert_rehydrate_event : RehydrateEvent → Exec Backend Unit
insert_rehydrate_event row =
    modify (λ b. record b { rehydrate_events = b.rehydrate_events ++ row ∷ [] })

abbrev of_resource : Option String → RehydrateEvent → Bool
of_resource none e = true
of_resource (some r) e = e.resource_id == r

unfoldable pub list_rehydrate_events : Option String → ℤ → Backend → List RehydrateEvent
list_rehydrate_events resource_id limit b = take (max_zero limit) (
    sort_by (λ d e. leb e.created_at d.created_at)
      (select (of_resource resource_id) b.rehydrate_events))

-- `existing and existing["promotion_id"] != row["promotion_id"]`
abbrev pub is_foreign : String → Option DeploymentAttempt → Bool
is_foreign promotion_id none = false
is_foreign promotion_id (some a) = not (a.promotion_id == promotion_id)

unfoldable pub upsert_deployment_attempt : DeploymentAttempt → Exec Backend Unit
upsert_deployment_attempt row = require_promotion row.promotion_id λ b.
    if is_foreign row.promotion_id (lookup row.id b.deployment_attempts)
    then throw value_error b
    else modify (λ c. record c { deployment_attempts = insert row.id row c.deployment_attempts }) b

abbrev older_attempt : DeploymentAttempt → DeploymentAttempt → Bool
older_attempt a c =
    if ltb a.updated_at c.updated_at
    then true
    else if ltb c.updated_at a.updated_at
    then false
    else text_then (compare a.id c.id) true

unfoldable pub list_deployment_attempts : String → Backend → List DeploymentAttempt
list_deployment_attempts promotion_id b =
    sort_by older_attempt
      (select (λ a. a.promotion_id == promotion_id) (values b.deployment_attempts))
