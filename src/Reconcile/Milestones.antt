-- ===== src/Reconcile/Milestones.antt =====
-- One run of `reconcile`: what it appends to the trail.
use genie_promote_cicd.Prelude.{
  String, ◌≡◌, refl, Bool, true, false, not, ◌&&◌, Option, none, some, List, [], ◌∷◌, arith,
  Bool-cases, inl, inr, any, select, map, ok, bind-keeps,
}
use genie_promote_cicd.ChangeRequest.{AttemptPayload, ChangeRequestObservation}
use genie_promote_cicd.Promotions.Types.{Promotion, EventRow, AuditEvent}
use genie_promote_cicd.Promotions.Backend.{Backend, belongs, is_event, is_recurring}
use genie_promote_cicd.Promotions.Store
use genie_promote_cicd.Promotions.Store.{contains, event_types}
use genie_promote_cicd.Promotions.Invariant.{IsConsistent}
use genie_promote_cicd.Promotions.Reach.{Step-IsConsistent, audit, attempt, cache}
use genie_promote_cicd.Promotions.History.{list_audit_events-appended}
use genie_promote_cicd.Reconcile.Defs.{
  Environment, milestone_order, milestone_row, mirror, append_events, refresh, reconcile, reached,
  missing, event_types_of, gather_facts,
}
use genie_promote_cicd.Reconcile.Append.{Ready}

-- A property of the store that each method keeps.
mirror-IsConsistent :
    (env : Environment) (p : Promotion) (status : ChangeRequestObservation)
    (evidence : Option AttemptPayload) (b : Backend)
    → IsConsistent b
    → IsConsistent (mirror env p status evidence b).1
mirror-IsConsistent env p status none b h = h
mirror-IsConsistent env p status (some evidence) b h =
    bind-keeps IsConsistent
      (Store.upsert_deployment_attempt (env.now "attempt") p.id evidence
        (Store.text_or (some status.provider) "github"))
      (λ a t. (ok tt, t)) b
      (Step-IsConsistent
        (attempt (env.now "attempt") p.id evidence (Store.text_or (some status.provider) "github"))
        h)
      (λ a t k. k)

append_events-IsConsistent :
    (row : String → EventRow) (ms : List String) (b : Backend)
    → IsConsistent b
    → IsConsistent (append_events row ms b).1
unfolding append_events
append_events-IsConsistent row [] b h = h
append_events-IsConsistent row (m ∷ ms) b h =
    bind-keeps IsConsistent (Store.append_audit_event (row m)) (λ a. append_events row ms) b
      (Step-IsConsistent (audit (row m)) h) (λ a t k. append_events-IsConsistent row ms t k)

refresh-IsConsistent :
    (env : Environment) (p : Promotion) (status : ChangeRequestObservation) (ms : List String)
    (b : Backend)
    → IsConsistent b
    → IsConsistent (refresh env p status ms b).1
unfolding refresh
refresh-IsConsistent env p status ms b h = ground (
  arith,
  Step-IsConsistent
      (cache (env.now "cache") p.id (some status.phase) (some status)
        (contains Store.terminal_phases status.phase) none)
      h,
)

-- `reconcile` keeps the store consistent, whether it returns or raises.
pub reconcile-IsConsistent :
    (env : Environment) (p : Promotion) (status : ChangeRequestObservation) (b : Backend)
    → IsConsistent b
    → IsConsistent (reconcile env p status b).1
unfolding reconcile
reconcile-IsConsistent env p status b h =
    let to_append = missing (reached status) (event_types_of p.id b) in
    let row = milestone_row env p status (gather_facts env p to_append) in
    bind-keeps IsConsistent (mirror env p status status.deployment.attempt) _ b
      (mirror-IsConsistent env p status status.deployment.attempt b h)
      (λ u s k.
        bind-keeps IsConsistent (append_events row to_append) _ s
          (append_events-IsConsistent row to_append s k)
          (λ v t l.
            bind-keeps IsConsistent (refresh env p status to_append) _ t
              (refresh-IsConsistent env p status to_append t l) (λ w x y. y)))

-- The recorded types of a promotion's events.
contains-types :
    (pid m : String) (events : List AuditEvent)
    → contains (map (λ e. e.event_type) (select (belongs pid) events)) m
      ≡ any (is_event pid m) events
contains-types pid m [] = refl
contains-types pid m (e ∷ events) = ground (arith, contains-types pid m events)

pub contains-event_types_of :
    (pid m : String) (b : Backend)
    → IsConsistent b
    → contains (event_types_of pid b) m ≡ any (is_event pid m) b.events
unfolding event_types_of
contains-event_types_of pid m b h =
    rw (list_audit_events-appended b pid h).0 (contains-types pid m b.events)

-- The milestones are known, occur once, and are no recurring events.
abbrev AreMilestones : List String → Type 0
AreMilestones [] = Unit
AreMilestones (m ∷ ms) =
    (contains event_types m ≡ true)
    × (is_recurring m ≡ false)
    × (contains ms m ≡ false)
    × AreMilestones ms

contains-select :
    (p : String → Bool) (ms : List String) (m : String)
    → contains ms m ≡ false
    → contains (select p ms) m ≡ false
contains-select p [] m h = refl
contains-select p (n ∷ ms) m h = ground (arith, contains-select p ms m)

Ready-select :
    (pid : String) (row : String → EventRow) (p : String → Bool) (ms : List String)
    (events : List AuditEvent)
    → AreMilestones ms
    → ((m : String) → p m ≡ true → any (is_event pid m) events ≡ false)
    → Ready pid row (select p ms) events
Ready-select pid row p [] events h new = tt
Ready-select pid row p (m ∷ ms) events h new = elim (Bool-cases (p m)) [
  | inl t ↦
      rw t (h.0, h.1, new m t, contains-select p ms m h.2, Ready-select pid row p ms events h.3 new)
  | inr f ↦ rw f (Ready-select pid row p ms events h.3 new)
]

is_missing : (a c x : Bool) → c ≡ x → (a && not c) ≡ true → x ≡ false
is_missing a c x h k = ground arith

pub Ready-missing :
    (pid : String) (row : String → EventRow) (found : List String) (b : Backend)
    → IsConsistent b
    → Ready pid row (missing found (event_types_of pid b)) b.events
unfolding missing
Ready-missing pid row found b h =
    Ready-select pid row (λ m. contains found m && not (contains (event_types_of pid b) m))
      milestone_order b.events
      ((
        refl,
        refl,
        refl,
        (
          refl,
          refl,
          refl,
          (
            refl,
            refl,
            refl,
            (refl, refl, refl, (refl, refl, refl, (refl, refl, refl, (refl, refl, refl, tt)))),
          ),
        ),
      ))
      (λ m t.
        is_missing (contains found m) (contains (event_types_of pid b) m)
          (any (is_event pid m) b.events) (contains-event_types_of pid m b h) t)
