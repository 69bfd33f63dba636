-- ===== src/Reconcile/Append.antt =====
-- What the loop over the missing milestones writes.
use mathlib.Core.List.{append-nil, append_assoc}
use genie_promote_cicd.Prelude.{
  String, ◌≡◌, refl, ap, ◌∙◌, true, false, some, List, [], ◌∷◌, ◌++◌, arith, ◌==◌, eq_iff, any,
  any-append, select, map, lookup, is_some, ok,
}
use genie_promote_cicd.Promotions.Types.{EventRow, AuditEvent}
use genie_promote_cicd.Promotions.Backend
use genie_promote_cicd.Promotions.Backend.{Backend, belongs, is_event, is_recurring, next_seq}
use genie_promote_cicd.Promotions.Store
use genie_promote_cicd.Promotions.Store.{contains, event_types}
use genie_promote_cicd.Reconcile.Defs.{append_events}

abbrev pub numbered : EventRow → List AuditEvent → AuditEvent
numbered row events = record { row = row; seq = next_seq row.promotion_id events }

-- A milestone that is not recorded yet is appended.
append_new :
    (row : EventRow) (b : Backend)
    → contains event_types row.event_type ≡ true
    → is_some (lookup row.promotion_id b.promotions) ≡ true
    → is_recurring row.event_type ≡ false
    → any (is_event row.promotion_id row.event_type) b.events ≡ false
    → Store.append_audit_event row b ≡ (
      ok (some (numbered row b.events)),
      record b { events = b.events ++ numbered row b.events ∷ [] },
    )
unfolding Store.append_audit_event Backend.insert_audit_event
append_new row b known stored milestone new = rw (known, stored, milestone, new) refl

module _ (pid : String) (row : String → EventRow) where
  -- The events that the loop adds to those of the trail.
  abbrev pub appended : List String → List AuditEvent → List AuditEvent
  appended [] events = []
  appended (m ∷ ms) events = let e = numbered (row m) events in e ∷ appended ms (events ++ e ∷ [])

  -- Each event is known and is a milestone that is not recorded yet, and none comes twice.
  abbrev pub Ready : List String → List AuditEvent → Type 0
  Ready [] events = Unit
  Ready (m ∷ ms) events =
      (contains event_types m ≡ true)
      × (is_recurring m ≡ false)
      × (any (is_event pid m) events ≡ false)
      × (contains ms m ≡ false)
      × Ready ms events

  module _ (owner : (m : String) → (row m).promotion_id ≡ pid)
      (kind : (m : String) → (row m).event_type ≡ m) where
    Ready-snoc :
        (m : String) (e : AuditEvent) (ms : List String) (events : List AuditEvent)
        → e.event_type ≡ m
        → contains ms m ≡ false
        → Ready ms events
        → Ready ms (events ++ e ∷ [])
    Ready-snoc m e [] events same absent h = tt
    Ready-snoc m e (n ∷ ms) events same absent h = (
      h.0,
      h.1,
      ground (
        arith,
        any-append (is_event pid n) events (e ∷ []),
        eq_iff e.event_type n,
        eq_iff n m,
        h.2,
      ),
      h.3,
      Ready-snoc m e ms events same (ground arith) h.4,
    )

    append_one :
        (m : String) (b : Backend)
        → is_some (lookup pid b.promotions) ≡ true
        → contains event_types m ≡ true
        → is_recurring m ≡ false
        → any (is_event pid m) b.events ≡ false
        → Store.append_audit_event (row m) b ≡ (
          ok (some (numbered (row m) b.events)),
          record b { events = b.events ++ numbered (row m) b.events ∷ [] },
        )
    append_one m b stored known milestone new =
        append_new (row m) b (rw kind known) (rw owner stored) (rw kind milestone)
          (rw (owner, kind) new)

    pub append_events_lem :
        (ms : List String) (b : Backend)
        → is_some (lookup pid b.promotions) ≡ true
        → Ready ms b.events
        → append_events row ms b ≡ (ok tt, record b { events = b.events ++ appended ms b.events })
    unfolding append_events
    append_events_lem [] b stored h = rw append-nil refl
    append_events_lem (m ∷ ms) b stored h =
        let e = numbered (row m) b.events in
        let c = record b { events = b.events ++ e ∷ [] } in
        rw (append_one m b stored h.0 h.1 h.2) (
          append_events_lem ms c stored (Ready-snoc m e ms b.events (kind m) h.3 h.4)
          ∙ ap (λ l. (ok tt, record b { events = l }))
              (append_assoc b.events (e ∷ []) (appended ms c.events)))

-- The promotion and the type of what the loop adds.
pub appended-types :
    (pid : String) (row : String → EventRow)
    → ((m : String) → (row m).promotion_id ≡ pid)
    → ((m : String) → (row m).event_type ≡ m)
    → (ms : List String) (events : List AuditEvent)
    → (select (belongs pid) (appended pid row ms events) ≡ appended pid row ms events)
      × (map (λ e. e.event_type) (appended pid row ms events) ≡ ms)
appended-types pid row owner kind [] events = (refl, refl)
appended-types pid row owner kind (m ∷ ms) events =
    let e = numbered (row m) events in
    let (own, types) = appended-types pid row owner kind ms (events ++ e ∷ []) in
    let mine : (row m).promotion_id == pid ≡ true = (eq_iff (row m).promotion_id pid).1 (owner m) in
    (rw mine (ap (λ l. e ∷ l) own), ground (arith, kind m, types))
