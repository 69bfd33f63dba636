-- ===== src/Engine/Recording.antt =====
-- engine_api/main.py, `_persist_promotion`: its second half, on a stored promotion.
use genie_promote_cicd.Prelude.{
  ℕ, String, ◌≡◌, refl, sym, ap, ◌∙◌, subst, Bool, true, false, Option, none, some, List, [], ◌∷◌,
  arith, ok, lookup, any, lookup-insert, eq_refl, Exec, and_then, ◌>>=◌, any-append, if◌then◌else◌,
  Json,
}
use genie_promote_cicd.Promotions.Types.{Promotion, EventRow, AuditEvent, Detail}
use genie_promote_cicd.Promotions.Backend
use genie_promote_cicd.Promotions.Backend.{Backend, newer_promotion, is_recurring, is_event}
use genie_promote_cicd.Promotions.Store
use genie_promote_cicd.Promotions.Store.{contains, event_types, is_request, find_by_change_request}
use genie_promote_cicd.Engine.Persist.{
  Request, or_none, detail_of, redeclare, event_of, record_request,
}

-- The promotion of the Change Request is stored under the id.
abbrev pub Asked : String → String → String → Backend → Type 0
Asked provider external_id id b =
    (p : Promotion) × (lookup id b.promotions ≡ some p) × (is_request provider external_id p ≡ true)

update_promotion-Asked :
    (provider external_id id : String) (f : Promotion → Promotion) (b : Backend)
    → ((p : Promotion)
        → is_request provider external_id p ≡ true
        → is_request provider external_id (f p) ≡ true)
    → Asked provider external_id id b
    → Asked provider external_id id (Backend.update_promotion id f b).1
unfolding Backend.update_promotion
update_promotion-Asked provider external_id id f b keeps (p, found, asked) =
    rw found (f p, lookup-insert id id (f p) b.promotions ∙ rw (eq_refl id) refl, keeps p asked)

snapshot-returns :
    (fresh : String) (now : ℕ) (id : String) (conclusion summary : Option String)
    (findings : List Json) (eval : Option Json) (timeline : List Json) (b : Backend)
    {provider external_id : String}
    → Asked provider external_id id b
    → ((Store.append_snapshot fresh now id conclusion summary findings eval timeline b).0
        ≡ ok (Store.snapshot_row fresh now id conclusion summary findings eval timeline))
      × Asked provider external_id id
          (Store.append_snapshot fresh now id conclusion summary findings eval timeline b).1
unfolding Store.append_snapshot Backend.insert_snapshot
snapshot-returns fresh now id conclusion summary findings eval timeline b (p, found, asked) =
    rw found (refl, (p, found, asked))

declarations-returns :
    (now : ℕ) (id : String) (title : Option String) (audience mapping : Option Json) (b : Backend)
    {provider external_id : String}
    → Asked provider external_id id b
    → ((Store.update_declarations now id title audience mapping b).0 ≡ ok tt)
      × Asked provider external_id id (Store.update_declarations now id title audience mapping b).1
unfolding Store.update_declarations Backend.update_promotion
declarations-returns now id title audience mapping b {provider} {external_id} h = (
  refl,
  update_promotion-Asked provider external_id id
      (λ p. record p {
        resource_title = title;
        audience_spec = audience;
        table_mapping = mapping;
        updated_at = now;
      })
      b (λ p t. t) h,
)

change_request-returns :
    (now : ℕ) (id provider external_id : String) (url content engine : Option String) (b : Backend)
    → Asked provider external_id id b
    → ((Store.update_change_request now id provider external_id url content engine b).0 ≡ ok tt)
      × Asked provider external_id id
          (Store.update_change_request now id provider external_id url content engine b).1
unfolding Store.update_change_request Backend.update_promotion
change_request-returns now id provider external_id url content engine b h = (
  refl,
  update_promotion-Asked provider external_id id
      (λ p. record p {
        change_provider = some provider;
        external_id = some external_id;
        external_url = url;
        content_revision = content;
        engine_revision = engine;
        updated_at = now;
      })
      b (λ p t. ground (arith, eq_refl provider, eq_refl external_id)) h,
)

-- A sequence whose first part returns goes on with its second.
goes_on :
    {S A B : Type 0} (m : Exec S A) (f : A → Exec S B) (s : S) (a : A)
    → (m s).0 ≡ ok a
    → (m >>= f) s ≡ f a (m s).1
goes_on m f s a h = ap (λ r. and_then r f (m s).1) h

redeclare-returns :
    (again : Bool) (now : ℕ) (id : String) (r : Request) (b : Backend)
    → Asked r.provider r.external_id id b
    → ((redeclare again now id r b).0 ≡ ok tt)
      × Asked r.provider r.external_id id (redeclare again now id r b).1
redeclare-returns false now id r b h = (refl, h)
redeclare-returns true now id r b h =
    let declare =
      Store.update_declarations now id r.resource_title (or_none r.audience_spec)
        (or_none r.table_mapping) in
    let (first, there) =
      declarations-returns now id r.resource_title (or_none r.audience_spec)
        (or_none r.table_mapping) b h in
    let (second, still) =
      change_request-returns now id r.provider r.external_id r.external_url r.content_revision
        r.engine_revision (declare b).1 there in
    let e =
      goes_on declare
        (λ u.
          Store.update_change_request now id r.provider r.external_id r.external_url
            r.content_revision r.engine_revision)
        b tt first in
    (ap (λ x. x.0) e ∙ second, subst (λ x. Asked r.provider r.external_id id x.1) (sym e) still)

-- An event that may recur is always appended.
audit-returns :
    (row : EventRow) (b : Backend) {provider external_id : String}
    → Asked provider external_id row.promotion_id b
    → contains event_types row.event_type ≡ true
    → is_recurring row.event_type ≡ true
    → (e : Option AuditEvent) × ((Store.append_audit_event row b).0 ≡ ok e)
      × (any (is_event row.promotion_id row.event_type) (Store.append_audit_event row b).1.events
          ≡ true)
      × Asked provider external_id row.promotion_id (Store.append_audit_event row b).1
unfolding Store.append_audit_event Backend.insert_audit_event
audit-returns row b (p, found, asked) known recurs =
    let e : AuditEvent = record { row = row; seq = Backend.next_seq row.promotion_id b.events } in
    rw (known, found, recurs)
      (
        some e,
        refl,
        ground (
          arith,
          any-append (is_event row.promotion_id row.event_type) b.events (e ∷ []),
          eq_refl row.promotion_id,
          eq_refl row.event_type,
        ),
        (p, found, asked),
      )

event-known :
    (again : Bool)
    → (contains event_types (event_of again) ≡ true) × (is_recurring (event_of again) ≡ true)
event-known true = (refl, refl)
event-known false = (refl, refl)

pub record_request-returns :
    (fresh : String → String) (now : ℕ) (r : Request) (again : Bool) (id : String) (b : Backend)
    → Asked r.provider r.external_id id b
    → ((record_request fresh now r again id b).0 ≡ ok id)
      × (any (is_event id (event_of again)) (record_request fresh now r again id b).1.events ≡ true)
      × Asked r.provider r.external_id id (record_request fresh now r again id b).1
unfolding record_request
record_request-returns fresh now r again id b h =
    let snapshot =
      Store.append_snapshot (fresh "snapshot") now id r.gate_conclusion r.gate_summary r.findings
        r.eval r.timeline in
    let (first, there1) =
      snapshot-returns (fresh "snapshot") now id r.gate_conclusion r.gate_summary r.findings r.eval
        r.timeline b h in
    let (second, there2) = redeclare-returns again now id r (snapshot b).1 there1 in
    let row =
      Store.event_row (fresh "event") now id (event_of again) none
        (if again then none else r.requester_email) none
        (some (Detail.mapping (detail_of again r))) in
    let (known, recurs) = event-known again in
    let (e, third, listed, still) =
      audit-returns row (redeclare again now id r (snapshot b).1).1 there2 known recurs in
    let path =
      goes_on snapshot _ b _ first
      ∙ goes_on (redeclare again now id r) _ (snapshot b).1 tt second
      ∙ goes_on (Store.append_audit_event row) (λ v t. (ok id, t))
          (redeclare again now id r (snapshot b).1).1 e third in
    (
      ap (λ x. x.0) path,
      subst (λ x. any (is_event id (event_of again)) x.1.events ≡ true) (sym path) listed,
      subst (λ x. Asked r.provider r.external_id id x.1) (sym path) still,
    )
