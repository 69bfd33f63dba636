-- ===== src/Engine/Requests.antt =====
-- engine_api/main.py, `_persist_promotion`: what comes of a promotion request.
use genie_promote_cicd.Prelude.{
  ℕ, String, ◌≡◌, refl, ap, Bool, true, false, ◌||◌, some, arith, Bool-cases, Option-cases, inl,
  inr, Result, ok, lookup, is_some, any, any-exists, any-mem, find_first_of_any, find_first-mem,
  sort_by, sort_by-mem, mem-sort_by, insert, ◌==◌, lookup-insert, eq_refl, values, if◌then◌else◌,
}
use genie_promote_cicd.Promotions.Types.{Promotion}
use genie_promote_cicd.Promotions.Backend
use genie_promote_cicd.Promotions.Backend.{Backend, newer_promotion, is_recurring, is_event}
use genie_promote_cicd.Promotions.Store
use genie_promote_cicd.Promotions.Store.{contains, event_types, is_request, find_by_change_request}
use genie_promote_cicd.Promotions.Invariant.{IsConsistent}
use genie_promote_cicd.Promotions.Lookup.{find_by_change_request-stored}
use genie_promote_cicd.Engine.Persist.{
  Request, event_of, record_request, after_create, new_promotion_of, persist_promotion,
}
use genie_promote_cicd.Engine.Recording.{Asked, record_request-returns}

-- Where a Change Request is stored, it is found.
found_of_any :
    (provider external_id : String) (c : Backend)
    → any (is_request provider external_id) (values c.promotions) ≡ true
    → (p : Promotion) × (find_by_change_request provider external_id c ≡ some p)
unfolding find_by_change_request Backend.list_promotions
found_of_any provider external_id c h =
    let asked = is_request provider external_id in
    let (q, m, t) = any-exists asked (values c.promotions) h in
    find_first_of_any asked (sort_by newer_promotion (values c.promotions))
      (any-mem asked (sort_by-mem newer_promotion m) t)

-- Where it is not, it is not found.
absent_of_none :
    (provider external_id : String) (c : Backend)
    → any (is_request provider external_id) (values c.promotions) ≡ false
    → is_some (find_by_change_request provider external_id c) ≡ false
unfolding find_by_change_request Backend.list_promotions
absent_of_none provider external_id c h =
    elim (Option-cases (find_by_change_request provider external_id c)) [
      | inl absent ↦ ap is_some absent
      | inr (p, found) ↦
          let asked = is_request provider external_id in
          let (m, t) = find_first-mem asked (sort_by newer_promotion (values c.promotions)) found in
          let there : any asked (values c.promotions) ≡ true =
            any-mem asked (mem-sort_by newer_promotion (values c.promotions) m) t in
          absurd (cc)
    ]

-- The Change Request of the request is stored.
abbrev pub is_known : Request → Backend → Bool
is_known r b = is_some (find_by_change_request r.provider r.external_id b)

module _ (fresh : String → String) (now : ℕ) (r : Request)
    (named : (r.provider == "" || r.external_id == "") ≡ false) where
  abbrev Recorded : Bool → Result String × Backend → Type 0
  Recorded again o =
      (id : String) × (o.0 ≡ ok id)
      × (any (is_event id (event_of again)) o.1.events ≡ true)
      × Asked r.provider r.external_id id o.1

  found-Recorded :
      (b : Backend) (p : Promotion)
      → IsConsistent b
      → find_by_change_request r.provider r.external_id b ≡ some p
      → Recorded true (record_request fresh now r true p.id b)
  found-Recorded b p k found =
      let (stored, asked) = find_by_change_request-stored b k r.provider r.external_id p found in
      let (result, event, still) =
        record_request-returns fresh now r true p.id b (p, stored, asked) in
      (p.id, result, event, still)

  created-Recorded :
      (c : Backend)
      → IsConsistent c
      → Recorded (is_known r c) (
          after_create fresh now r
            (Store.create_promotion (fresh "promotion") now (new_promotion_of r) c))
  unfolding Store.create_promotion Backend.insert_promotion Backend.list_promotions
      find_by_change_request record_request
  created-Recorded c k =
      let (provider, external) = neither (r.provider == "") (r.external_id == "") named in
      elim (Bool-cases (any (is_request r.provider r.external_id) (values c.promotions))) [
        | inl there ↦
            let (p, found) = found_of_any r.provider r.external_id c there in
            rw (provider, external, there) (rw found (found-Recorded c p k found))
        | inr new ↦
            let p = Store.new_promotion (fresh "promotion") now (new_promotion_of r) in
            let d = record c { promotions = insert p.id p c.promotions } in
            let stored : lookup p.id d.promotions ≡ some p =
              rw (lookup-insert p.id p.id p c.promotions, eq_refl p.id) refl in
            let own : is_request r.provider r.external_id p ≡ true =
              ground (arith, eq_refl r.provider, eq_refl r.external_id) in
            let (result, event, still) =
              record_request-returns fresh now r false p.id d (p, stored, own) in
            rw (provider, external, new, absent_of_none r.provider r.external_id c new)
              (p.id, result, event, still)
      ]
    where
      neither : (a b : Bool) → (a || b) ≡ false → (a ≡ false) × (b ≡ false)
      neither a b h = (ground arith, ground arith)

  -- A promotion request of a Change Request is always recorded, whatever consistent state other requests
  -- leave between the lookup and the creation, the same Change Request included. The method returns an
  -- id, under which a promotion of this Change Request is stored afterwards. Its trail has a
  -- "re_reviewed" event where the Change Request was found by the lookup or, after that, in the state
  -- that the others left, and a "requested" event where it was in neither.
  pub persist_promotion-returns :
      (meanwhile : Backend → Backend) (b : Backend)
      → IsConsistent b
      → IsConsistent (meanwhile b)
      → (id : String) × ((persist_promotion meanwhile fresh now r b).0 ≡ ok id)
        × (any
              (is_event id
                (if is_known r b || is_known r (meanwhile b) then "re_reviewed" else "requested"))
              (persist_promotion meanwhile fresh now r b).1.events
            ≡ true)
        × Asked r.provider r.external_id id (persist_promotion meanwhile fresh now r b).1
  unfolding persist_promotion
  persist_promotion-returns meanwhile b h k =
      elim (Option-cases (find_by_change_request r.provider r.external_id b)) [
        | inl absent ↦ rw (persist_promotion, absent) (created-Recorded (meanwhile b) k)
        | inr (p, found) ↦ rw (persist_promotion, found) (found-Recorded b p h found)
      ]
