-- ===== src/Promotions/Recent.antt =====
-- The audit trail of all promotions: which events a query finds, and how its pages follow.
use genie_promote_cicd.Prelude.{
  ℕ, ◌+◌, ◌≡◌, sym, ap, ◌∙◌, ◌↔◌, true, ◌++◌, map, Memᴰ, select, mem-select, select-mem,
  mem-sort_by, sort_by-mem, take, drop, take_add, drop_add, pos,
}
use genie_promote_cicd.Promotions.Types.{RecentEvent}
use genie_promote_cicd.Promotions.Backend.{
  Backend, Filters, join, on_resource, by_actor, not_before, not_after, newer_event,
  matching_events, list_recent_audit_events,
}

module _ (f : Filters) (b : Backend) where
  -- The event passes all of the filters that are given.
  abbrev pub Matches : RecentEvent → Type 0
  Matches e =
      (on_resource f.resource_id e ≡ true)
      × (by_actor f.actor e ≡ true)
      × (not_before f.after e ≡ true)
      × (not_after f.before e ≡ true)

  -- A query finds exactly the stored events, joined with their promotions' resources, that pass its
  -- filters.
  pub matching_events_iff :
      (x : RecentEvent)
      → Memᴰ x (matching_events f b) ↔ (Memᴰ x (map (join b) b.events) × Matches x)
  unfolding matching_events
  matching_events_iff x = (found, listed)
    where
      found : Memᴰ x (matching_events f b) → Memᴰ x (map (join b) b.events) × Matches x
      found m =
          let on = select (on_resource f.resource_id) (map (join b) b.events) in
          let by = select (by_actor f.actor) on in
          let from = select (not_before f.after) by in
          let (m3, before) =
            mem-select (not_after f.before) from
              (mem-sort_by newer_event (select (not_after f.before) from) m) in
          let (m2, after) = mem-select (not_before f.after) by m3 in
          let (m1, actor) = mem-select (by_actor f.actor) on m2 in
          let (m0, resource) = mem-select (on_resource f.resource_id) (map (join b) b.events) m1 in
          (m0, (resource, actor, after, before))

      listed : Memᴰ x (map (join b) b.events) × Matches x → Memᴰ x (matching_events f b)
      listed (m, (resource, actor, after, before)) = sort_by-mem newer_event (
          select-mem (not_after f.before)
            (select-mem (not_before f.after)
              (select-mem (by_actor f.actor) (select-mem (on_resource f.resource_id) m resource)
                actor)
              after)
            before)

  -- A page of `m` events and the page of `n` events behind it are together the page of `m + n`
  -- events, at every offset: paging skips no event and repeats none.
  pub list_recent_audit_events-pages :
      (m n k : ℕ)
      → list_recent_audit_events (pos m) (pos k) f b
          ++ list_recent_audit_events (pos n) (pos (k + m)) f b
        ≡ list_recent_audit_events (pos (m + n)) (pos k) f b
  unfolding list_recent_audit_events
  list_recent_audit_events-pages m n k =
      let events = matching_events f b in
      ap (λ l. take m (drop k events) ++ take n l) (sym (drop_add k m events))
      ∙ take_add m n (drop k events)
