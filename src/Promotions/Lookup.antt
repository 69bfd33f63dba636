-- ===== src/Promotions/Lookup.antt =====
-- app/promotion_store.py: the lookup of a promotion by its Change Request.
use genie_promote_cicd.Prelude.{
  String, ◌≡◌, sym, ap, ◌∙◌, subst, ◌↔◌, true, false, some, List, [], ◌∷◌, arith, map, Memᴰ, any,
  any-mem, find_first-mem, find_first_of_any, lookup, values, values-lookup, key_of_values, sort_by,
  mem-sort_by, sort_by-mem,
}
use genie_promote_cicd.Promotions.Types.{Promotion}
use genie_promote_cicd.Promotions.Backend
use genie_promote_cicd.Promotions.Backend.{Backend, newer_promotion}
use genie_promote_cicd.Promotions.Store.{find_by_change_request, is_request}
use genie_promote_cicd.Promotions.Identity.{
  Identity, Distinct, identity, same_identity, same_identity_refl, same_text-eq,
}
use genie_promote_cicd.Promotions.Invariant.{IsConsistent}

not-any-mem :
    (a : Identity) (ps : List Promotion) {p : Promotion}
    → any (same_identity a) (map identity ps) ≡ false
    → Memᴰ p ps
    → identity p ≡ a
    → ⊥
not-any-mem a [] h m same = elim m [ ]
not-any-mem a (q ∷ ps) {p} h (Memᴰ.head e) same =
    ground (arith, ap identity e, same_identity_refl a)
not-any-mem a (q ∷ ps) h (Memᴰ.tail m) same = not-any-mem a ps (ground arith) m same

-- Two stored promotions with one identity are one.
pub eq_of_Distinct :
    (ps : List Promotion) {p q : Promotion}
    → Distinct (map identity ps)
    → Memᴰ p ps
    → Memᴰ q ps
    → identity p ≡ identity q
    → p ≡ q
eq_of_Distinct [] d m n same = elim m [ ]
eq_of_Distinct (r ∷ ps) d (Memᴰ.head e) (Memᴰ.head f) same = e ∙ sym f
eq_of_Distinct (r ∷ ps) d (Memᴰ.head e) (Memᴰ.tail n) same =
    absurd (not-any-mem (identity r) ps d.0 n (sym same ∙ ap identity e))
eq_of_Distinct (r ∷ ps) d (Memᴰ.tail m) (Memᴰ.head f) same =
    absurd (not-any-mem (identity r) ps d.0 m (same ∙ ap identity f))
eq_of_Distinct (r ∷ ps) d (Memᴰ.tail m) (Memᴰ.tail n) same = eq_of_Distinct ps d.1 m n same

pub is_request-identity :
    (provider external_id : String) (p : Promotion)
    → is_request provider external_id p ≡ true
    → identity p ≡ record { provider = some provider; external_id = some external_id }
is_request-identity provider external_id p h = ground (
  arith,
  same_text-eq p.change_provider (some provider),
  same_text-eq p.external_id (some external_id),
)

module _ (b : Backend) (c : IsConsistent b) (provider external_id : String) (p : Promotion) where
  pub find_by_change_request-stored :
      find_by_change_request provider external_id b ≡ some p
      → (lookup p.id b.promotions ≡ some p) × (is_request provider external_id p ≡ true)
  unfolding find_by_change_request Backend.list_promotions
  find_by_change_request-stored h =
      let (m, t) = find_first-mem (is_request provider external_id) _ h in
      let (k, found) =
        key_of_values b.promotions c.dict (mem-sort_by newer_promotion (values b.promotions) m) in
      (subst (λ j. lookup j b.promotions ≡ some p) (sym (c.ids k p found)) found, t)

  find_by_change_request_complete :
      (lookup p.id b.promotions ≡ some p) × (is_request provider external_id p ≡ true)
      → find_by_change_request provider external_id b ≡ some p
  unfolding find_by_change_request Backend.list_promotions
  find_by_change_request_complete (found, t) =
      let asked = is_request provider external_id in
      let listed = sort_by newer_promotion (values b.promotions) in
      let m = values-lookup p.id b.promotions found in
      let (q, first) =
        find_first_of_any asked listed (any-mem asked (sort_by-mem newer_promotion m) t) in
      let (n, u) = find_first-mem asked listed first in
      let same =
        is_request-identity provider external_id q u
        ∙ sym (is_request-identity provider external_id p t) in
      first
      ∙ ap some (
          eq_of_Distinct (values b.promotions) c.distinct
            (mem-sort_by newer_promotion (values b.promotions) n) m same)

  -- In a consistent store, `find_by_change_request` returns a promotion exactly if it is the one
  -- stored under its id and it has the provider and the external id that are asked for.
  pub find_by_change_request_iff :
      (find_by_change_request provider external_id b ≡ some p)
      ↔ ((lookup p.id b.promotions ≡ some p) × (is_request provider external_id p ≡ true))
  find_by_change_request_iff = (find_by_change_request-stored, find_by_change_request_complete)
