-- ===== src/Promotions/Identity.antt =====
-- app/promotion_store.py: the Change Request identities of the stored promotions.
use genie_promote_cicd.Prelude.{
  String, ◌≡◌, refl, ap, ◌∙◌, Bool, true, false, ◌&&◌, Option, none, some, List, [], ◌∷◌, ◌++◌,
  arith, eq_iff, any, any-append, map, Dict, lookup, insert, values, same_text, insert_fresh,
  map-values-insert,
}
use genie_promote_cicd.Promotions.Types.{Promotion}
use genie_promote_cicd.Promotions.Backend.{has_change_request}

pub record Identity : Type 0 where
  pub provider : Option String
  pub external_id : Option String

abbrev pub identity : Promotion → Identity
identity p = record { provider = p.change_provider; external_id = p.external_id }

abbrev pub same_identity : Identity → Identity → Bool
same_identity a b = same_text b.provider a.provider && same_text b.external_id a.external_id

abbrev pub Distinct : List Identity → Type 0
Distinct [] = Unit
Distinct (a ∷ as') = (any (same_identity a) as' ≡ false) × Distinct as'

abbrev pub identities : Dict Promotion → List Identity
identities d = map identity (values d)

pub same_text-eq : (a b : Option String) → same_text a b ≡ true → a ≡ b
same_text-eq none none h = refl
same_text-eq (some s) (some t) h = ap some ((eq_iff s t).0 h)
same_text-eq none (some t) h = cc
same_text-eq (some s) none h = cc

pub same_text_refl : (a : Option String) → same_text a a ≡ true
same_text_refl none = refl
same_text_refl (some s) = (eq_iff s s).1 refl

same_identity-eq : (a b : Identity) → same_identity a b ≡ true → a ≡ b
same_identity-eq a b h =
    ground (arith, same_text-eq b.provider a.provider, same_text-eq b.external_id a.external_id)

pub same_identity_refl : (a : Identity) → same_identity a a ≡ true
same_identity_refl a = ground (arith, same_text_refl a.provider, same_text_refl a.external_id)

same_identity_comm : (a b : Identity) → same_identity a b ≡ same_identity b a
same_identity_comm a b =
    ground (
      arith,
      same_identity-eq a b,
      same_identity-eq b a,
      same_identity_refl a,
      same_identity_refl b,
    )

Distinct-snoc :
    (as' : List Identity) (b : Identity)
    → any (same_identity b) as' ≡ false
    → Distinct as'
    → Distinct (as' ++ b ∷ [])
Distinct-snoc [] b h d = (refl, tt)
Distinct-snoc (a ∷ as') b h d = (
  ground (arith, any-append (same_identity a) as' (b ∷ []), same_identity_comm a b, d.0),
  Distinct-snoc as' b (ground arith) d.1,
)

any-identities :
    (p : Promotion) (ps : List Promotion)
    → any (same_identity (identity p)) (map identity ps)
      ≡ any (has_change_request p.change_provider p.external_id) ps
any-identities p [] = refl
any-identities p (q ∷ qs) = ground (arith, any-identities p qs)

values-append_one :
    (k : String) (p : Promotion) (d : Dict Promotion)
    → identities (d ++ (k, p) ∷ []) ≡ identities d ++ identity p ∷ []
values-append_one k p [] = refl
values-append_one k p ((j, q) ∷ d) = ap (λ l. identity q ∷ l) (values-append_one k p d)

-- A promotion with a new id and an identity that no other has is added to the end.
pub Distinct-insert :
    (k : String) (p : Promotion) (d : Dict Promotion)
    → lookup k d ≡ none
    → any (has_change_request p.change_provider p.external_id) (values d) ≡ false
    → Distinct (identities d)
    → Distinct (identities (insert k p d))
Distinct-insert k p d fresh new h =
    rw (insert_fresh k p d fresh, values-append_one k p d)
      (Distinct-snoc (identities d) (identity p) (any-identities p (values d) ∙ new) h)

-- Writing a promotion anew under its id, with the identity that it had, changes no identity.
pub Distinct-rewrite :
    (k : String) (p q : Promotion) (d : Dict Promotion)
    → lookup k d ≡ some q
    → identity p ≡ identity q
    → Distinct (identities d)
    → Distinct (identities (insert k p d))
Distinct-rewrite k p q d found same h = rw (map-values-insert identity k p q d found same) h
