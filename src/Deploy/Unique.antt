-- ===== src/Deploy/Unique.antt =====
-- scripts/deploy_attempt.py: the slugs of the artifacts, over all kinds.
use genie_promote_cicd.Prelude.{
  ◌≡◌, refl, subst, Bool, true, false, ◌&&◌, List, [], ◌∷◌, ◌++◌, ◌==◌, eq_iff, if◌then◌else◌,
  any-append, Result, ok, raise, value_error, arith,
}
use genie_promote_cicd.Deploy.Artifacts.{
  BuildFile, Artifact, artifacts_of, is_seen, add_artifacts, and_add, and_kinds, collect,
  refuse_empty, all_artifacts,
}
use genie_promote_cicd.Resources.Kinds.{ResourceKind, all_kinds}

-- No slug occurs twice.
abbrev pub AreUnique : List Artifact → Type 0
AreUnique [] = Unit
AreUnique (a ∷ artifacts) = (is_seen a.slug artifacts ≡ false) × AreUnique artifacts

abbrev pub is_empty : List Artifact → Bool
is_empty [] = true
is_empty (a ∷ artifacts) = false

AreUnique-snoc :
    (seen : List Artifact) (a : Artifact)
    → AreUnique seen
    → is_seen a.slug seen ≡ false
    → AreUnique (seen ++ a ∷ [])
AreUnique-snoc [] a h k = (refl, tt)
AreUnique-snoc (b ∷ seen) a h k = (
  ground (
    arith,
    any-append (λ c. c.slug == b.slug) seen (a ∷ []),
    eq_iff a.slug b.slug,
    eq_iff b.slug a.slug,
    h.0,
  ),
  AreUnique-snoc seen a h.1 (ground (arith, k)),
)

passed :
    (b : Bool) (rest : Result (List Artifact)) (out : List Artifact)
    → (if b then raise value_error else rest) ≡ ok out
    → (b ≡ false) × (rest ≡ ok out)
passed true rest out h = absurd (cc)
passed false rest out h = (refl, h)

ok_injective : {xs ys : List Artifact} → Path (Result (List Artifact)) (ok xs) (ok ys) → xs ≡ ys
ok_injective e = cc

add_artifacts-AreUnique :
    (seen artifacts out : List Artifact)
    → AreUnique seen
    → add_artifacts seen artifacts ≡ ok out
    → AreUnique out
unfolding add_artifacts
add_artifacts-AreUnique seen [] out h k = subst AreUnique (ok_injective k) h
add_artifacts-AreUnique seen (a ∷ artifacts) out h k =
    let (new, rest) =
      passed (is_seen a.slug seen) (add_artifacts (seen ++ a ∷ []) artifacts) out k in
    add_artifacts-AreUnique (seen ++ a ∷ []) artifacts out (AreUnique-snoc seen a h new) rest

and_kinds-ok :
    (first : Result (List Artifact)) (next : List Artifact → Result (List Artifact))
    (out : List Artifact)
    → and_kinds first next ≡ ok out
    → (seen : List Artifact) × (first ≡ ok seen) × (next seen ≡ ok out)
and_kinds-ok (raise e) next out h = absurd (cc)
and_kinds-ok (ok seen) next out h = (seen, refl, h)

added :
    (read : Result (List Artifact)) (seen out : List Artifact)
    → AreUnique seen
    → and_add read seen ≡ ok out
    → AreUnique out
added (raise e) seen out h k = absurd (cc)
added (ok artifacts) seen out h k = add_artifacts-AreUnique seen artifacts out h k

collect-AreUnique :
    (files : ResourceKind → List BuildFile) (kinds : List ResourceKind) (seen out : List Artifact)
    → AreUnique seen
    → collect files kinds seen ≡ ok out
    → AreUnique out
unfolding collect
collect-AreUnique files [] seen out h k = subst AreUnique (ok_injective k) h
collect-AreUnique files (kind ∷ kinds) seen out h k =
    let (middle, first, rest) =
      and_kinds-ok (and_add (artifacts_of kind (files kind)) seen) (collect files kinds) out k in
    collect-AreUnique files kinds middle out
      (added (artifacts_of kind (files kind)) seen middle h first) rest

emptied :
    (allowed : Bool) (artifacts out : List Artifact)
    → refuse_empty allowed artifacts ≡ ok out
    → (artifacts ≡ out) × (is_empty out ≡ true → allowed ≡ true)
emptied true [] out h = (ok_injective h, λ e. refl)
emptied false [] out h = absurd (cc)
emptied allowed (a ∷ artifacts) [] h = absurd (filled (ok_injective h))
  where
    filled : Path (List Artifact) (a ∷ artifacts) [] → ⊥
    filled e = cc
emptied allowed (a ∷ artifacts) (b ∷ out) h = (ok_injective h, λ e. absurd (cc))

-- Where `_all_artifacts` returns, no slug is used twice, over all kinds of resources, and there is no
-- artifact at all only if both flags allow an empty tree.
pub all_artifacts-AreUnique :
    (files : ResourceKind → List BuildFile) (allow_empty_content allow_destructive : Bool)
    (out : List Artifact)
    → all_artifacts files allow_empty_content allow_destructive ≡ ok out
    → AreUnique out × (is_empty out ≡ true → (allow_empty_content && allow_destructive) ≡ true)
unfolding all_artifacts
all_artifacts-AreUnique files allow_empty_content allow_destructive out h =
    let (collected, first, rest) =
      and_kinds-ok (collect files all_kinds [])
        (refuse_empty (allow_empty_content && allow_destructive)) out h in
    let (same, allowed) = emptied (allow_empty_content && allow_destructive) collected out rest in
    (subst AreUnique same (collect-AreUnique files all_kinds [] collected tt first), allowed)
