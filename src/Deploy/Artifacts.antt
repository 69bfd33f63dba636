-- ===== src/Deploy/Artifacts.antt =====
-- The rendered artifacts that a deployment promotes (scripts/deploy_attempt.py, `_artifacts_of`,
-- `_all_artifacts` and `_kind_of`). The files of a build directory are a parameter, with their texts.
use genie_promote_cicd.Prelude.{
  String, Bool, ◌&&◌, Option, none, some, List, [], ◌∷◌, ◌++◌, ◌==◌, if◌then◌else◌, any, strip,
  find_first, Result, ok, raise, value_error, or_else,
}
use genie_promote_cicd.Access.Acl.{AudiencePrincipal}
use genie_promote_cicd.Resources.Kinds.{ResourceKind, genie_space_kind, all_kinds}

-- A rendered file with the texts beside it: its title, where there is one, and its audience, which
-- is read and parsed.
pub record BuildFile : Type 0 where
  pub slug : String
  pub title : Option String
  pub audience : Option (Result (List AudiencePrincipal))

pub record Artifact : Type 0 where
  pub kind : ResourceKind
  pub slug : String
  pub title : String
  pub audience : List AudiencePrincipal

abbrev parsed :
    ResourceKind → String → String → Option (Result (List AudiencePrincipal)) → Result Artifact
parsed kind slug title none = raise value_error
parsed kind slug title (some (raise e)) = raise e
parsed kind slug title (some (ok audience)) =
    ok (record { kind = kind; slug = slug; title = title; audience = audience })

abbrev read_artifact : ResourceKind → BuildFile → Result Artifact
read_artifact kind file =
    if strip (or_else file.title "") == ""
    then raise value_error
    else parsed kind file.slug (or_else file.title "") file.audience

abbrev both : Result Artifact → Result (List Artifact) → Result (List Artifact)
both (raise e) rest = raise e
both (ok a) (raise e) = raise e
both (ok a) (ok artifacts) = ok (a ∷ artifacts)

-- `_artifacts_of`
unfoldable pub artifacts_of : ResourceKind → List BuildFile → Result (List Artifact)
artifacts_of kind [] = ok []
artifacts_of kind (file ∷ files) = both (read_artifact kind file) (artifacts_of kind files)

abbrev pub is_seen : String → List Artifact → Bool
is_seen slug artifacts = any (λ a. a.slug == slug) artifacts

-- The inner loop of `_all_artifacts`: the artifacts seen so far and those of one kind.
unfoldable pub add_artifacts : List Artifact → List Artifact → Result (List Artifact)
add_artifacts seen [] = ok seen
add_artifacts seen (a ∷ artifacts) =
    let rest = add_artifacts (seen ++ a ∷ []) artifacts in
    if is_seen a.slug seen then raise value_error else rest

abbrev pub and_add : Result (List Artifact) → List Artifact → Result (List Artifact)
and_add (raise e) seen = raise e
and_add (ok artifacts) seen = add_artifacts seen artifacts

abbrev pub and_kinds :
    Result (List Artifact) → (List Artifact → Result (List Artifact)) → Result (List Artifact)
and_kinds (raise e) next = raise e
and_kinds (ok seen) next = next seen

unfoldable pub collect :
    (ResourceKind → List BuildFile) → List ResourceKind → List Artifact → Result (List Artifact)
collect files [] seen = ok seen
collect files (kind ∷ kinds) seen =
    and_kinds (and_add (artifacts_of kind (files kind)) seen) (collect files kinds)

abbrev pub refuse_empty : Bool → List Artifact → Result (List Artifact)
refuse_empty allowed [] = if allowed then ok [] else raise value_error
refuse_empty allowed (a ∷ artifacts) = ok (a ∷ artifacts)

-- `_all_artifacts`
unfoldable pub all_artifacts :
    (ResourceKind → List BuildFile)
    → (allow_empty_content allow_destructive : Bool) → Result (List Artifact)
all_artifacts files allow_empty_content allow_destructive =
    and_kinds (collect files all_kinds []) (refuse_empty (allow_empty_content && allow_destructive))

abbrev kind_in : Result (List Artifact) → String → ResourceKind
kind_in (raise e) slug = genie_space_kind
kind_in (ok artifacts) slug = elim (find_first (λ a. a.slug == slug) artifacts) [
  | none ↦ genie_space_kind
  | some a ↦ a.kind
]

-- `_kind_of`, where every exception that `_all_artifacts` raises is a ValueError.
unfoldable pub kind_of : Result (List Artifact) → String → ResourceKind
kind_of artifacts slug = kind_in artifacts slug
