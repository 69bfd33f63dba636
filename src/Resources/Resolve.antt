-- ===== src/Resources/Resolve.antt =====
-- genie_reviewer/workspace_resource.py: the live resources of a kind, and the resolution of one by its
-- title. The workspace client is a parameter: its methods read a state that is not in the file, and
-- return or raise. An exception keeps its class only, so the id that the last message names is left
-- out.
use genie_promote_cicd.Prelude.{
  ℕ, zero, suc, String, Bool, true, false, Option, none, some, List, [], ◌∷◌, map, select, ◌==◌,
  eqb, if◌then◌else◌, or_else, Exec, Result, ok, raise, pure, throw, modify, ◌>>=◌, ◌>>◌,
  value_error,
}
use genie_promote_cicd.Resources.Kinds.{ResourceKind, text_or}

pub record Space : Type 0 where
  pub space_id : String
  pub title : Option String

pub record Dashboard : Type 0 where
  pub dashboard_id : String
  pub display_name : Option String
  pub lifecycle_state : Option String

pub record Client (S : Type 0) : Type 0 where
  pub list_spaces : Exec S (List Space)
  pub list_dashboards : Exec S (List Dashboard)
  pub get_space : String → Exec S Unit
  pub get_dashboard : String → Exec S Unit
  pub sleep : S → S

-- `{resource_id, title}`
pub record Listed : Type 0 where
  pub resource_id : String
  pub title : String

abbrev untitled : String
untitled = "(sem título)"

abbrev listed_space : Space → Listed
listed_space s = record { resource_id = s.space_id; title = text_or (or_else s.title "") untitled }

abbrev is_active : Dashboard → Bool
is_active d = text_or (or_else d.lifecycle_state "") "ACTIVE" == "ACTIVE"

abbrev listed_dashboard : Dashboard → Listed
listed_dashboard d = record {
  resource_id = d.dashboard_id;
  title = text_or (or_else d.display_name "") untitled;
}

abbrev is_genie : ResourceKind → Bool
is_genie k = k.kind == "genie_space"

-- The ids of the resources of this title.
abbrev pub matches : String → List Listed → List String
matches title listed = map (λ r. r.resource_id) (select (λ r. r.title == title) listed)

abbrev pub returned : Result {0} Unit → Bool
returned (ok u) = true
returned (raise e) = false

module _ {S : Type 0} (client : Client S) (k : ResourceKind) where
  unfoldable pub list_resources : Exec S (List Listed)
  list_resources =
      if is_genie k
      then (client.list_spaces >>= λ spaces. pure (map listed_space spaces))
      else (client.list_dashboards >>= λ dashboards.
          pure (map listed_dashboard (select is_active dashboards)))

  abbrev pub read : String → Exec S Unit
  read resource_id =
      if is_genie k then client.get_space resource_id else client.get_dashboard resource_id

  unfoldable pub still_exists : String → Exec S Bool
  still_exists resource_id s = let (r, t) = read resource_id s in (ok (returned r), t)

  -- One pass of the loop, on the ids that match: the id, or none where it has to be tried again.
  abbrev pub judge : List String → Exec S (Option String)
  judge [] = pure none
  judge (id ∷ []) = still_exists id >>= λ there. pure (if there then some id else none)
  judge (id ∷ (other ∷ more)) = throw value_error

  unfoldable pub attempt : String → Exec S (Option String)
  attempt title = list_resources >>= λ listed. judge (matches title listed)

  -- Sleeps where an attempt is left.
  abbrev pub pause : ℕ → Exec S Unit
  pause zero = pure tt
  pause (suc n) = modify client.sleep

  -- The end of one pass, with the attempts that are left and what they do.
  abbrev pub settle : ℕ → Exec S String → Option String → Exec S String
  settle n rest none = pause n >> rest
  settle n rest (some id) = pure id

  -- The loop, with the attempts that are left.
  unfoldable pub resolve_within : ℕ → String → Exec S String
  resolve_within zero title = throw value_error
  resolve_within (suc n) title = attempt title >>= settle n (resolve_within n title)

  unfoldable pub resolve_by_title : ℕ → String → Exec S String
  resolve_by_title max_attempts title s =
      if title == ""
      then throw value_error s
      else if eqb max_attempts 0
      then throw value_error s
      else resolve_within max_attempts title s
