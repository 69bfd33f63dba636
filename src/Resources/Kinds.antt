-- ===== src/Resources/Kinds.antt =====
-- genie_reviewer/resource_kind.py: the registry of the kinds of resource and the paths of their
-- committed files. `str.isalnum` and `str.isalpha` on one character, which follow the Unicode tables,
-- are parameters.
use Prim.Native.Char.{Char, code}
use Prim.Native.String.{[], ◌∷◌}
use genie_promote_cicd.Prelude.{
  String, Bool, true, false, not, ◌&&◌, ◌||◌, Option, List, Dict, lookup, ◌==◌, eqb, if◌then◌else◌,
  or_else, truthy, strip, concat, Result, ok, raise, value_error,
}

pub record ResourceKind : Type 0 where
  pub kind : String
  pub src_dir : String
  pub build_subdir : String
  pub artifact_suffix : String
  pub slug_prefix : String
  pub bundle_collection : String
  pub permissions_object_type : String
  pub tag_entity_type : String
  pub audience_level : String
  pub has_benchmarks : Bool
  pub sql_only_ref_scan : Bool
  pub label_pt : String
  pub bare_slug_if_alpha : Bool
  pub nested_layout : Bool

abbrev pub genie_space_kind : ResourceKind
genie_space_kind = record {
  kind = "genie_space";
  src_dir = "src/genie";
  build_subdir = "genie";
  artifact_suffix = ".serialized_space.json";
  slug_prefix = "s_";
  bundle_collection = "genie_spaces";
  permissions_object_type = "genie";
  tag_entity_type = "geniespaces";
  audience_level = "CAN_RUN";
  has_benchmarks = true;
  sql_only_ref_scan = false;
  label_pt = "Genie Space";
  bare_slug_if_alpha = true;
  nested_layout = false;
}

abbrev pub dashboard_kind : ResourceKind
dashboard_kind = record {
  kind = "dashboard";
  src_dir = "src/dashboards";
  build_subdir = "dashboards";
  artifact_suffix = ".lvdash.json";
  slug_prefix = "d_";
  bundle_collection = "dashboards";
  permissions_object_type = "dashboards";
  tag_entity_type = "dashboards";
  audience_level = "CAN_READ";
  has_benchmarks = false;
  sql_only_ref_scan = true;
  label_pt = "Painel AI/BI";
  bare_slug_if_alpha = false;
  nested_layout = true;
}

abbrev pub all_kinds : List ResourceKind
all_kinds = List.◌∷◌ genie_space_kind (List.◌∷◌ dashboard_kind List.[])

abbrev pub default_kind : String
default_kind = "genie_space"

-- `value or default`
abbrev pub text_or : String → String → String
text_or s d = if s == "" then d else s

abbrev pub resolved_kind : Option String → String
resolved_kind kind = text_or (strip (text_or (or_else kind "") default_kind)) default_kind

unfoldable pub get : Option String → Result ResourceKind
get kind =
    let resolved = resolved_kind kind in
    if resolved == "genie_space"
    then ok genie_space_kind
    else if resolved == "dashboard"
    then ok dashboard_kind
    else raise value_error

abbrev pub base : ResourceKind → String → String
base k slug = concat k.src_dir (concat "/" slug)

abbrev pub artifact_path : ResourceKind → String → String
artifact_path k slug =
    if k.nested_layout
    then concat (base k slug) (concat "/dashboard" k.artifact_suffix)
    else concat (base k slug) k.artifact_suffix

abbrev pub title_path : ResourceKind → String → String
title_path k slug =
    if k.nested_layout then concat (base k slug) "/title" else concat (base k slug) ".title"

abbrev pub audience_path : ResourceKind → String → String
audience_path k slug =
    if k.nested_layout
    then concat (base k slug) "/audience.json"
    else concat (base k slug) ".audience.json"

abbrev pub mapping_path : ResourceKind → String → String
mapping_path k slug =
    if k.nested_layout
    then concat (base k slug) "/mapping.json"
    else concat (base k slug) ".mapping.json"

abbrev pub revision_path : ResourceKind → String → String
revision_path k slug =
    if k.nested_layout
    then concat (base k slug) "/revision.json"
    else concat (base k slug) ".revision.json"

-- `slug.replace("/", "__")`
unfoldable pub flattened : String → String
flattened [] = []
flattened (c ∷ s) =
    let rest = flattened s in if eqb (code c) b'/' then concat "__" rest else c ∷ rest

abbrev pub resource_key : ResourceKind → String → String
resource_key k slug = if k.nested_layout then flattened slug else slug

-- `pinned.get(resource_id)` where it is a slug.
abbrev pub pinned_slug : Dict String → String → String
pinned_slug pinned resource_id = or_else (lookup resource_id pinned) ""

abbrev pub nested_slug : Option String → Option String → Result String
nested_slug area name =
    if not (truthy area && truthy name)
    then raise value_error
    else ok (concat (or_else area "") (concat "/" (or_else name "")))

module _ (is_alnum is_alpha : Char → Bool) where
  abbrev pub safe_char : Char → Char
  safe_char c = if is_alnum c || eqb (code c) b'_' then c else "_"

  unfoldable pub sanitized : String → String
  sanitized [] = []
  sanitized (c ∷ s) = safe_char c ∷ sanitized s

  -- `safe[:1].isalpha()`
  abbrev pub starts_alpha : String → Bool
  starts_alpha [] = false
  starts_alpha (c ∷ s) = is_alpha c

  abbrev pub flat_slug : ResourceKind → String → String
  flat_slug k safe =
      if k.bare_slug_if_alpha && starts_alpha safe then safe else concat k.slug_prefix safe

  unfoldable pub slug_for :
      ResourceKind → String → Dict String → (area name : Option String) → Result String
  slug_for k resource_id pinned area name =
      let existing = pinned_slug pinned resource_id in
      if not (existing == "")
      then ok existing
      else if k.nested_layout
      then nested_slug area name
      else ok (flat_slug k (sanitized resource_id))
