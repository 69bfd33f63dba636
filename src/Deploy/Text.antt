-- ===== src/Deploy/Text.antt =====
-- `_safe_reason` of scripts/deploy_attempt.py, with the `str` methods that it uses.
use Prim.Native.String.{String, [], ◌∷◌, ◌++◌, count}
use mathlib.Core.Option.{Option, none, some}
use text.Mathlib.Text.{◌==◌, starts_with}
use genie_promote_cicd.Prelude.{ℕ, zero, suc, ◌-◌, List, if◌then◌else◌}

-- `text.replace(old, new)` for a nonempty `old`, where the first number is the count of characters
-- that belong to an occurrence already replaced.
abbrev replace_from : String → String → ℕ → String → String
replace_from old new n [] = []
replace_from old new zero (c ∷ s) =
    let found = starts_with (c ∷ s) old in
    let rest = replace_from old new (if found then count old - 1 else 0) s in
    if found then new ++ rest else c ∷ rest
replace_from old new (suc n) (c ∷ s) = replace_from old new n s

-- An exception, as `f"{type(exc).__name__}: {exc}"` reads it.
pub record Failure : Type 0 where
  pub type_name : String
  pub message : String

-- The values that the three secret environment variables have, in their order.
abbrev redact : List (Option String) → String → String
redact List.[] value = value
redact (List.◌∷◌ none more) value = redact more value
redact (List.◌∷◌ (some secret) more) value =
    redact more (if secret == "" then value else replace_from secret "[REDACTED]" 0 value)

-- `text[:n]`
abbrev first_chars : ℕ → String → String
first_chars zero s = []
first_chars (suc n) [] = []
first_chars (suc n) (c ∷ s) = c ∷ first_chars n s

unfoldable pub safe_reason : List (Option String) → Failure → String
safe_reason secrets exc = first_chars 1000 (redact secrets (exc.type_name ++ ": " ++ exc.message))
