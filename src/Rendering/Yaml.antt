-- ===== src/Rendering/Yaml.antt =====
-- scripts/pre_render.py, `yaml_scalar`: a text as a YAML double-quoted scalar on one line.
use Prim.Native.Char.{Char, code}
use Prim.Native.String.{[], ◌∷◌}
use genie_promote_cicd.Prelude.{String, Bool, ◌||◌, eqb, ltb, if◌then◌else◌, strip, concat}

-- A newline, a carriage return or a tab.
abbrev pub is_break : Char → Bool
is_break c = eqb (code c) 10 || eqb (code c) 13 || eqb (code c) 9

abbrev pub is_control : Char → Bool
is_control c = ltb (code c) 32 || eqb (code c) 127

-- The loop over the characters, joined.
unfoldable pub escaped : String → String
escaped [] = []
escaped (c ∷ s) =
    let rest = escaped s in
    if is_break c
    then " " ∷ rest
    else if eqb (code c) b'\\'
    then "\\" ∷ (c ∷ rest)
    else if eqb (code c) b'"'
    then "\\" ∷ (c ∷ rest)
    else if is_control c
    then " " ∷ rest
    else c ∷ rest

unfoldable pub yaml_scalar : String → String
yaml_scalar value = "\"" ∷ concat (strip (escaped value)) "\""
