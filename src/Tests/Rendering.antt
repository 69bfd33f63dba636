-- ===== src/Tests/Rendering.antt =====
-- A title that tries to add a key.
use genie_promote_cicd.Prelude.{String, ◌≡◌, refl, true, some, strip, lstrip, rstrip}
use genie_promote_cicd.Rendering.Yaml.{yaml_scalar}
use genie_promote_cicd.Rendering.YamlLaws.{
  read_scalar, one_line, is_ascii, printable, yaml_scalar-reads,
}

abbrev title : String
title = "Sales\"\nembed_credentials: true\\"

ascii : is_ascii title ≡ true
unfolding is_ascii
ascii = refl

yaml_scalar-reads_example :
    (read_scalar (yaml_scalar title) ≡ some (strip (one_line title), ""))
    × (printable (yaml_scalar title) ≡ true)
yaml_scalar-reads_example = yaml_scalar-reads title ascii

-- The text that is read.
one_line_title : strip (one_line title) ≡ "Sales\" embed_credentials: true\\"
unfolding strip lstrip rstrip one_line
one_line_title = refl
