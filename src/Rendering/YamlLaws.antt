-- ===== src/Rendering/YamlLaws.antt =====
-- scripts/pre_render.py, `yaml_scalar`: what a YAML reader makes of the scalar.
use Prim.Native.Char.{Char, code}
use Prim.Native.String.append
use Prim.Native.String.{[], ◌∷◌}
use genie_promote_cicd.Prelude.{
  String, ◌≡◌, refl, sym, ap, ◌∙◌, Bool, true, false, not, ◌&&◌, ◌||◌, Option, none, some, arith,
  Bool-cases, inl, inr, ◌==◌, eq_iff, eqb, ltb, if◌then◌else◌, lstrip, rstrip, strip, is_space,
  concat,
}
use genie_promote_cicd.Rendering.Yaml.{is_break, is_control, escaped, yaml_scalar}

abbrev prepended : Char → Option (String × String) → Option (String × String)
prepended c none = none
prepended c (some (text, rest)) = some (c ∷ text, rest)

-- A quote or a backslash.
abbrev is_special : Char → Bool
is_special c = eqb (code c) b'\\' || eqb (code c) b'"'

-- The line breaks of YAML 1.1: line feed, carriage return, next line, line and paragraph separator.
abbrev is_line_break : Char → Bool
is_line_break c =
    eqb (code c) 10 || eqb (code c) 13 || eqb (code c) 133 || eqb (code c) 8232 || eqb (code c) 8233

-- What stands between the opening quote of a double-quoted scalar of YAML, which has been read, and
-- the closing one, and what is left behind it: none where it is not closed before a line break, or
-- has another escape than that of a quote or a backslash. The flag is set behind a backslash.
unfoldable pub read_quoted : Bool → String → Option (String × String)
read_quoted behind [] = none
read_quoted true (c ∷ s) =
    let escape = prepended c (read_quoted false s) in if is_special c then escape else none
read_quoted false (c ∷ s) =
    let plain = prepended c (read_quoted false s) in
    let next = read_quoted true s in
    if eqb (code c) b'"'
    then some ("", s)
    else if eqb (code c) b'\\'
    then next
    else if is_line_break c
    then none
    else plain

unfoldable pub read_scalar : String → Option (String × String)
read_scalar [] = none
read_scalar (c ∷ s) = if eqb (code c) b'"' then read_quoted false s else none

-- The text with a space for each break and control character.
unfoldable pub one_line : String → String
one_line [] = []
one_line (c ∷ s) =
    let rest = one_line s in if is_break c || is_control c then " " ∷ rest else c ∷ rest

unfoldable pub is_ascii : String → Bool
is_ascii [] = true
is_ascii (c ∷ s) = ltb (code c) 128 && is_ascii s

-- ASCII characters only, with no break and no control character.
unfoldable pub printable : String → Bool
printable [] = true
printable (c ∷ s) = (not (is_break c || is_control c) && ltb (code c) 128) && printable s

-- A backslash before each quote and backslash.
quoted : String → String
quoted [] = []
quoted (c ∷ s) =
    let rest = quoted s in
    if eqb (code c) b'\\' || eqb (code c) b'"' then "\\" ∷ (c ∷ rest) else c ∷ rest

escaped-quoted : (s : String) → escaped s ≡ quoted (one_line s)
unfolding escaped quoted one_line
escaped-quoted [] = refl
escaped-quoted (c ∷ s) = elim (Bool-cases (is_break c)) [
  | inl t ↦ rw t (ap (λ r. " " ∷ r) (escaped-quoted s))
  | inr f ↦ elim (Bool-cases (eqb (code c) b'\\')) [
    | inl t ↦
        let n : is_control c ≡ false = ground (arith, t) in rw (f, t, escaped-quoted s, n) (rw t)
    | inr g ↦ elim (Bool-cases (eqb (code c) b'"')) [
      | inl t ↦
          let n : is_control c ≡ false = ground (arith, t) in
          rw (f, g, t, escaped-quoted s, n) (rw (g, t))
      | inr k ↦ elim (Bool-cases (is_control c)) [
        | inl t ↦ rw (f, g, k, t, escaped-quoted s)
        | inr n ↦ rw (f, g, k, n, escaped-quoted s) (rw (g, k))
      ]
    ]
  ]
]

special-space : (c : Char) → is_special c ≡ true → is_space (code c) ≡ false
special-space c h = ground (arith, h)

quoted_special :
    (c : Char) (s : String) → is_special c ≡ true → quoted (c ∷ s) ≡ "\\" ∷ (c ∷ quoted s)
unfolding quoted
quoted_special c s h = rw h

quoted_plain : (c : Char) (s : String) → is_special c ≡ false → quoted (c ∷ s) ≡ c ∷ quoted s
unfolding quoted
quoted_plain c s h = rw h

quoted-nil : quoted "" ≡ ""
unfolding quoted
quoted-nil = refl

cons_empty : (c : Char) (s : String) → ((c ∷ s) == "") ≡ false
cons_empty c s = elim (Bool-cases ((c ∷ s) == "")) [
  | inl t ↦ let same : c ∷ s ≡ "" = (eq_iff (c ∷ s) "").0 t in absurd (cc)
  | inr f ↦ f
]

quoted-empty : (s : String) → (quoted s == "") ≡ (s == "")
unfolding quoted
quoted-empty [] = refl
quoted-empty (c ∷ s) = elim (Bool-cases (is_special c)) [
  | inl t ↦ rw (quoted_special c s t) (cons_empty _ _ ∙ sym (cons_empty c s))
  | inr f ↦ rw (quoted_plain c s f) (cons_empty _ _ ∙ sym (cons_empty c s))
]

lstrip-quoted : (s : String) → lstrip (quoted s) ≡ quoted (lstrip s)
unfolding lstrip
lstrip-quoted [] = rw quoted-nil
lstrip-quoted (c ∷ s) = elim (Bool-cases (is_special c)) [
  | inl t ↦ rw (quoted_special c s t, special-space c t) (sym (quoted_special c s t))
  | inr f ↦ elim (Bool-cases (is_space (code c))) [
    | inl u ↦ rw (quoted_plain c s f, u) (lstrip-quoted s)
    | inr g ↦ rw (quoted_plain c s f, g) (sym (quoted_plain c s f))
  ]
]

rstrip-quoted : (s : String) → rstrip (quoted s) ≡ quoted (rstrip s)
unfolding rstrip
rstrip-quoted [] = rw quoted-nil
rstrip-quoted (c ∷ s) = elim (Bool-cases (is_special c)) [
  | inl t ↦
      rw (quoted_special c s t, special-space c t, rstrip-quoted s)
        (sym (quoted_special c (rstrip s) t))
  | inr f ↦ elim (Bool-cases (is_space (code c) && rstrip s == "")) [
    | inl u ↦ rw (quoted_plain c s f, rstrip-quoted s, quoted-empty (rstrip s), u) (sym quoted-nil)
    | inr g ↦
        rw (quoted_plain c s f, rstrip-quoted s, quoted-empty (rstrip s), g)
          (sym (quoted_plain c (rstrip s) f))
  ]
]

read-quoted :
    (s : String) → printable s ≡ true → read_quoted false (concat (quoted s) "\"") ≡ some (s, "")
unfolding read_quoted printable
read-quoted [] h = rw quoted-nil
read-quoted (c ∷ s) h = elim (Bool-cases (is_special c)) [
  | inl t ↦ rw (quoted_special c s t) (
      ap (read_quoted false)
        (append.cons "\\" (c ∷ quoted s) "\"" ∙ ap (λ r. "\\" ∷ r) (append.cons c (quoted s) "\""))
      ∙ escape t (read-quoted s (ground (arith, h))))
  | inr f ↦ rw (quoted_plain c s f) (
      ap (read_quoted false) (append.cons c (quoted s) "\"")
      ∙ plain f (ground (arith, h)) (read-quoted s (ground (arith, h))))
]
  where
    escape :
        is_special c ≡ true
        → read_quoted false (concat (quoted s) "\"") ≡ some (s, "")
        → read_quoted true (c ∷ concat (quoted s) "\"") ≡ some (c ∷ s, "")
    escape t ih = rw t (ap (prepended c) ih)

    plain :
        is_special c ≡ false
        → is_line_break c ≡ false
        → read_quoted false (concat (quoted s) "\"") ≡ some (s, "")
        → read_quoted false (c ∷ concat (quoted s) "\"") ≡ some (c ∷ s, "")
    plain f n ih =
        let g : eqb (code c) b'"' ≡ false = ground (arith, f) in
        let k : eqb (code c) b'\\' ≡ false = ground (arith, f) in rw (g, k, n) (ap (prepended c) ih)

printable-one_line : (s : String) → is_ascii s ≡ true → printable (one_line s) ≡ true
unfolding printable one_line is_ascii
printable-one_line [] h = refl
printable-one_line (c ∷ s) h = elim (Bool-cases (is_break c || is_control c)) [
  | inl t ↦ rw t (printable-one_line s (ground (arith, h)))
  | inr f ↦
      let small : ltb (code c) 128 ≡ true = ground (arith, h) in
      rw (f, f, small) (printable-one_line s (ground (arith, h)))
]

printable-lstrip : (s : String) → printable s ≡ true → printable (lstrip s) ≡ true
unfolding printable lstrip
printable-lstrip [] h = h
printable-lstrip (c ∷ s) h = elim (Bool-cases (is_space (code c))) [
  | inl t ↦ rw t (printable-lstrip s (ground arith))
  | inr f ↦ rw f h
]

printable-rstrip : (s : String) → printable s ≡ true → printable (rstrip s) ≡ true
unfolding printable rstrip
printable-rstrip [] h = h
printable-rstrip (c ∷ s) h = elim (Bool-cases (is_space (code c) && rstrip s == "")) [
  | inl t ↦ rw t
  | inr f ↦ rw f (ground (arith, h, printable-rstrip s))
]

printable-strip : (s : String) → printable s ≡ true → printable (strip s) ≡ true
unfolding strip
printable-strip s h = printable-rstrip (lstrip s) (printable-lstrip s h)

printable-quoted : (s : String) → printable (quoted s) ≡ printable s
unfolding printable
printable-quoted [] = rw quoted-nil
printable-quoted (c ∷ s) = elim (Bool-cases (is_special c)) [
  | inl t ↦ rw (quoted_special c s t, printable-quoted s)
  | inr f ↦ rw (quoted_plain c s f, printable-quoted s)
]

printable-concat : (s t : String) → printable (concat s t) ≡ (printable s && printable t)
unfolding printable
printable-concat [] t = ap printable (append.nil t)
printable-concat (c ∷ s) t = ap printable (append.cons c s t) ∙ ground (arith, printable-concat s t)

strip-escaped : (value : String) → strip (escaped value) ≡ quoted (strip (one_line value))
unfolding strip
strip-escaped value =
    rw (escaped-quoted value, lstrip-quoted (one_line value))
      (rstrip-quoted (lstrip (one_line value)))

-- The scalar of a text of ASCII characters has printable ASCII characters only, and so is on one
-- line, and whoever reads a double-quoted YAML scalar from it, refusing line breaks and other escapes
-- than those of a quote and a backslash, has read all of it at the closing quote, and has the text
-- with a space for each break and control character, stripped.
pub yaml_scalar-reads :
    (value : String)
    → is_ascii value ≡ true
    → (read_scalar (yaml_scalar value) ≡ some (strip (one_line value), ""))
      × (printable (yaml_scalar value) ≡ true)
unfolding yaml_scalar read_scalar printable
yaml_scalar-reads value ascii =
    let clean = printable-strip (one_line value) (printable-one_line value ascii) in
    rw (strip-escaped value) (
      read-quoted (strip (one_line value)) clean,
      printable-concat (quoted (strip (one_line value))) "\"" ∙ rw (printable-quoted, clean),
    )
