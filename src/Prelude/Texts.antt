-- ===== src/Prelude/Texts.antt =====
-- Python's `str` methods that the program uses, and the truth value of an optional text. `lower`,
-- `casefold` and `upper` change the ASCII letters, and `strip` removes the ASCII white space.
use Prim.Native.Nat.{ℕ, ◌+◌, ◌*◌, ◌-◌}
use Prim.Native.Char.{Char, code}
use Prim.Native.String.{String, [], ◌∷◌, ◌++◌}
use mathlib.Core.Bool.{Bool, true, false, not, ◌||◌, ◌&&◌}
use mathlib.Core.Option
use mathlib.Core.Option.{Option, none, some}
use mathlib.Core.Path.{◌≡◌}
use text.Mathlib.Text.{◌==◌}
use text.Mathlib.TextEquality.{eq_iff}
use package.genie_promote_cicd.Prelude.Tests.{leb, eqb, if◌then◌else◌}
use package.genie_promote_cicd.Prelude.Int.{ℤ, pos, negsuc}

-- `bool(value)` of an optional text: neither None nor empty.
abbrev pub truthy : Option String → Bool
truthy none = false
truthy (some s) = not (s == "")

pub texts_differ : (s t : String) → s == t ≡ false → s ≡ t → ⊥
texts_differ s t h e = let same : s == t ≡ true = (eq_iff s t).1 e in cc

-- Equality of optional texts.
abbrev pub same_text : Option String → Option String → Bool
same_text none none = true
same_text (some s) (some t) = s == t
same_text none (some t) = false
same_text (some s) none = false

abbrev pub is_space : ℕ → Bool
is_space c = eqb c 32 || (leb 9 c && leb c 13) || (leb 28 c && leb c 31)

unfoldable pub lstrip : String → String
lstrip [] = []
lstrip (c ∷ s) = let rest = lstrip s in if is_space (code c) then rest else c ∷ s

-- The text without its trailing white space.
unfoldable pub rstrip : String → String
rstrip [] = []
rstrip (c ∷ s) = let rest = rstrip s in if is_space (code c) && rest == "" then [] else c ∷ rest

unfoldable pub strip : String → String
strip s = rstrip (lstrip s)

-- The letter of `to` at the place at which `from` has `c`.
abbrev pub translate : String → String → Char → Char
translate (d ∷ from) (e ∷ to) c =
    let rest = translate from to c in if eqb (code c) (code d) then e else rest
translate [] to c = c
translate from [] c = c

unfoldable pub lower : String → String
lower [] = []
lower (c ∷ s) = translate "ABCDEFGHIJKLMNOPQRSTUVWXYZ" "abcdefghijklmnopqrstuvwxyz" c ∷ lower s

unfoldable pub upper : String → String
upper [] = []
upper (c ∷ s) = translate "abcdefghijklmnopqrstuvwxyz" "ABCDEFGHIJKLMNOPQRSTUVWXYZ" c ∷ upper s

-- The texts one after the other.
abbrev pub concat : String → String → String
concat s t = s ++ t

-- `int(text)` on a decimal literal with an optional sign; the underscores that Python allows between
-- digits are left out.
digits : String → ℕ → Option ℕ
digits [] n = some n
digits (c ∷ s) n =
    let rest = digits s (n * 10 + (code c - 48)) in
    if leb 48 (code c) && leb (code c) 57 then rest else none

abbrev some_digits : String → Option ℕ
some_digits [] = none
some_digits (c ∷ s) = digits (c ∷ s) 0

abbrev negated : ℕ → ℤ
negated n = if eqb n 0 then pos 0 else negsuc (n - 1)

abbrev signed : String → Option ℤ
signed [] = none
signed (c ∷ s) =
    if eqb (code c) b'-'
    then Option.map negated (some_digits s)
    else if eqb (code c) b'+'
    then Option.map pos (some_digits s)
    else Option.map pos (some_digits (c ∷ s))

unfoldable pub int_of_text : String → Option ℤ
unfolding digits strip
int_of_text s = signed (strip s)

-- How many parts `split(".")` makes.
unfoldable pub parts : String → ℕ
parts [] = 1
parts (c ∷ s) = let n = parts s in if eqb (code c) b'.' then n + 1 else n

-- A name as it is compared, `text.strip().lower()`.
unfoldable pub normalized : String → String
normalized s = lower (strip s)
