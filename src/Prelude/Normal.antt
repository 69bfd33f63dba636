-- ===== src/Prelude/Normal.antt =====
-- Names as they are compared: `strip` and `lower` done twice are done once.
use Prim.Native.Nat.{ℕ}
use Prim.Native.Char.{Char, code}
use Prim.Native.String.{String, [], ◌∷◌}
use mathlib.Core.Path.{◌≡◌, refl, sym, ap, ◌∙◌}
use mathlib.Core.Logic.{◌⊎◌, inl, inr}
use mathlib.Core.Bool.{Bool, true, false, not, ◌&&◌}
use native.Mathlib.Omega.{arith}
use text.Mathlib.Text.{◌==◌}
use text.Mathlib.TextEquality.{eq_iff}
use package.genie_promote_cicd.Prelude.Tests.{eqb, Bool-cases}
use package.genie_promote_cicd.Prelude.Texts.{
  is_space, lstrip, rstrip, strip, translate, lower, normalized,
}

abbrev upper_letters : String
upper_letters = "ABCDEFGHIJKLMNOPQRSTUVWXYZ"

abbrev lower_letters : String
lower_letters = "abcdefghijklmnopqrstuvwxyz"

-- Each character of the text passes the test.
abbrev all_chars : (Char → Bool) → String → Bool
all_chars p [] = true
all_chars p (c ∷ s) = p c && all_chars p s

-- Translating keeps a character, or takes one of the source's to one of the target's.
translate_cases :
    (p : ℕ → Bool) (q : Char → Bool) (from to : String) (c : Char)
    → all_chars (λ d. p (code d)) from ≡ true
    → all_chars q to ≡ true
    → (translate from to c ≡ c) ⊎ ((p (code c) ≡ true) × (q (translate from to c) ≡ true))
translate_cases p q [] to c h k = inl refl
translate_cases p q (d ∷ from) [] c h k = inl refl
translate_cases p q (d ∷ from) (e ∷ to) c h k = elim (Bool-cases (eqb (code c) (code d))) [
  | inl t ↦
      let same : code c ≡ code d = ground arith in inr (rw same (ground arith), rw t (ground arith))
  | inr f ↦ elim (translate_cases p q from to c (ground arith) (ground arith)) [
    | inl same ↦ inl (rw f same)
    | inr hit ↦ inr (hit.0, rw f hit.1)
  ]
]

abbrev lower_char : Char → Char
lower_char c = translate upper_letters lower_letters c

abbrev same_char : Char → Char → Bool
same_char c d = (c ∷ []) == (d ∷ [])

abbrev head : Char → String → Char
head c [] = c
head c (d ∷ s) = d

-- A character that `lower` keeps and `strip` too.
abbrev is_small : Char → Bool
is_small c = same_char (lower_char c) c && not (is_space (code c))

lower_char_cases :
    (c : Char)
    → (lower_char c ≡ c) ⊎ ((not (is_space (code c)) ≡ true) × (is_small (lower_char c) ≡ true))
lower_char_cases c =
    translate_cases (λ n. not (is_space n)) is_small upper_letters lower_letters c refl refl

lower_char_idem : (c : Char) → lower_char (lower_char c) ≡ lower_char c
lower_char_idem c = elim (lower_char_cases c) [
  | inl same ↦ ap lower_char same
  | inr hit ↦
      let d = lower_char c in
      let same : same_char (lower_char d) d ≡ true = ground (arith, hit.1) in
      ap (head c) ((eq_iff (lower_char d ∷ []) (d ∷ [])).0 same)
]

is_space-lower_char : (c : Char) → is_space (code (lower_char c)) ≡ is_space (code c)
is_space-lower_char c = elim (lower_char_cases c) [
  | inl same ↦ ap (λ d. is_space (code d)) same
  | inr hit ↦ ground (arith, hit.0, hit.1)
]

lower_idem : (s : String) → lower (lower s) ≡ lower s
unfolding lower
lower_idem [] = refl
lower_idem (c ∷ s) = rw (lower_char_idem c, lower_idem s)

lower-lstrip : (s : String) → lstrip (lower s) ≡ lower (lstrip s)
unfolding lower lstrip
lower-lstrip [] = refl
lower-lstrip (c ∷ s) = elim (Bool-cases (is_space (code c))) [
  | inl t ↦ rw (is_space-lower_char c, t) (lower-lstrip s)
  | inr f ↦ rw (is_space-lower_char c, f)
]

lstrip_idem : (s : String) → lstrip (lstrip s) ≡ lstrip s
unfolding lstrip
lstrip_idem [] = refl
lstrip_idem (c ∷ s) = elim (Bool-cases (is_space (code c))) [
  | inl t ↦ rw t (lstrip_idem s)
  | inr f ↦ rw (f, f)
]

-- A character that is not dropped.
rstrip_cons :
    (c : Char) (s : String)
    → (is_space (code c) && rstrip s == "") ≡ false
    → rstrip (c ∷ s) ≡ c ∷ rstrip s
unfolding rstrip
rstrip_cons c s h = rw h

cons_empty : (c : Char) (s : String) → ((c ∷ s) == "") ≡ false
cons_empty c s = elim (Bool-cases ((c ∷ s) == "")) [
  | inl t ↦ let same : c ∷ s ≡ "" = (eq_iff (c ∷ s) "").0 t in absurd (cc)
  | inr f ↦ f
]

empty-lower : (s : String) → (lower s == "") ≡ (s == "")
unfolding lower
empty-lower [] = refl
empty-lower (c ∷ s) = cons_empty (lower_char c) (lower s) ∙ sym (cons_empty c s)

rstrip-lower : (s : String) → rstrip (lower s) ≡ lower (rstrip s)
unfolding lower rstrip
rstrip-lower [] = refl
rstrip-lower (c ∷ s) =
    rw (is_space-lower_char c, rstrip-lower s, empty-lower (rstrip s))
      (elim (Bool-cases (is_space (code c) && rstrip s == "")) [ inl t ↦ rw t | inr f ↦ rw f ])

rstrip_idem : (s : String) → rstrip (rstrip s) ≡ rstrip s
unfolding rstrip
rstrip_idem [] = refl
rstrip_idem (c ∷ s) = elim (Bool-cases (is_space (code c) && rstrip s == "")) [
  | inl t ↦ rw t
  | inr f ↦ rw (f, rstrip_idem s, f)
]

lstrip-rstrip : (s : String) → lstrip (rstrip s) ≡ rstrip (lstrip s)
unfolding lstrip rstrip
lstrip-rstrip [] = refl
lstrip-rstrip (c ∷ s) = elim (Bool-cases (is_space (code c))) [
  | inl t ↦ elim (Bool-cases (rstrip s == "")) [
    | inl u ↦
        let gone : rstrip s ≡ "" = (eq_iff (rstrip s) "").0 u in
        rw (t, u) (ap lstrip (sym gone) ∙ lstrip-rstrip s)
    | inr v ↦ rw (t, v, t) (lstrip-rstrip s)
  ]
  | inr f ↦ rw (f, f)
]

pub strip_idem : (s : String) → strip (strip s) ≡ strip s
unfolding strip
strip_idem s = rw (lstrip-rstrip (lstrip s), lstrip_idem s) (rstrip_idem (lstrip s))

strip-lower : (s : String) → strip (lower s) ≡ lower (strip s)
unfolding strip
strip-lower s = rw (lower-lstrip s) (rstrip-lower (lstrip s))

pub normalized_idem : (s : String) → normalized (normalized s) ≡ normalized s
unfolding normalized
normalized_idem s = rw (strip-lower (strip s), strip_idem s) (lower_idem (strip s))
