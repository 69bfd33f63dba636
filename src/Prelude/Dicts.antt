-- ===== src/Prelude/Dicts.antt =====
-- A Python dictionary with text keys, as its items in order: a new key goes to the end, and a write
-- to a key that is there keeps its place.
use mathlib.Core.Path.{◌≡◌, refl, ap}
use mathlib.Core.Logic.{◌⊎◌, inl, inr}
use mathlib.Core.Bool.{Bool, true, false, not}
use mathlib.Core.Option.{Option, none, some}
use mathlib.Core.List.{List, [], ◌∷◌, ◌++◌, map, Memᴰ}
use native.Mathlib.Omega.{arith}
use Prim.Native.String.{String}
use text.Mathlib.Text.{◌==◌}
use text.Mathlib.TextEquality.{eq_iff}
use package.genie_promote_cicd.Prelude.Tests.{if◌then◌else◌, Bool-cases}
use package.genie_promote_cicd.Prelude.Lists.{All}

abbrev pub Dict {ℓ} : Type ℓ → Type ℓ
Dict V = List (String × V)

module _ {ℓ} {V : Type ℓ} where
  -- `d.get(key)`
  abbrev pub lookup : String → Dict V → Option V
  lookup k [] = none
  lookup k ((j, v) ∷ d) = let rest = lookup k d in if j == k then some v else rest

  -- `d[key] = value`
  abbrev pub insert : String → V → Dict V → Dict V
  insert k v [] = (k, v) ∷ []
  insert k v ((j, w) ∷ d) = let rest = (j, w) ∷ insert k v d in if j == k then (j, v) ∷ d else rest

  -- `d.values()`
  abbrev pub values : Dict V → List V
  values [] = []
  values ((k, v) ∷ d) = v ∷ values d

  pub lookup-insert :
      (k j : String) (v : V) (d : Dict V)
      → lookup j (insert k v d) ≡ (if k == j then some v else lookup j d)
  lookup-insert k j v [] = refl
  lookup-insert k j v ((i, w) ∷ d) =
      ground (arith, eq_iff k j, eq_iff i k, eq_iff i j, lookup-insert k j v d)

  -- A value of the new dictionary is the one that was written, or was there before.
  pub values-insert_cases :
      (k : String) (v : V) (d : Dict V) {x : V}
      → Memᴰ x (values (insert k v d))
      → (x ≡ v) ⊎ Memᴰ x (values d)
  values-insert_cases k v [] (Memᴰ.head e) = inl e
  values-insert_cases k v [] (Memᴰ.tail m) = elim m [ ]
  values-insert_cases k v ((j, w) ∷ d) {x} m = split (j == k) (values-insert_cases k v d) m
    where
      split :
          (b : Bool)
          → (Memᴰ x (values (insert k v d)) → (x ≡ v) ⊎ Memᴰ x (values d))
          → Memᴰ x (values (if b then (j, v) ∷ d else (j, w) ∷ insert k v d))
          → (x ≡ v) ⊎ Memᴰ x (w ∷ values d)
      split true ih (Memᴰ.head e) = inl e
      split true ih (Memᴰ.tail n) = inr (Memᴰ.tail n)
      split false ih (Memᴰ.head e) = inr (Memᴰ.head e)
      split false ih (Memᴰ.tail n) = elim (ih n) [ inl e ↦ inl e | inr o ↦ inr (Memᴰ.tail o) ]

  pub values-lookup : (k : String) (d : Dict V) {v : V} → lookup k d ≡ some v → Memᴰ v (values d)
  values-lookup k [] h = absurd (cc)
  values-lookup k ((j, w) ∷ d) {v} h = elim (Bool-cases (j == k)) [
    | inl t ↦ Memᴰ.head (ground arith)
    | inr f ↦ Memᴰ.tail (values-lookup k d (ground arith))
  ]

  -- A new key goes to the end.
  pub insert_fresh :
      (k : String) (v : V) (d : Dict V) → lookup k d ≡ none → insert k v d ≡ d ++ (k, v) ∷ []
  insert_fresh k v [] h = refl
  insert_fresh k v ((j, w) ∷ d) h = ground (arith, insert_fresh k v d)

  pub lookup-append :
      (k : String) (d e : Dict V)
      → lookup k (d ++ e) ≡ elim (lookup k d) [ none ↦ lookup k e | some v ↦ some v ]
  lookup-append k [] e = refl
  lookup-append k ((j, w) ∷ d) e = ground (arith, lookup-append k d e)

  pub values-append : (d e : Dict V) → values (d ++ e) ≡ values d ++ values e
  values-append [] e = refl
  values-append ((j, w) ∷ d) e = ap (λ l. w ∷ l) (values-append d e)

  -- A view of the values that a write does not change stays as it was.
  pub map-values-insert {κ} :
      {B : Type κ} (view : V → B) (k : String) (v w : V) (d : Dict V)
      → lookup k d ≡ some w
      → view v ≡ view w
      → map view (values (insert k v d)) ≡ map view (values d)
  map-values-insert view k v w [] h e = absurd (cc)
  map-values-insert view k v w ((j, u) ∷ d) h e = elim (Bool-cases (j == k)) [
    | inl t ↦ rw t (let same : u ≡ w = ground arith in cc)
    | inr f ↦ rw f (ap (λ l. view u ∷ l) (map-values-insert view k v w d (ground arith) e))
  ]

  pub All-values-insert {κ} :
      (P : V → Type κ) (k : String) (v : V) (d : Dict V)
      → P v
      → All P (values d)
      → All P (values (insert k v d))
  All-values-insert P k v [] h a = (h, tt)
  All-values-insert P k v ((j, w) ∷ d) h a = elim (Bool-cases (j == k)) [
    | inl t ↦ rw t (h, a.1)
    | inr f ↦ rw f (a.0, All-values-insert P k v d h a.1)
  ]

  -- Each key once.
  abbrev pub IsDict : Dict V → Type ℓ
  IsDict [] = Unit
  IsDict ((k, v) ∷ d) = (lookup k d ≡ none) × IsDict d

  pub insert-IsDict : (k : String) (v : V) (d : Dict V) → IsDict d → IsDict (insert k v d)
  insert-IsDict k v [] h = (refl, tt)
  insert-IsDict k v ((j, w) ∷ d) h = elim (Bool-cases (j == k)) [
    | inl t ↦ rw t h
    | inr f ↦ rw f (
      ground (arith, lookup-insert k j v d, eq_iff k j, eq_iff j k, h.0),
      insert-IsDict k v d h.1,
    )
  ]

  pub key_of_values :
      (d : Dict V) {v : V} → IsDict d → Memᴰ v (values d) → (k : String) × (lookup k d ≡ some v)
  key_of_values ((j, w) ∷ d) {v} h (Memᴰ.head e) = (j, ground (arith, eq_iff j j))
  key_of_values ((j, w) ∷ d) {v} h (Memᴰ.tail m) =
      let (k, found) = key_of_values d h.1 m in (k, ground (arith, eq_iff j k, h.0, found))
  key_of_values [] h m = elim m [ ]

  -- `{k: v for k, v in d.items() if p(k)}`
  abbrev pub keep : (String → Bool) → Dict V → Dict V
  keep p [] = []
  keep p ((k, v) ∷ d) = let rest = keep p d in if p k then (k, v) ∷ rest else rest

  pub lookup-keep :
      (p : String → Bool) (k : String) (d : Dict V)
      → lookup k (keep p d) ≡ (if p k then lookup k d else none)
  lookup-keep p k [] = ground arith
  lookup-keep p k ((j, v) ∷ d) = ground (arith, eq_iff j k, lookup-keep p k d)

  pub keep-IsDict : (p : String → Bool) (d : Dict V) → IsDict d → IsDict (keep p d)
  keep-IsDict p [] h = tt
  keep-IsDict p ((j, v) ∷ d) h = elim (Bool-cases (p j)) [
    | inl t ↦ rw t (ground (arith, lookup-keep p j d, h.0), keep-IsDict p d h.1)
    | inr f ↦ rw f (keep-IsDict p d h.1)
  ]

  -- `d.pop(key, None)`
  abbrev pub remove : String → Dict V → Dict V
  remove k d = keep (λ j. not (k == j)) d

  pub lookup-remove :
      (k j : String) (d : Dict V) → lookup j (remove k d) ≡ (if k == j then none else lookup j d)
  lookup-remove k j d = ground (arith, lookup-keep (λ i. not (k == i)) j d)
