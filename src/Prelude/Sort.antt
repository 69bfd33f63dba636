-- ===== src/Prelude/Sort.antt =====
-- Python's `sorted`: stable, so elements that the order does not tell apart keep their places. The
-- test `le` is the order of the keys; with `reverse=True` it is the reverse order of the keys, and
-- the sort is stable there too.
use mathlib.Core.Path.{◌≡◌, refl, sym, subst}
use mathlib.Core.Logic.{◌⊎◌, inl, inr}
use mathlib.Core.Bool.{Bool, true, false}
use mathlib.Core.List.Perm
use mathlib.Core.List.{List, [], ◌∷◌, Perm, Memᴰ}
use package.genie_promote_cicd.Prelude.Tests.{if◌then◌else◌, Bool-cases}
use package.genie_promote_cicd.Prelude.Lists.{All}

module _ {ℓ} {A : Type ℓ} (le : A → A → Bool) where
  abbrev pub place : A → List A → List A
  place x [] = x ∷ []
  place x (y ∷ ys) = let rest = y ∷ place x ys in if le x y then x ∷ y ∷ ys else rest

  abbrev pub sort_by : List A → List A
  sort_by [] = []
  sort_by (x ∷ xs) = place x (sort_by xs)

  pub place-perm : (x : A) (ys : List A) → Perm (place x ys) (x ∷ ys)
  place-perm x [] = Perm.rfl
  place-perm x (y ∷ ys) = elim (Bool-cases (le x y)) [
    | inl t ↦ rw t Perm.rfl
    | inr f ↦ rw f (Perm.trans (Perm.cons y (place-perm x ys)) (Perm.swap x y ys))
  ]

  pub sort_by-perm : (xs : List A) → Perm (sort_by xs) xs
  sort_by-perm [] = Perm.rfl
  sort_by-perm (x ∷ xs) = Perm.trans (place-perm x (sort_by xs)) (Perm.cons x (sort_by-perm xs))

  -- Each element is in order with all that follow it.
  abbrev pub IsOrdered : List A → Type ℓ
  IsOrdered [] = Unit
  IsOrdered (x ∷ xs) = All (λ y. le x y ≡ true) xs × IsOrdered xs

  pub sort_by_of_IsOrdered : (xs : List A) → IsOrdered xs → sort_by xs ≡ xs
  sort_by_of_IsOrdered [] h = refl
  sort_by_of_IsOrdered (x ∷ []) h = refl
  sort_by_of_IsOrdered (x ∷ y ∷ ys) h = rw (sort_by_of_IsOrdered (y ∷ ys) h.1) (rw (h.0.0) refl)

  module _ (trans : (x y z : A) → le x y ≡ true → le y z ≡ true → le x z ≡ true)
      (total : (x y : A) → le x y ≡ false → le y x ≡ true) where
    All-le_trans :
        (x y : A) (ys : List A)
        → le x y ≡ true
        → All (λ z. le y z ≡ true) ys
        → All (λ z. le x z ≡ true) ys
    All-le_trans x y [] h k = tt
    All-le_trans x y (z ∷ zs) h k = (trans x y z h k.0, All-le_trans x y zs h k.1)

    All-place {κ} : (P : A → Type κ) (x : A) (ys : List A) → P x → All P ys → All P (place x ys)
    All-place P x [] h k = (h, tt)
    All-place P x (y ∷ ys) h k = elim (Bool-cases (le x y)) [
      | inl t ↦ rw t (h, k)
      | inr f ↦ rw f (k.0, All-place P x ys h k.1)
    ]

    place-IsOrdered : (x : A) (ys : List A) → IsOrdered ys → IsOrdered (place x ys)
    place-IsOrdered x [] h = (tt, tt)
    place-IsOrdered x (y ∷ ys) h = elim (Bool-cases (le x y)) [
      | inl t ↦ rw t ((t, All-le_trans x y ys t h.0), h)
      | inr f ↦
          rw f (All-place (λ z. le y z ≡ true) x ys (total x y f) h.0, place-IsOrdered x ys h.1)
    ]

    pub sort_by-IsOrdered : (xs : List A) → IsOrdered (sort_by xs)
    sort_by-IsOrdered [] = tt
    sort_by-IsOrdered (x ∷ xs) = place-IsOrdered x (sort_by xs) (sort_by-IsOrdered xs)

  pub mem-place : {z : A} (x : A) (ys : List A) → Memᴰ z (place x ys) → (z ≡ x) ⊎ Memᴰ z ys
  mem-place x [] (Memᴰ.head e) = inl e
  mem-place x [] (Memᴰ.tail m) = elim m [ ]
  mem-place {z} x (y ∷ ys) m = split (le x y) (mem-place x ys) m
    where
      split :
          (b : Bool)
          → (Memᴰ z (place x ys) → (z ≡ x) ⊎ Memᴰ z ys)
          → Memᴰ z (if b then x ∷ y ∷ ys else y ∷ place x ys)
          → (z ≡ x) ⊎ Memᴰ z (y ∷ ys)
      split true ih (Memᴰ.head e) = inl e
      split true ih (Memᴰ.tail n) = inr n
      split false ih (Memᴰ.head e) = inr (Memᴰ.head e)
      split false ih (Memᴰ.tail n) = elim (ih n) [ inl e ↦ inl e | inr o ↦ inr (Memᴰ.tail o) ]

  pub mem-sort_by : {z : A} (xs : List A) → Memᴰ z (sort_by xs) → Memᴰ z xs
  mem-sort_by [] m = m
  mem-sort_by (x ∷ xs) m = elim (mem-place x (sort_by xs) m) [
    | inl e ↦ Memᴰ.head e
    | inr n ↦ Memᴰ.tail (mem-sort_by xs n)
  ]

  place-mem_self : (x : A) (ys : List A) → Memᴰ x (place x ys)
  place-mem_self x [] = Memᴰ.head refl
  place-mem_self x (y ∷ ys) = elim (Bool-cases (le x y)) [
    | inl t ↦ rw t (Memᴰ.head refl)
    | inr f ↦ rw f (Memᴰ.tail (place-mem_self x ys))
  ]

  place-mem : {z : A} (x : A) {ys : List A} → Memᴰ z ys → Memᴰ z (place x ys)
  place-mem x (Memᴰ.head {x = y} e) = elim (Bool-cases (le x y)) [
    | inl t ↦ rw t (Memᴰ.tail (Memᴰ.head e))
    | inr f ↦ rw f (Memᴰ.head e)
  ]
  place-mem x (Memᴰ.tail {x = y} m) = elim (Bool-cases (le x y)) [
    | inl t ↦ rw t (Memᴰ.tail (Memᴰ.tail m))
    | inr f ↦ rw f (Memᴰ.tail (place-mem x m))
  ]

  pub sort_by-mem : {z : A} {xs : List A} → Memᴰ z xs → Memᴰ z (sort_by xs)
  sort_by-mem {z} (Memᴰ.head {x = y} {xs = ys} e) =
      subst (λ w. Memᴰ w (place y (sort_by ys))) (sym e) (place-mem_self y (sort_by ys))
  sort_by-mem (Memᴰ.tail {x = y} m) = place-mem y (sort_by-mem m)
