-- ===== src/Prelude/Lists.antt =====
-- Lists tested by Boolean predicates, as comprehensions, `any` and `all` do, and measured by
-- native numbers.
use Prim.Native.Nat.{ℕ, zero, suc, ◌+◌}
use mathlib.Core.Path.{◌≡◌, refl, sym, ◌∙◌, ap, subst}
use mathlib.Core.Logic.{◌⊎◌, inl, inr}
use mathlib.Core.Bool.{Bool, true, false, ◌&&◌, ◌||◌}
use mathlib.Core.Option.{Option, none, some}
use mathlib.Core.List.{List, [], ◌∷◌, ◌++◌, Memᴰ}
use native.Mathlib.Omega.{arith}
use package.genie_promote_cicd.Prelude.Tests.{if◌then◌else◌, Bool-cases}

module _ {ℓ} {A : Type ℓ} where
  abbrev pub length : List A → ℕ
  length [] = 0
  length (x ∷ xs) = suc (length xs)

  abbrev pub any : (A → Bool) → List A → Bool
  any p [] = false
  any p (x ∷ xs) = p x || any p xs

  abbrev pub all : (A → Bool) → List A → Bool
  all p [] = true
  all p (x ∷ xs) = p x && all p xs

  -- `[x for x in xs if p(x)]`
  abbrev pub select : (A → Bool) → List A → List A
  select p [] = []
  select p (x ∷ xs) = let rest = select p xs in if p x then x ∷ rest else rest

  -- `next((x for x in xs if p(x)), None)`
  abbrev pub find_first : (A → Bool) → List A → Option A
  find_first p [] = none
  find_first p (x ∷ xs) = let rest = find_first p xs in if p x then some x else rest

  abbrev pub take : ℕ → List A → List A
  take zero xs = []
  take (suc n) [] = []
  take (suc n) (x ∷ xs) = x ∷ take n xs

  abbrev pub drop : ℕ → List A → List A
  drop zero xs = xs
  drop (suc n) [] = []
  drop (suc n) (x ∷ xs) = drop n xs

  abbrev pub All {κ} : (A → Type κ) → List A → Type κ
  All P [] = Unit
  All P (x ∷ xs) = P x × All P xs

  pub length-append : (xs ys : List A) → length (xs ++ ys) ≡ length xs + length ys
  length-append [] ys = omega arith
  length-append (x ∷ xs) ys = omega (arith, length-append xs ys)

  pub any-append : (p : A → Bool) (xs ys : List A) → any p (xs ++ ys) ≡ (any p xs || any p ys)
  any-append p [] ys = refl
  any-append p (x ∷ xs) ys = ground (arith, any-append p xs ys)

  pub select-append :
      (p : A → Bool) (xs ys : List A) → select p (xs ++ ys) ≡ select p xs ++ select p ys
  select-append p [] ys = refl
  select-append p (x ∷ xs) ys = ground (arith, select-append p xs ys)

  pub any-mem : (p : A → Bool) {x : A} {xs : List A} → Memᴰ x xs → p x ≡ true → any p xs ≡ true
  any-mem p (Memᴰ.head {x = y} e) h = ground (arith, ap p e)
  any-mem p (Memᴰ.tail {x = y} m) h = ground (arith, any-mem p m h)

  pub any-exists :
      (p : A → Bool) (xs : List A) → any p xs ≡ true → (x : A) × Memᴰ x xs × (p x ≡ true)
  any-exists p (x ∷ xs) h = elim (Bool-cases (p x)) [
    | inl t ↦ (x, Memᴰ.head refl, t)
    | inr f ↦ let (y, m, t) = any-exists p xs (ground arith) in (y, Memᴰ.tail m, t)
  ]
  any-exists p [] h = absurd (cc)

  pub mem-select :
      (p : A → Bool) {x : A} (xs : List A) → Memᴰ x (select p xs) → Memᴰ x xs × (p x ≡ true)
  mem-select p [] m = elim m [ ]
  mem-select p {x} (y ∷ xs) m = go (Bool-cases (p y)) m (mem-select p xs)
    where
      go :
          (p y ≡ true) ⊎ (p y ≡ false)
          → Memᴰ x (select p (y ∷ xs))
          → (Memᴰ x (select p xs) → Memᴰ x xs × (p x ≡ true))
          → Memᴰ x (y ∷ xs) × (p x ≡ true)
      go (inl t) k ih =
          first (subst (λ (b : Bool). Memᴰ x (if b then y ∷ select p xs else select p xs)) t k)
        where
          first : Memᴰ x (y ∷ select p xs) → Memᴰ x (y ∷ xs) × (p x ≡ true)
          first (Memᴰ.head e) = (Memᴰ.head e, subst (λ z. p z ≡ true) (sym e) t)
          first (Memᴰ.tail n) = (Memᴰ.tail (ih n).0, (ih n).1)
      go (inr f) k ih =
          let n = subst (λ (b : Bool). Memᴰ x (if b then y ∷ select p xs else select p xs)) f k in
          (Memᴰ.tail (ih n).0, (ih n).1)

  pub select-mem :
      (p : A → Bool) {x : A} {xs : List A} → Memᴰ x xs → p x ≡ true → Memᴰ x (select p xs)
  select-mem p {x} (Memᴰ.head {x = y} {xs = ys} e) h =
      let t : p y ≡ true = subst (λ z. p z ≡ true) e h in
      subst (λ (b : Bool). Memᴰ x (if b then y ∷ select p ys else select p ys)) (sym t)
        (Memᴰ.head e)
  select-mem p {x} (Memᴰ.tail {x = y} {xs = ys} m) h = elim (Bool-cases (p y)) [
    | inl t ↦
        subst (λ (b : Bool). Memᴰ x (if b then y ∷ select p ys else select p ys)) (sym t)
          (Memᴰ.tail (select-mem p m h))
    | inr f ↦
        subst (λ (b : Bool). Memᴰ x (if b then y ∷ select p ys else select p ys)) (sym f)
          (select-mem p m h)
  ]

  pub all-select : (p q : A → Bool) (xs : List A) → all q xs ≡ true → all q (select p xs) ≡ true
  all-select p q [] h = refl
  all-select p q (x ∷ xs) h = ground (arith, all-select p q xs)

  pub take-append-drop : (n : ℕ) (xs : List A) → take n xs ++ drop n xs ≡ xs
  take-append-drop zero xs = refl
  take-append-drop (suc n) [] = refl
  take-append-drop (suc n) (x ∷ xs) = ap (λ ys. x ∷ ys) (take-append-drop n xs)

  pub All-append {κ} : (P : A → Type κ) (xs ys : List A) → All P xs → All P ys → All P (xs ++ ys)
  All-append P [] ys h k = k
  All-append P (x ∷ xs) ys h k = (h.0, All-append P xs ys h.1 k)

  pub All-mem {κ} : (P : A → Type κ) {x : A} {xs : List A} → All P xs → Memᴰ x xs → P x
  All-mem P h (Memᴰ.head e) = subst P (sym e) h.0
  All-mem P h (Memᴰ.tail m) = All-mem P h.1 m

  pub All-of_mem {κ} : (P : A → Type κ) (xs : List A) → ((x : A) → Memᴰ x xs → P x) → All P xs
  All-of_mem P [] h = tt
  All-of_mem P (x ∷ xs) h = (h x (Memᴰ.head refl), All-of_mem P xs (λ y m. h y (Memᴰ.tail m)))

  pub find_first-mem :
      (p : A → Bool) (xs : List A) {x : A} → find_first p xs ≡ some x → Memᴰ x xs × (p x ≡ true)
  find_first-mem p [] h = absurd (cc)
  find_first-mem p (y ∷ ys) {x} h = elim (Bool-cases (p y)) [
    | inl t ↦
        let same : y ≡ x = ground arith in (Memᴰ.head (sym same), subst (λ z. p z ≡ true) same t)
    | inr f ↦ let (m, t) = find_first-mem p ys {x = x} (ground arith) in (Memᴰ.tail m, t)
  ]

  pub find_first_of_any :
      (p : A → Bool) (xs : List A) → any p xs ≡ true → (x : A) × (find_first p xs ≡ some x)
  find_first_of_any p [] h = absurd (cc)
  find_first_of_any p (y ∷ ys) h = elim (Bool-cases (p y)) [
    | inl t ↦ (y, rw t)
    | inr f ↦ let (x, e) = find_first_of_any p ys (ground arith) in (x, rw f e)
  ]

  pub take-nil : (n : ℕ) → take n [] ≡ []
  take-nil zero = refl
  take-nil (suc n) = refl

  pub drop-nil : (n : ℕ) → drop n [] ≡ []
  drop-nil zero = refl
  drop-nil (suc n) = refl

  pub take_add : (m n : ℕ) (xs : List A) → take m xs ++ take n (drop m xs) ≡ take (m + n) xs
  take_add zero n xs = ground arith
  take_add (suc m) n [] = take-nil n ∙ sym (take-nil (suc m + n))
  take_add (suc m) n (x ∷ xs) =
      let e : suc m + n ≡ suc (m + n) = omega arith in rw e (ap (λ l. x ∷ l) (take_add m n xs))

  pub drop_add : (k m : ℕ) (xs : List A) → drop m (drop k xs) ≡ drop (k + m) xs
  drop_add zero m xs = ground arith
  drop_add (suc k) m [] = drop-nil m ∙ sym (drop-nil (suc k + m))
  drop_add (suc k) m (x ∷ xs) =
      let e : suc k + m ≡ suc (k + m) = omega arith in rw e (drop_add k m xs)
