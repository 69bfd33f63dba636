-- ===== src/Prelude/Effects.antt =====
-- Methods that read and write an object's state and may raise. What was written before a raise stays
-- written, so the state comes back beside the exception too. An exception keeps its class; the text
-- of its message is left out.
use mathlib.Core.Path.{◌≡◌, refl, sym, ap, subst}
use mathlib.Core.Bool.{Bool, true, false}

pub data Exn : Type 0 where
  value_error duplicate_change_request last_admin_error runtime_error access_denied external_error :
      Exn

pub data Result {ℓ} (A : Type ℓ) : Type ℓ where
  ok : A → Result A
  raise : Exn → Result A

abbrev pub Exec {ℓ} : Type ℓ → Type ℓ → Type ℓ
Exec S A = S → Result A × S

module _ {ℓ} {S A : Type ℓ} where
  abbrev pub pure : A → Exec S A
  pure a s = (ok a, s)

  abbrev pub throw : Exn → Exec S A
  throw e s = (raise e, s)

module _ {S : Type 0} where
  abbrev pub modify : (S → S) → Exec S Unit
  modify f s = (ok tt, f s)

  -- `if test: raise e`
  abbrev pub raise_if : Bool → Exn → Exec S Unit
  raise_if true e s = (raise e, s)
  raise_if false e s = (ok tt, s)

module _ {ℓ} {S A B : Type ℓ} where
  abbrev pub and_then : Result A → (A → Exec S B) → Exec S B
  and_then (ok a) f s = f a s
  and_then (raise e) f s = (raise e, s)

  infixl 5 ◌>>=◌ ◌>>◌
  abbrev pub ◌>>=◌ : Exec S A → (A → Exec S B) → Exec S B
  ◌>>=◌ m f s = let (r, s') = m s in and_then r f s'

  abbrev pub ◌>>◌ : Exec S A → Exec S B → Exec S B
  m >> n = m >>= λ _. n

-- Returning a value afterwards does not change the state that an action leaves.
pub state-map {ℓ} :
    {S A B : Type ℓ} (r : Result A) (f : A → B) (s : S) → (and_then r (λ a. pure (f a)) s).1 ≡ s
state-map (ok a) f s = refl
state-map (raise e) f s = refl

pub keep_state {ℓ κ} :
    {S A B : Type ℓ} (P : S → Type κ) (m : Exec S A) (f : A → B) (s : S)
    → P (m s).1
    → P ((m >>= λ a. pure (f a)) s).1
keep_state P m f s h = subst P (sym (state-map (m s).0 f (m s).1)) h

-- What each part of a sequence keeps the sequence keeps, whether it returns or raises.
pub bind-keeps {ℓ κ} :
    {S A B : Type ℓ} (P : S → Type κ) (m : Exec S A) (f : A → Exec S B) (s : S)
    → P (m s).1
    → ((a : A) (t : S) → P t → P (f a t).1)
    → P ((m >>= f) s).1
bind-keeps {S = S} {A = A} P m f s h k = after (m s).0 (m s).1 h
  where
    after : (r : Result A) (t : S) → P t → P (and_then r f t).1
    after (ok a) t g = k a t g
    after (raise e) t g = g

-- A sequence that returns is one whose parts return.
pub and_then-ok :
    {S A B : Type 0} (m : Exec S A) (f : A → Exec S B) (s : S) (x : B)
    → ((m >>= f) s).0 ≡ ok x
    → (a : A) × ((m s).0 ≡ ok a) × ((f a (m s).1).0 ≡ ok x)
and_then-ok {S} {A} {B} m f s x h = go (m s).0 (m s).1 h
  where
    go :
        (r : Result A) (t : S)
        → (and_then r f t).0 ≡ ok x
        → (a : A) × (r ≡ ok a) × ((f a t).0 ≡ ok x)
    go (ok a) t k = (a, refl, k)
    go (raise e) t k = absurd (cc)

pub bind-ok :
    {S A B : Type 0} (m : Exec S A) (f : A → Exec S B) (s t : S) (x : B)
    → (m >>= f) s ≡ (ok x, t)
    → (a : A) × ((m s).0 ≡ ok a) × (f a (m s).1 ≡ (ok x, t))
bind-ok {S} {A} {B} m f s t x h = go (m s).0 (m s).1 h
  where
    go :
        (r : Result A) (u : S)
        → and_then r f u ≡ (ok x, t)
        → (a : A) × (r ≡ ok a) × (f a u ≡ (ok x, t))
    go (ok a) u k = (a, refl, k)
    go (raise e) u k = let e' = ap (λ p. p.0) k in absurd (cc)
