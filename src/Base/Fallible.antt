-- ===== src/Base/Fallible.antt =====
-- Python's exceptions as values, and the loops that build a list out of fallible steps.
use mathlib.Core.Path.{◌≡◌, refl, subst}
use mathlib.Core.List.{List, [], ◌∷◌}
use mathlib.Core.Option.{Option, none, some}

pub data Exception : Type 0 where
  value_error key_error index_error runtime_error type_error attribute_error : Exception
  zero_division_error file_not_found : Exception
  probe_not_trained : Exception

pub data Result {ℓ} (A : Type ℓ) : Type ℓ where
  ok : A → Result A
  raise : Exception → Result A

infixl 5 ◌>>=◌ ◌>>◌
abbrev pub ◌>>=◌ {ℓ κ} : {A : Type ℓ} {B : Type κ} → Result A → (A → Result B) → Result B
ok a >>= f = f a
raise e >>= f = raise e

abbrev pub ◌>>◌ {ℓ κ} : {A : Type ℓ} {B : Type κ} → Result A → Result B → Result B
m >> k = m >>= λ _. k

-- A subscript or a lookup that raises where nothing is found.
abbrev pub or_raise {ℓ} : {A : Type ℓ} → Exception → Option A → Result A
or_raise e none = raise e
or_raise e (some a) = ok a

pub ok-injective {ℓ} : {A : Type ℓ} {x y : A} → ok x ≡ ok y → x ≡ y
ok-injective e = cc

module _ {ℓ κ} {A : Type ℓ} {B : Type κ} where
  -- `[f(x) for x in xs]`, where `f` may raise.
  abbrev pub traverse : (A → Result B) → List A → Result (List B)
  traverse f [] = ok []
  traverse f (x ∷ xs) = f x >>= λ y. traverse f xs >>= λ ys. ok (y ∷ ys)

  pub >>=-eq-ok :
      (m : Result A) (f : A → Result B) {y : B}
      → (m >>= f) ≡ ok y
      → (a : A) × (m ≡ ok a) × (f a ≡ ok y)
  >>=-eq-ok (ok a) f h = (a, refl, h)
  >>=-eq-ok (raise e) f h = cc

-- `P` holds of the result, and `E` if there is none: with `E = Unit` this is partial correctness,
-- with `E = ⊥` it says besides that nothing is raised.
abbrev pub After {ℓ κ} : {A : Type ℓ} → Type κ → Result A → (A → Type κ) → Type κ
After E (ok a) P = P a
After E (raise e) P = E

pub After-bind {ℓ κ μ} :
    {A : Type ℓ} {B : Type κ} (E : Type μ) (P : A → Type μ) (Q : B → Type μ) (m : Result A)
    (f : A → Result B)
    → After E m P
    → ((a : A) → m ≡ ok a → P a → After E (f a) Q)
    → After E (m >>= f) Q
After-bind E P Q (ok a) f h k = k a refl h
After-bind E P Q (raise e) f h k = h

pub After-ok {ℓ μ} :
    {A : Type ℓ} (E : Type μ) (P : A → Type μ) (m : Result A) {a : A} → After E m P → m ≡ ok a → P a
After-ok E P (ok x) h e = subst P (ok-injective e) h
After-ok E P (raise x) h e = cc

pub After-unit {ℓ} : {A : Type ℓ} (m : Result A) → After (Unit {0}) m (λ _. Unit {0})
After-unit (ok a) = tt
After-unit (raise e) = tt

pub After-map {ℓ μ} :
    {A : Type ℓ} (E : Type μ) {P Q : A → Type μ} (m : Result A)
    → After E m P
    → ((a : A) → P a → Q a)
    → After E m Q
After-map E (ok a) h k = k a h
After-map E (raise e) h k = h

pub After-pair {ℓ μ} :
    {A : Type ℓ} (E : Type μ) (P Q : A → Type μ) (m : Result A)
    → After E m P
    → After E m Q
    → After E m (λ a. P a × Q a)
After-pair E P Q (ok a) p q = (p, q)
After-pair E P Q (raise e) p q = p

-- What holds if nothing is raised, and that nothing is raised.
pub After-both {ℓ} :
    {A : Type ℓ} (P Q : A → Type 0) (m : Result A)
    → After ⊥ m P
    → After (Unit {0}) m Q
    → After ⊥ m (λ a. P a × Q a)
After-both P Q (ok a) p q = (p, q)
After-both P Q (raise e) p q = absurd p

pub After-exists {ℓ} :
    {A : Type ℓ} (P : A → Type 0) (m : Result A) → After ⊥ m P → (a : A) × (m ≡ ok a) × P a
After-exists P (ok a) h = (a, refl, h)
After-exists P (raise e) h = absurd h
