-- ===== src/Result.antt =====
-- How a call of the program can end: with a value, or in a fault of the C code.
pub mod Outcomes
pub mod Stops
use pgify.Base.{◌≡◌, refl, Option, none, some}

-- A dereference of NULL, a read of a variable that was never set, and a loop's fuel used up.
pub data Fault : Type 0 where
  null_pointer uninitialised out_of_fuel : Fault

pub data Result {ℓ} (A : Type ℓ) : Type ℓ where
  ok : A → Result A
  fault : Fault → Result A

infixl 5 ◌>>=◌
abbrev pub ◌>>=◌ {ℓ κ} : {A : Type ℓ} {B : Type κ} → Result A → (A → Result B) → Result B
ok a >>= f = f a
fault e >>= f = fault e

-- A pointer that is dereferenced.
abbrev pub deref {ℓ} : {A : Type ℓ} → Option A → Result A
deref none = fault null_pointer
deref (some a) = ok a

module _ {ℓ κ} {A : Type ℓ} {B : Type κ} where
  -- What a sequence that ends with a value went through.
  pub bind-eq-ok :
      (first : Result A) (later : A → Result B) {result : B}
      → first >>= later ≡ ok result
      → (mid : A) × (first ≡ ok mid) × (later mid ≡ ok result)
  bind-eq-ok (ok mid) later h = (mid, refl, h)
  bind-eq-ok (fault e) later h = cc

  pub bind-cong :
      (m : Result A) (f g : A → Result B) → ((a : A) → f a ≡ g a) → (m >>= f) ≡ (m >>= g)
  bind-cong (ok a) f g h = h a
  bind-cong (fault e) f g h = refl
