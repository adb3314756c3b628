-- ===== src/Result/Outcomes.antt =====
-- Partial correctness of a call: what holds of its value, if it ends with one.
use mathlib.Core.Path.{subst}
use pgify.Base.{◌≡◌, refl, Option, none, some, Bool, true, false, if◌then◌else◌}
use pgify.Result.{Result, ok, fault, Fault, ◌>>=◌}

pub data Ensures {A : Type 0} (P : A → Type 0) : Result A → Type 0 where
  returns : (a : A) → P a → Ensures P (ok a)
  faults : (e : Fault) → Ensures P (fault e)

ok-injective : {A : Type 0} {a b : A} → ok a ≡ ok b → a ≡ b
ok-injective h = cc

pub Ensures-ok : {A : Type 0} {P : A → Type 0} {m : Result A} {a : A} → Ensures P m → m ≡ ok a → P a
Ensures-ok {P} (returns b p) h = subst P (ok-injective h) p
Ensures-ok (faults e) h = cc

module _ {A B : Type 0} {P : A → Type 0} {Q : B → Type 0} where
  pub Ensures-bind :
      {m : Result A} (f : A → Result B)
      → Ensures P m
      → ((a : A) → P a → Ensures Q (f a))
      → Ensures Q (m >>= f)
  Ensures-bind f (returns a p) k = k a p
  Ensures-bind f (faults e) k = faults e

-- Of any call nothing is known.
abbrev pub Anything : {A : Type 0} → A → Type 0
Anything a = Unit {0}

pub Ensures-any : {A : Type 0} (m : Result A) → Ensures Anything m
Ensures-any (ok a) = returns a tt
Ensures-any (fault e) = faults e

-- A step whose value is only handed on.
pub Ensures-step :
    {A B : Type 0} {Q : B → Type 0} (m : Result A) (f : A → Result B)
    → ((a : A) → Ensures Q (f a))
    → Ensures Q (m >>= f)
Ensures-step m f k = Ensures-bind f (Ensures-any m) (λ a _. k a)

-- A split on an answer that may be none.
pub Ensures-option :
    {A B : Type 0} {Q : B → Type 0} (o : Option A) {m : Result B} {f : A → Result B}
    → Ensures Q m
    → ((a : A) → Ensures Q (f a))
    → Ensures Q (elim o [ none ↦ m | some a ↦ f a ])
Ensures-option none p k = p
Ensures-option (some a) p k = k a

pub Ensures-if :
    {B : Type 0} {Q : B → Type 0} (b : Bool) {m n : Result B}
    → Ensures Q m
    → Ensures Q n
    → Ensures Q (if b then m else n)
Ensures-if true p q = p
Ensures-if false p q = q

-- The same split, written as an `elim`.
pub Ensures-choice :
    {B : Type 0} {Q : B → Type 0} (b : Bool) {m n : Result B}
    → Ensures Q m
    → Ensures Q n
    → Ensures Q (elim b [ true ↦ m | false ↦ n ])
Ensures-choice true p q = p
Ensures-choice false p q = q

-- Total correctness: the call ends with a value, and what holds of it.
abbrev pub Runs : {A : Type 0} → (A → Type 0) → Result A → Type 0
Runs {A} P m = (a : A) × (m ≡ ok a) × P a

pub Runs-ok : {A : Type 0} {P : A → Type 0} (a : A) → P a → Runs P (ok a)
Runs-ok a p = (a, refl, p)

pub Runs-bind :
    {A B : Type 0} {P : A → Type 0} {Q : B → Type 0} {m : Result A} (f : A → Result B)
    → Runs P m
    → ((a : A) → P a → Runs Q (f a))
    → Runs Q (m >>= f)
Runs-bind f (a, e, p) k = rw e (k a p)
