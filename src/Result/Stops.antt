-- ===== src/Result/Stops.antt =====
-- Calls that never use up a loop's fuel: such a call ends with a value, of which something may hold,
-- or in one of the other faults.
use pgify.Base.{◌≡◌, ◌≢◌, refl, Option, none, some, Bool, true, false, if◌then◌else◌}
use pgify.Result.{Result, ok, fault, Fault, null_pointer, uninitialised, out_of_fuel, ◌>>=◌, deref}
use pgify.Result.Outcomes.{Runs}

-- A fault of the C code.
pub data IsCrash : Fault → Type 0 where
  null_read : IsCrash null_pointer
  unset_read : IsCrash uninitialised

pub data Stops {A : Type 0} (P : A → Type 0) : Result A → Type 0 where
  value : (a : A) → P a → Stops P (ok a)
  crash : {e : Fault} → IsCrash e → Stops P (fault e)

pub Stops-fuel : {A : Type 0} {P : A → Type 0} {m : Result A} → Stops P m → m ≢ fault out_of_fuel
Stops-fuel (value a p) h = cc
Stops-fuel (crash null_read) h = cc
Stops-fuel (crash unset_read) h = cc

module _ {A B : Type 0} {P : A → Type 0} {Q : B → Type 0} where
  pub Stops-bind :
      {m : Result A} (f : A → Result B)
      → Stops P m
      → ((a : A) → P a → Stops Q (f a))
      → Stops Q (m >>= f)
  Stops-bind f (value a p) k = k a p
  Stops-bind f (crash c) k = crash c

pub Stops-Runs : {A : Type 0} {P : A → Type 0} {m : Result A} → Runs P m → Stops P m
Stops-Runs {P} (a, e, p) = rw e (value a p)

pub Stops-deref :
    {A : Type 0} {P : A → Type 0} (o : Option A) → ((a : A) → o ≡ some a → P a) → Stops P (deref o)
Stops-deref none h = crash null_read
Stops-deref (some a) h = value a (h a refl)

-- A pointer that is read, of which nothing needs to be known.
pub Stops-read :
    {A B : Type 0} {Q : B → Type 0} (o : Option A) (f : A → Result B)
    → ((a : A) → Stops Q (f a))
    → Stops Q (deref o >>= f)
Stops-read none f k = crash null_read
Stops-read (some a) f k = k a

pub Stops-option :
    {A B : Type 0} {Q : B → Type 0} (o : Option A) {m : Result B} {f : A → Result B}
    → Stops Q m
    → ((a : A) → Stops Q (f a))
    → Stops Q (elim o [ none ↦ m | some a ↦ f a ])
Stops-option none p k = p
Stops-option (some a) p k = k a

pub Stops-if :
    {B : Type 0} {Q : B → Type 0} (b : Bool) {m n : Result B}
    → Stops Q m
    → Stops Q n
    → Stops Q (if b then m else n)
Stops-if true p q = p
Stops-if false p q = q
