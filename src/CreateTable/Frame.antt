-- ===== src/CreateTable/Frame.antt =====
-- What the passes over a table keep of its children: where it starts, its name, and a property of
-- each child.
use pgify.Base.{
  ℕ, zero, suc, ◌≡◌, ◌≢◌, refl, ◌∙◌, String, Bool, true, false, ◌||◌, List, [], ◌∷◌, some,
  get_elem?, set, remove_at, ◌==◌, test_of_ne,
}
use mathlib.Core.Option.{some-injective}
use mathlib.Core.Path.{subst}
use pgify.Antlr.{Antlr, get_type}
use pgify.CreateTable.Name.Laws.{first_name}
use pgify.TokenTypes.{
  id, comma, t_create_table_index, t_create_table_fkey, t_create_table_fulltext_index,
  t_create_table_options,
}

-- The types of the children that a pass may delete.
abbrev pub is_removed : ℕ → Bool
is_removed k =
    k == t_create_table_index
    || (k == t_create_table_fkey
        || (k == t_create_table_fulltext_index || (k == t_create_table_options || k == comma)))

module _ {T : Type 0} where
  abbrev pub Every : (T → Type 0) → List T → Type 0
  Every P [] = Unit {0}
  Every P (x ∷ xs) = P x × Every P xs

  pub Every-at :
      (P : T → Type 0) (xs : List T) (i : ℕ) {x : T} → Every P xs → get_elem? xs i ≡ some x → P x
  Every-at P [] i e h = cc
  Every-at P (y ∷ xs) zero e h = subst P (some-injective _ _ h) e.0
  Every-at P (y ∷ xs) (suc i) e h = Every-at P xs i e.1 h

  pub Every-of :
      (P : T → Type 0) (xs : List T)
      → ((i : ℕ) (x : T) → get_elem? xs i ≡ some x → P x)
      → Every P xs
  Every-of P [] f = tt
  Every-of P (x ∷ xs) f = (f 0 x refl, Every-of P xs (λ i y h. f (suc i) y h))

  pub Every-map : (P Q : T → Type 0) (xs : List T) → ((x : T) → P x → Q x) → Every P xs → Every Q xs
  Every-map P Q [] f e = tt
  Every-map P Q (x ∷ xs) f e = (f x e.0, Every-map P Q xs f e.1)

  pub Every-set :
      (P : T → Type 0) (xs : List T) (i : ℕ) (y : T) → P y → Every P xs → Every P (set xs i y)
  Every-set P [] i y p e = tt
  Every-set P (x ∷ xs) zero y p e = (p, e.1)
  Every-set P (x ∷ xs) (suc i) y p e = (e.0, Every-set P xs i y p e.1)

  pub Every-remove_at :
      (P : T → Type 0) (xs : List T) (i : ℕ) → Every P xs → Every P (remove_at xs i)
  Every-remove_at P [] i e = tt
  Every-remove_at P (x ∷ xs) zero e = e.1
  Every-remove_at P (x ∷ xs) (suc i) e = (e.0, Every-remove_at P xs i e.1)

module _ {T : Type 0} ⦃a : Antlr T⦄ where
  -- The first child, if there is one, is of no type that is removed.
  abbrev pub StartsKept : List T → Type 0
  StartsKept [] = Unit {0}
  StartsKept (x ∷ xs) = is_removed (get_type x) ≡ false

  pub record Frame (table : String) (P : T → Type 0) (cs : List T) : Type 0 where
    pub starts : StartsKept cs
    pub named : first_name cs ≡ some table
    pub every : Every P cs

  -- A child that a pass removes is not the first one.
  pub behind_first :
      (cs : List T) (p : ℕ) {x : T}
      → get_elem? cs p ≡ some x
      → is_removed (get_type x) ≡ true
      → StartsKept cs
      → (q : ℕ) × (p ≡ suc q)
  behind_first [] p h r s = cc
  behind_first (y ∷ cs) zero h r s = absurd (cc (some-injective _ _ h, s, r))
  behind_first (y ∷ cs) (suc q) h r s = (q, refl)

  first_name-set :
      (cs : List T) (p : ℕ) {x : T} (y : T)
      → get_elem? cs p ≡ some x
      → get_type x ≢ id
      → get_type y ≡ get_type x
      → first_name (set cs p y) ≡ first_name cs
  first_name-set [] p y h k e = refl
  first_name-set (z ∷ cs) zero {x} y h k e =
      let other : get_type z ≢ id = rw (some-injective _ _ h) k in
      rw (test_of_ne _ _ other, e, test_of_ne _ _ k) refl
  first_name-set (z ∷ cs) (suc p) y h k e = rw (first_name-set cs p y h k e) refl

  first_name-remove_at :
      (cs : List T) (p : ℕ) {x : T}
      → get_elem? cs p ≡ some x
      → get_type x ≢ id
      → first_name (remove_at cs p) ≡ first_name cs
  first_name-remove_at [] p h k = refl
  first_name-remove_at (z ∷ cs) zero h k =
      let other : get_type z ≢ id = rw (some-injective _ _ h) k in rw (test_of_ne _ _ other) refl
  first_name-remove_at (z ∷ cs) (suc p) h k = rw (first_name-remove_at cs p h k) refl

  StartsKept-set :
      (cs : List T) (p : ℕ) {x : T} (y : T)
      → get_elem? cs p ≡ some x
      → get_type y ≡ get_type x
      → StartsKept cs
      → StartsKept (set cs p y)
  StartsKept-set [] p y h e s = s
  StartsKept-set (z ∷ cs) zero y h e s = rw (e, ← some-injective _ _ h) s
  StartsKept-set (z ∷ cs) (suc p) y h e s = s

  StartsKept-remove_at : (cs : List T) (p : ℕ) → StartsKept cs → StartsKept (remove_at cs (suc p))
  StartsKept-remove_at [] p s = tt
  StartsKept-remove_at (x ∷ cs) p s = s

  module _ {table : String} {P : T → Type 0} {cs : List T} where
    -- A child that is no identifier is replaced by one of its type.
    pub Frame-set :
        (p : ℕ) {x : T} (y : T)
        → get_elem? cs p ≡ some x
        → get_type x ≢ id
        → get_type y ≡ get_type x
        → P y
        → Frame table P cs
        → Frame table P (set cs p y)
    Frame-set p y h k e q f = record {
      starts = StartsKept-set cs p y h e f.starts;
      named = first_name-set cs p y h k e ∙ f.named;
      every = Every-set P cs p y q f.every;
    }

    -- A child that is no identifier is deleted behind the first one.
    pub Frame-remove_at :
        (p : ℕ) {x : T}
        → get_elem? cs (suc p) ≡ some x
        → get_type x ≢ id
        → Frame table P cs
        → Frame table P (remove_at cs (suc p))
    Frame-remove_at p h k f = record {
      starts = StartsKept-remove_at cs p f.starts;
      named = first_name-remove_at cs (suc p) h k ∙ f.named;
      every = Every-remove_at P cs (suc p) f.every;
    }
