-- ===== src/Children/Split.antt =====
-- Where the first child of a type stands, a list of children splits into those in front of it, which
-- are free of the type, the child, and those behind it.
use pgify.Base.{
  drop, zero, ℕ, suc, ◌+◌, ◌≡◌, ◌≢◌, inl, inr, refl, ap, ◌∙◌, List, [], ◌∷◌, ◌++◌, none, some,
  length, length-append, ◌==◌, if◌then◌else◌, arith, Bool-cases, eq_of_test, ne_of_test, test_of_ne,
  test_of_eq,
}
use pgify.Antlr.{Antlr, get_type, children}
use pgify.LookAhead.Laws.{find_type}

module _ {T : Type 0} ⦃a : Antlr T⦄ where
  -- No node of the list has the type.
  abbrev pub IsFree : ℕ → List T → Type 0
  IsFree kind [] = Unit {0}
  IsFree kind (x ∷ xs) = (get_type x ≢ kind) × IsFree kind xs

  -- The nodes of a list that have a type, and those that do not, in order.
  abbrev pub of_type : ℕ → List T → List T
  of_type kind [] = []
  of_type kind (x ∷ xs) = if get_type x == kind then x ∷ of_type kind xs else of_type kind xs

  abbrev pub without_type : ℕ → List T → List T
  without_type kind [] = []
  without_type kind (x ∷ xs) =
      if get_type x == kind then without_type kind xs else x ∷ without_type kind xs

  pub record SplitsAt (kind c : ℕ) (xs : List T) (p : ℕ) : Type 0 where
    pub front : List T
    pub at : T
    pub rest : List T
    pub splits : xs ≡ front ++ at ∷ rest
    pub position : p ≡ c + length front
    pub is_kind : get_type at ≡ kind
    pub free : IsFree kind front

  pub find_type-SplitsAt :
      (kind c : ℕ) (xs : List T) (p : ℕ) → find_type kind c xs ≡ some p → SplitsAt kind c xs p
  find_type-SplitsAt kind c [] p h = cc
  find_type-SplitsAt kind c (x ∷ xs) p h = elim (Bool-cases (get_type x == kind)) [
    | inl e ↦ record {
      front = [];
      at = x;
      rest = xs;
      splits = refl;
      position = ground arith;
      is_kind = eq_of_test _ _ e;
      free = tt;
    }
    | inr e ↦
        let later = find_type-SplitsAt kind (suc c) xs p (ground arith) in
        record {
          front = x ∷ later.front;
          at = later.at;
          rest = later.rest;
          splits = ap (◌∷◌ x) later.splits;
          position = omega (arith, later.position);
          is_kind = later.is_kind;
          free = (ne_of_test _ _ e, later.free);
        }
  ]

  pub find_type-IsFree : (kind c : ℕ) (xs : List T) → find_type kind c xs ≡ none → IsFree kind xs
  find_type-IsFree kind c [] h = tt
  find_type-IsFree kind c (x ∷ xs) h = elim (Bool-cases (get_type x == kind)) [
    | inl e ↦ cc (rw e at h)
    | inr e ↦ (ne_of_test _ _ e, find_type-IsFree kind (suc c) xs (rw e at h))
  ]

  pub find_type-append :
      (kind c : ℕ) (front : List T) (y : T) (back : List T)
      → IsFree kind front
      → get_type y ≡ kind
      → find_type kind c (front ++ y ∷ back) ≡ some (c + length front)
  find_type-append kind c [] y back f k =
      rw (test_of_eq _ _ k) (ap some {x = c} {y = c + 0} (omega arith))
  find_type-append kind c (x ∷ front) y back f k = rw (test_of_ne _ _ f.0) (
      find_type-append kind (suc c) front y back f.1 k
      ∙ ap some {x = suc c + length front} {y = c + suc (length front)} (omega arith))

  pub IsFree-find_type : (kind c : ℕ) (xs : List T) → IsFree kind xs → find_type kind c xs ≡ none
  IsFree-find_type kind c [] f = refl
  IsFree-find_type kind c (x ∷ xs) f =
      rw (test_of_ne _ _ f.0) (IsFree-find_type kind (suc c) xs f.1)

  pub IsFree-drop : (kind n : ℕ) (xs : List T) → IsFree kind xs → IsFree kind (drop n xs)
  IsFree-drop kind zero xs f = f
  IsFree-drop kind (suc n) [] f = tt
  IsFree-drop kind (suc n) (x ∷ xs) f = IsFree-drop kind n xs f.1

  pub IsFree-append :
      (kind : ℕ) (xs ys : List T) → IsFree kind xs → IsFree kind ys → IsFree kind (xs ++ ys)
  IsFree-append kind [] ys f g = g
  IsFree-append kind (x ∷ xs) ys f g = (f.0, IsFree-append kind xs ys f.1 g)

  pub of_type-IsFree :
      (kind : ℕ) (xs ys : List T) → IsFree kind xs → of_type kind (xs ++ ys) ≡ of_type kind ys
  of_type-IsFree kind [] ys f = refl
  of_type-IsFree kind (x ∷ xs) ys f = rw (test_of_ne _ _ f.0) (of_type-IsFree kind xs ys f.1)

  pub without_type-IsFree :
      (kind : ℕ) (xs ys : List T)
      → IsFree kind xs
      → without_type kind (xs ++ ys) ≡ xs ++ without_type kind ys
  without_type-IsFree kind [] ys f = refl
  without_type-IsFree kind (x ∷ xs) ys f =
      rw (test_of_ne _ _ f.0) (ap (◌∷◌ x) (without_type-IsFree kind xs ys f.1))

  pub IsFree-without_type : (kind : ℕ) (xs : List T) → IsFree kind (without_type kind xs)
  IsFree-without_type kind [] = tt
  IsFree-without_type kind (x ∷ xs) = elim (Bool-cases (get_type x == kind)) [
    | inl e ↦ rw e (IsFree-without_type kind xs)
    | inr e ↦ rw e (ne_of_test _ _ e, IsFree-without_type kind xs)
  ]

module _ {T : Type 0} ⦃a : Antlr T⦄ {kind c : ℕ} {xs : List T} {p : ℕ}
    (s : SplitsAt kind c xs p) where
  -- What the two filters make of a list that splits.
  pub without_type-SplitsAt : without_type kind xs ≡ s.front ++ without_type kind s.rest
  without_type-SplitsAt =
      ap (without_type kind) s.splits
      ∙ without_type-IsFree kind s.front (s.at ∷ s.rest) s.free
      ∙ rw (test_of_eq _ _ s.is_kind)

  pub of_type-SplitsAt : of_type kind xs ≡ s.at ∷ of_type kind s.rest
  of_type-SplitsAt =
      ap (of_type kind) s.splits
      ∙ of_type-IsFree kind s.front (s.at ∷ s.rest) s.free
      ∙ rw (test_of_eq _ _ s.is_kind)

  pub length-SplitsAt : length xs ≡ suc (length s.front + length s.rest)
  length-SplitsAt = omega (arith, ap length s.splits, length-append {0} s.front (s.at ∷ s.rest))

-- A node after a pass: its own token is as before, and its children are known.
pub record Rewritten {T : Type 0} ⦃a : Antlr T⦄ (t t' : T) (cs : List T) : Type 0 where
  pub type_kept : get_type t' ≡ get_type t
  pub children_are : children t' ≡ cs
