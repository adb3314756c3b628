-- ===== src/Children/Removal/Comma.antt =====
-- The removal of one child with the comma in front of it.
use pgify.Base.{
  ℕ, ◌≤◌, ◌≡◌, ◌≢◌, inl, inr, refl, ap, ◌∙◌, List, [], ◌∷◌, ◌++◌, some, length, get_elem?,
  remove_at, remove_at-append, ◌==◌, if◌then◌else◌, arith, Bool-cases, test_of_ne,
}
use mathlib.Core.List.{append_assoc, append-nil}
use pgify.Antlr.{
  Antlr, get_type, children, get_child, delete_child, get_child_lem, children-delete_child,
  type-delete_child,
}
use pgify.Result.{ok}
use pgify.TokenTypes.{comma}
use pgify.Children.{delete_with_comma}
use pgify.Children.Split.{IsFree, Rewritten}

module _ {T : Type 0} ⦃a : Antlr T⦄ where
  abbrev pub without_last_comma : List T → List T
  without_last_comma [] = []
  without_last_comma (x ∷ []) = if get_type x == comma then [] else x ∷ []
  without_last_comma (x ∷ y ∷ ys) = x ∷ without_last_comma (y ∷ ys)

  -- One pass from left to right: a child of the type is left out, and takes the comma that stands
  -- last among the children kept so far with it.
  abbrev pub strip : ℕ → List T → List T → List T
  strip kind kept [] = kept
  strip kind kept (x ∷ xs) =
      strip kind (if get_type x == kind then without_last_comma kept else kept ++ x ∷ []) xs

  -- The first child is neither of the type nor a comma.
  abbrev pub StartsPlain : ℕ → List T → Type 0
  StartsPlain kind [] = Unit {0}
  StartsPlain kind (x ∷ xs) = (get_type x ≢ kind) × (get_type x ≢ comma)

  pub strip-IsFree :
      (kind : ℕ) (kept xs ys : List T)
      → IsFree kind xs
      → strip kind kept (xs ++ ys) ≡ strip kind (kept ++ xs) ys
  strip-IsFree kind kept [] ys f = rw append-nil
  strip-IsFree kind kept (x ∷ xs) ys f =
      rw (test_of_ne _ _ f.0, strip)
        (strip-IsFree kind (kept ++ x ∷ []) xs ys f.1 ∙ rw append_assoc)

  -- The last of the children `x ∷ xs`, with any others behind it.
  pub record EndsIn (x : T) (xs : List T) : Type 0 where
    pub front : List T
    pub last : T
    pub trimmed : without_last_comma (x ∷ xs) ≡ (if get_type last == comma then front else x ∷ xs)
    pub read : (ys : List T) → get_elem? ((x ∷ xs) ++ ys) (length xs) ≡ some last
    pub removed : (ys : List T) → remove_at ((x ∷ xs) ++ ys) (length xs) ≡ front ++ ys

  pub cons-EndsIn : (x : T) (xs : List T) → EndsIn x xs
  cons-EndsIn x [] = record {
    front = [];
    last = x;
    trimmed = refl;
    read = λ ys. refl;
    removed = λ ys. refl;
  }
  cons-EndsIn x (y ∷ ys) =
      let e = cons-EndsIn y ys in
      record {
        front = x ∷ e.front;
        last = e.last;
        trimmed = rw e.trimmed (ground arith);
        read = e.read;
        removed = λ zs. ap (◌∷◌ x) (e.removed zs);
      }

  pub IsFree-without_last_comma :
      (kind : ℕ) (xs : List T) → IsFree kind xs → IsFree kind (without_last_comma xs)
  IsFree-without_last_comma kind [] f = tt
  IsFree-without_last_comma kind (x ∷ []) f = ground arith
  IsFree-without_last_comma kind (x ∷ y ∷ ys) f = (f.0, IsFree-without_last_comma kind (y ∷ ys) f.1)

  pub StartsPlain-without_last_comma :
      (kind : ℕ) (x : T) (xs ys : List T)
      → StartsPlain kind (x ∷ xs)
      → StartsPlain kind (without_last_comma (x ∷ xs) ++ ys)
  StartsPlain-without_last_comma kind x [] ys s = rw (test_of_ne _ _ s.1) s
  StartsPlain-without_last_comma kind x (y ∷ xs) ys s = s

  -- Behind a child that is no comma, the removal takes that child and the comma in front of it.
  pub delete_with_comma_lem :
      (tree : T) (x : T) (xs : List T) (y : T) (ys : List T)
      → children tree ≡ (x ∷ xs) ++ y ∷ ys
      → (tree' : T) × (delete_with_comma tree (length (x ∷ xs)) ≡ ok tree')
        × Rewritten tree tree' (without_last_comma (x ∷ xs) ++ ys)
  unfolding delete_with_comma
  delete_with_comma_lem tree x xs y ys h =
      let e = cons-EndsIn x xs in
      let gone = delete_child tree (length (x ∷ xs)) in
      let rest : children gone ≡ (x ∷ xs) ++ ys =
        children-delete_child tree _
        ∙ ap (λ l. remove_at l (length (x ∷ xs))) h
        ∙ remove_at-append (x ∷ xs) y ys in
      let read : get_child gone (length xs) ≡ some e.last =
        get_child_lem gone (length xs) ∙ rw rest (e.read ys) in
      rw (read, e.trimmed)
        (elim (Bool-cases (get_type e.last == comma)) [
          | inl c ↦ rw c (
            delete_child gone (length xs),
            refl,
            record {
              type_kept = type-delete_child gone _ ∙ type-delete_child tree _;
              children_are = children-delete_child gone _ ∙ rw rest (e.removed ys);
            },
          )
          | inr c ↦
              rw c
                (gone, refl, record { type_kept = type-delete_child tree _; children_are = rest })
        ])

  pub without_last_comma-le : (xs : List T) → length (without_last_comma xs) ≤ length xs
  without_last_comma-le [] = omega arith
  without_last_comma-le (x ∷ []) = ground arith
  without_last_comma-le (x ∷ y ∷ ys) = omega (arith, without_last_comma-le (y ∷ ys))
  -- The loop ends in the state `s'`, and has stripped the children of the tree.
