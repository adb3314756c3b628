-- ===== src/CreateTable/Datatypes/Laws.antt =====
-- DOUBLE becomes DOUBLE PRECISION.
use mathlib.Core.List.{append_assoc}
use pgify.Base.{
  ℕ, suc, ◌+◌, ◌≡◌, refl, sym, ◌∙◌, List, [], ◌∷◌, ◌++◌, some, true, false, ltb, length,
  length-append, get_elem?, get_elem?-append, set-append, ◌==◌, if◌then◌else◌, arith, Bool-cases,
  inl, inr,
}
use pgify.Antlr.{
  Antlr, get_type, get_child, children, set_child, get_child_lem, get_child_count_lem,
  children-set_child, type-set_child, set_child-get_child,
}
use pgify.Children.Split.{Rewritten}
use pgify.CreateTable.Datatypes.{
  append_precision, rewrite_double, datatypes_from, create_rewrite_datatypes,
}
use pgify.Result.{ok}
use pgify.TokenTypes.{k_double, k_precision}

module _ {T : Type 0} ⦃a : Antlr T⦄ where
  -- A DOUBLE that something other than PRECISION follows gets the second word.
  abbrev pub with_precision : List T → List T
  with_precision [] = []
  with_precision (x ∷ []) = x ∷ []
  with_precision (x ∷ y ∷ ys) =
      (if get_type x == k_double
        then (if get_type y == k_precision then x else append_precision x)
        else x)
      ∷ with_precision (y ∷ ys)

  abbrev Steps : ℕ → ℕ → ℕ → T → List T → Type 0
  Steps n c left tree cs =
      (tree' : T) × (datatypes_from n c left tree ≡ ok tree') × Rewritten tree tree' cs

  -- A round that puts `z` in the place of child `c`, and the rounds behind it.
  Steps-set :
      (n left : ℕ) (tree : T) (front : List T) (x z : T) (ys cs : List T)
      → children tree ≡ front ++ x ∷ ys
      → rewrite_double n (length front) tree ≡ ok (set_child tree (length front) z)
      → ((t : T) → children t ≡ front ++ z ∷ ys → Steps n (length front + 1) left t cs)
      → Steps n (length front) (suc left) tree cs
  unfolding datatypes_from
  Steps-set n left tree front x z ys cs h runs later =
      let t = set_child tree (length front) z in
      let (tree', rest, r) =
        later t (children-set_child tree (length front) z ∙ rw h (set-append front x z ys)) in
      (
        tree',
        rw runs rest,
        record {
          type_kept = r.type_kept ∙ type-set_child tree (length front) z;
          children_are = r.children_are;
        },
      )

  at_front :
      (tree : T) (front : List T) (x : T) (ys : List T)
      → children tree ≡ front ++ x ∷ ys
      → get_elem? (children tree) (length front) ≡ some x
  at_front tree front x ys h = rw h (get_elem?-append front x ys)

  behind_front :
      (tree : T) (front : List T) (x y : T) (ys : List T)
      → children tree ≡ front ++ x ∷ y ∷ ys
      → get_child tree (length front + 1) ≡ some y
  behind_front tree front x y ys h =
      let place : length (front ++ x ∷ []) ≡ length front + 1 =
        omega (arith, length-append {0} front (x ∷ [])) in
      get_child_lem tree (length front + 1)
      ∙ rw place at
          (at_front tree (front ++ x ∷ []) y ys (h ∙ sym (append_assoc front (x ∷ []) (y ∷ ys))))

  rewrite_double-eq :
      (n : ℕ) (tree : T) (front : List T) (x y : T) (ys : List T)
      → children tree ≡ front ++ x ∷ y ∷ ys
      → ltb (length front + 1) n ≡ true
      → rewrite_double n (length front) tree
        ≡ ok (
            set_child tree (length front) (
              if get_type x == k_double
              then (if get_type y == k_precision then x else append_precision x)
              else x))
  unfolding rewrite_double
  rewrite_double-eq n tree front x y ys h room =
      let at = at_front tree front x (y ∷ ys) h in
      let here : get_child tree (length front) ≡ some x = get_child_lem tree (length front) ∙ at in
      let same = set_child-get_child tree (length front) x at in
      elim (Bool-cases (get_type x == k_double)) [
        | inr e ↦ rw (here, e, same) refl
        | inl e ↦ elim (Bool-cases (get_type y == k_precision)) [
          | inl e' ↦ rw (here, e, room, behind_front tree front x y ys h, e', same) refl
          | inr e' ↦ rw (here, e, room, behind_front tree front x y ys h, e') refl
        ]
      ]

  rewrite_double-last :
      (n : ℕ) (tree : T) (front : List T) (x : T)
      → children tree ≡ front ++ x ∷ []
      → ltb (length front + 1) n ≡ false
      → rewrite_double n (length front) tree ≡ ok (set_child tree (length front) x)
  unfolding rewrite_double
  rewrite_double-last n tree front x h room =
      let at = at_front tree front x [] h in
      let here : get_child tree (length front) ≡ some x = get_child_lem tree (length front) ∙ at in
      let same = set_child-get_child tree (length front) x at in
      elim (Bool-cases (get_type x == k_double)) [
        | inr e ↦ rw (here, e, same) refl
        | inl e ↦ rw (here, e, room, same) refl
      ]

  datatypes_from_lem :
      (ys : List T) (n : ℕ) (tree : T) (front : List T)
      → children tree ≡ front ++ ys
      → n ≡ length front + length ys
      → Steps n (length front) (length ys) tree (front ++ with_precision ys)
  datatypes_from_lem [] n tree front h e =
      (tree, unfold datatypes_from in refl, record { type_kept = refl; children_are = h })
  datatypes_from_lem (x ∷ []) n tree front h e =
      Steps-set n 0 tree front x x [] _ h (rewrite_double-last n tree front x h (ground arith))
        (λ t h'. (t, unfold datatypes_from in refl, record { type_kept = refl; children_are = h' }))
  datatypes_from_lem (x ∷ y ∷ ys) n tree front h e =
      Steps-set n (length (y ∷ ys)) tree front x _ (y ∷ ys) _ h
        (rewrite_double-eq n tree front x y ys h (ground arith))
        (λ t h'.
          let z =
            if get_type x == k_double
            then (if get_type y == k_precision then x else append_precision x)
            else x in
          let place : length (front ++ z ∷ []) ≡ length front + 1 =
            omega (arith, length-append {0} front (z ∷ [])) in
          rw (place, append_assoc) at
            (datatypes_from_lem (y ∷ ys) n t (front ++ z ∷ [])
              (h' ∙ sym (append_assoc front (z ∷ []) (y ∷ ys)))
              (omega (arith, length-append {0} front (z ∷ [])))))

  -- Among the children of a node, each DOUBLE with another child behind it that is not PRECISION gets
  -- the word PRECISION added to its text; all other children stay, and there is no fault.
  pub create_rewrite_datatypes_lem :
      (tree : T)
      → (tree' : T) × (create_rewrite_datatypes tree ≡ ok tree')
        × Rewritten tree tree' (with_precision (children tree))
  unfolding create_rewrite_datatypes
  create_rewrite_datatypes_lem tree =
      rw get_child_count_lem
        (datatypes_from_lem (children tree) (length (children tree)) tree [] refl (omega arith))
