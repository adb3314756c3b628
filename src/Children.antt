-- ===== src/Children.antt =====
-- What several functions of pgify.c do with the children of a node: the loop over all of them, the
-- removal of a child with the comma in front of it, and the change of a child through its pointer.
pub mod Split
pub mod Removal
pub mod Passes
pub mod Each
pub mod Keeps
pub mod Count
pub mod Stops
use pgify.Base.{ℕ, zero, suc, ◌+◌, Option, none, some, List, [], ◌∷◌, ◌==◌, if◌then◌else◌}
use pgify.Antlr.{Antlr, get_type, get_child, get_child_count, delete_child, set_child}
use pgify.LookAhead.{look_ahead_index}
use pgify.Result.{Result, ok, fault, null_pointer, out_of_fuel, deref, ◌>>=◌}
use pgify.TokenTypes.{comma}

module _ {T : Type 0} ⦃a : Antlr T⦄ where
  module _ {S : Type 0} where
    -- The rounds of `for(c = 0; c < n; c++)` from `c` on, where the body reads child `c`.
    pub children_from : T → (S → T → Result S) → ℕ → ℕ → S → Result S
    children_from tree body c zero s = ok s
    children_from tree body c (suc left) s = do
      child ← deref (get_child tree c)
      s' ← body s child
      children_from tree body (c + 1) left s'

    unfoldable pub for_children : T → (S → T → Result S) → S → Result S
    unfolding children_from
    for_children tree body s = children_from tree body 0 (get_child_count tree) s

  -- The child in front of a position. The index -1 is beyond every vector of children, so in front
  -- of the first child `getChild` returns NULL.
  abbrev pub child_before : T → ℕ → Option T
  child_before tree zero = none
  child_before tree (suc pos) = get_child tree pos

  -- `deleteChild` at a position that may be 0.
  abbrev pub delete_before : T → ℕ → T
  delete_before tree zero = tree
  delete_before tree (suc pos) = delete_child tree pos

  -- Delete the child at a position, and then the child in front of it if that is a comma.
  unfoldable pub delete_with_comma : T → ℕ → Result T
  delete_with_comma tree pos =
      let rest = delete_child tree pos in
      do
        child ← deref (child_before rest pos)
        ok (if get_type child == comma then delete_before rest pos else rest)

  module _ {S : Type 0} where
    -- `while((pos = look_ahead_index(tree, 0, kind)) > -1)`: run the body on the child found, then
    -- delete it with its comma.
    unfoldable pub each_with_comma_loop : ℕ → (S → T → Result S) → ℕ → S → T → Result (S × T)
    each_with_comma_loop kind body zero s tree = fault out_of_fuel
    each_with_comma_loop kind body (suc fuel) s tree = do
      found ← look_ahead_index tree 0 kind
      elim found [
        | none ↦ ok (s, tree)
        | some pos ↦ do
          child ← deref (get_child tree pos)
          s' ← body s child
          tree' ← delete_with_comma tree pos
          each_with_comma_loop kind body fuel s' tree'
      ]

    -- Each round deletes a child, so the fuel is the number of children and one more.
    unfoldable pub each_with_comma : ℕ → (S → T → Result S) → S → T → Result (S × T)
    unfolding each_with_comma_loop
    each_with_comma kind body s tree =
        each_with_comma_loop kind body (suc (get_child_count tree)) s tree

  module _ {S : Type 0} where
    -- `for(; (pos = look_ahead_index(tree, pos, kind)) > -1; pos++)`, where the body may change the
    -- child found; it also has the node itself, as it stands in that round.
    unfoldable pub each_of_type_loop :
        ℕ → (S → T → T → Result (S × T)) → ℕ → ℕ → S → T → Result (S × T)
    each_of_type_loop kind body zero pos s tree = fault out_of_fuel
    each_of_type_loop kind body (suc fuel) pos s tree = do
      found ← look_ahead_index tree pos kind
      elim found [
        | none ↦ ok (s, tree)
        | some p ↦ do
          child ← deref (get_child tree p)
          (s', child') ← body s tree child
          each_of_type_loop kind body fuel (p + 1) s' (set_child tree p child')
      ]

    -- Each round goes on behind the child found, so the fuel is the number of children and one more.
    unfoldable pub each_of_type : ℕ → (S → T → T → Result (S × T)) → S → T → Result (S × T)
    unfolding each_of_type_loop
    each_of_type kind body s tree =
        each_of_type_loop kind body (suc (get_child_count tree)) 0 s tree
