-- ===== src/Children/Stops.antt =====
-- The loops over children stop if their bodies do, whatever the children are.
use pgify.Base.{
  ℕ, zero, suc, ◌+◌, ◌<◌, ◌≤◌, ◌≡◌, Option, none, some, Bool, true, false, get_elem?, ◌==◌,
  if◌then◌else◌, arith,
}
use pgify.Antlr.{Antlr, get_type, children, get_child, get_child_count, set_child, delete_child}
use pgify.Children.Count.{count-set_child, count-delete_child, count-delete_child_le, below_count}
use pgify.Children.{
  children_from, for_children, delete_with_comma, delete_before, child_before, each_with_comma_loop,
  each_with_comma, each_of_type_loop, each_of_type,
}
use pgify.LookAhead.{look_ahead_index}
use pgify.LookAhead.Laws.{IsFirstFrom, present, look_ahead_index_lem}
use pgify.Result.{Result, ok, ◌>>=◌}
use pgify.Result.Outcomes.{Anything}
use pgify.Result.Stops.{Stops, value, Stops-bind, Stops-read, Stops-Runs}
use pgify.TokenTypes.{comma}

module _ {T : Type 0} ⦃a : Antlr T⦄ where
  pub look_ahead_index-Stops :
      (tree : T) (pos kind : ℕ) → Stops Anything (look_ahead_index tree pos kind)
  look_ahead_index-Stops tree pos kind =
      let (o, runs, first) = look_ahead_index_lem tree pos kind in Stops-Runs (o, runs, tt)

  -- A search ends, with a position that holds a child.
  pub Stops-search :
      {B : Type 0} {Q : B → Type 0} (tree : T) (pos kind : ℕ) (f : Option ℕ → Result B)
      → Stops Q (f none)
      → ((p : ℕ) (x : T) → pos ≤ p → get_elem? (children tree) p ≡ some x → Stops Q (f (some p)))
      → Stops Q (look_ahead_index tree pos kind >>= f)
  Stops-search {Q} tree pos kind f missing found =
      let (o, runs, first) = look_ahead_index_lem tree pos kind in rw runs (split o first)
    where
      split : (o : Option ℕ) → IsFirstFrom tree pos kind o → Stops Q (f o)
      split none first = missing
      split (some p) (present _ x le there same before) = found p x le there

  module _ {S : Type 0} (tree : T) (body : S → T → Result S)
      (stops : (s : S) (x : T) → Stops Anything (body s x)) where
    children_from-Stops : (c left : ℕ) (s : S) → Stops Anything (children_from tree body c left s)
    unfolding children_from
    children_from-Stops c zero s = value s tt
    children_from-Stops c (suc left) s =
        Stops-read (get_child tree c) _
          (λ child. Stops-bind _ (stops s child) (λ s' _. children_from-Stops (c + 1) left s'))

    pub for_children-Stops : (s : S) → Stops Anything (for_children tree body s)
    unfolding for_children
    for_children-Stops s = children_from-Stops 0 (get_child_count tree) s

  delete_with_comma-Stops :
      (tree x : T) (p : ℕ)
      → get_elem? (children tree) p ≡ some x
      → Stops (λ t. get_child_count t < get_child_count tree) (delete_with_comma tree p)
  unfolding delete_with_comma
  delete_with_comma-Stops tree x p there =
      Stops-read (child_before (delete_child tree p) p) _
        (λ child. shrinks (get_type child == comma) p there)
    where
      shrinks :
          (b : Bool) (p : ℕ)
          → get_elem? (children tree) p ≡ some x
          → Stops
              (λ t. get_child_count t < get_child_count tree)
              (ok (if b then delete_before (delete_child tree p) p else delete_child tree p))
      shrinks false p there = value _ (omega (arith, count-delete_child tree p there))
      shrinks true zero there = value _ (omega (arith, count-delete_child tree zero there))
      shrinks true (suc p) there = value _ (
          omega (
            arith,
            count-delete_child tree (suc p) there,
            count-delete_child_le (delete_child tree (suc p)) p,
          ))

  module _ {S : Type 0} (kind : ℕ) (body : S → T → Result S)
      (stops : (s : S) (x : T) → Stops Anything (body s x)) where
    each_with_comma_loop-Stops :
        (fuel : ℕ) (s : S) (tree : T)
        → get_child_count tree < fuel
        → Stops Anything (each_with_comma_loop kind body fuel s tree)
    unfolding each_with_comma_loop
    each_with_comma_loop-Stops zero s tree enough = absurd (omega arith)
    each_with_comma_loop-Stops (suc fuel) s tree enough =
        Stops-search tree 0 kind _ (value (s, tree) tt) (λ p x le there.
          Stops-read (get_child tree p) _ (λ child. Stops-bind _ (stops s child) (λ s' _.
            Stops-bind _ (delete_with_comma-Stops tree x p there)
              (λ t fewer. each_with_comma_loop-Stops fuel s' t (omega arith)))))

    pub each_with_comma-Stops :
        (s : S) (tree : T) → Stops Anything (each_with_comma kind body s tree)
    unfolding each_with_comma
    each_with_comma-Stops s tree =
        each_with_comma_loop-Stops (suc (get_child_count tree)) s tree (omega arith)

  module _ {S : Type 0} (kind : ℕ) (body : S → T → T → Result (S × T))
      (stops : (s : S) (tree x : T) → Stops Anything (body s tree x)) where
    each_of_type_loop-Stops :
        (fuel pos : ℕ) (s : S) (tree : T)
        → pos ≤ get_child_count tree
        → get_child_count tree < fuel + pos
        → Stops Anything (each_of_type_loop kind body fuel pos s tree)
    unfolding each_of_type_loop
    each_of_type_loop-Stops zero pos s tree le enough = absurd (omega arith)
    each_of_type_loop-Stops (suc fuel) pos s tree le enough =
        Stops-search tree pos kind _ (value (s, tree) tt) (λ p x from there.
          Stops-read (get_child tree p) _ (λ child. Stops-bind _ (stops s tree child) (λ r _.
            each_of_type_loop-Stops fuel (p + 1) r.0 (set_child tree p r.1)
              (omega (arith, count-set_child tree p r.1, below_count tree p there))
              (omega (arith, count-set_child tree p r.1)))))

    pub each_of_type-Stops : (s : S) (tree : T) → Stops Anything (each_of_type kind body s tree)
    unfolding each_of_type
    each_of_type-Stops s tree =
        each_of_type_loop-Stops (suc (get_child_count tree)) 0 s tree (omega arith) (omega arith)
