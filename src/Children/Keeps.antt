-- ===== src/Children/Keeps.antt =====
-- What the body of a loop over children keeps, the loop keeps.
use pgify.Base.{ℕ, zero, suc, ◌+◌}
use pgify.Antlr.{Antlr, get_child, get_child_count, set_child}
use pgify.Children.{
  children_from, for_children, delete_with_comma, each_with_comma_loop, each_with_comma,
  each_of_type_loop, each_of_type,
}
use pgify.LookAhead.{look_ahead_index}
use pgify.Result.{Result, out_of_fuel, deref}
use pgify.Result.Outcomes.{Ensures, returns, faults, Ensures-bind, Ensures-step, Ensures-option}

module _ {T S : Type 0} ⦃a : Antlr T⦄ (P : S → Type 0) where
  module _ (tree : T) (body : S → T → Result S)
      (keeps : (s : S) (x : T) → P s → Ensures P (body s x)) where
    children_from-Ensures :
        (c left : ℕ) (s : S) → P s → Ensures P (children_from tree body c left s)
    unfolding children_from
    children_from-Ensures c zero s p = returns s p
    children_from-Ensures c (suc left) s p = Ensures-step (deref (get_child tree c)) _ (λ child.
        Ensures-bind _ (keeps s child p) (λ s' p'. children_from-Ensures (c + 1) left s' p'))

    pub for_children-Ensures : (s : S) → P s → Ensures P (for_children tree body s)
    unfolding for_children
    for_children-Ensures s p = children_from-Ensures 0 (get_child_count tree) s p

  module _ (kind : ℕ) (body : S → T → Result S)
      (keeps : (s : S) (x : T) → P s → Ensures P (body s x)) where
    each_with_comma_loop-Ensures :
        (fuel : ℕ) (s : S) (tree : T)
        → P s
        → Ensures (λ r. P r.0) (each_with_comma_loop kind body fuel s tree)
    unfolding each_with_comma_loop
    each_with_comma_loop-Ensures zero s tree p = faults out_of_fuel
    each_with_comma_loop-Ensures (suc fuel) s tree p =
        Ensures-step (look_ahead_index tree 0 kind) _ (λ found.
          Ensures-option found (returns (s, tree) p) (λ pos.
            Ensures-step (deref (get_child tree pos)) _ (λ child.
              Ensures-bind _ (keeps s child p) (λ s' p'.
                Ensures-step (delete_with_comma tree pos) _
                  (λ tree'. each_with_comma_loop-Ensures fuel s' tree' p')))))

    pub each_with_comma-Ensures :
        (s : S) (tree : T) → P s → Ensures (λ r. P r.0) (each_with_comma kind body s tree)
    unfolding each_with_comma
    each_with_comma-Ensures s tree p =
        each_with_comma_loop-Ensures (suc (get_child_count tree)) s tree p

  module _ (kind : ℕ) (body : S → T → T → Result (S × T))
      (keeps : (s : S) (tree x : T) → P s → Ensures (λ r. P r.0) (body s tree x)) where
    each_of_type_loop-Ensures :
        (fuel pos : ℕ) (s : S) (tree : T)
        → P s
        → Ensures (λ r. P r.0) (each_of_type_loop kind body fuel pos s tree)
    unfolding each_of_type_loop
    each_of_type_loop-Ensures zero pos s tree p = faults out_of_fuel
    each_of_type_loop-Ensures (suc fuel) pos s tree p =
        Ensures-step (look_ahead_index tree pos kind) _ (λ found.
          Ensures-option found (returns (s, tree) p) (λ q.
            Ensures-step (deref (get_child tree q)) _ (λ child.
              Ensures-bind _ (keeps s tree child p)
                (λ r p'. each_of_type_loop-Ensures fuel (q + 1) r.0 (set_child tree q r.1) p'))))

    pub each_of_type-Ensures :
        (s : S) (tree : T) → P s → Ensures (λ r. P r.0) (each_of_type kind body s tree)
    unfolding each_of_type
    each_of_type-Ensures s tree p =
        each_of_type_loop-Ensures (suc (get_child_count tree)) 0 s tree p
