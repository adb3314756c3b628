-- ===== src/CreateTable/Loops.antt =====
-- The loops of the passes end without a fault and keep the frame of a table.
use pgify.Base.{ℕ, zero, suc, ◌+◌, ◌<◌, ◌≤◌, ◌≡◌, Option, none, some, get_elem?, arith}
use pgify.Antlr.{Antlr, get_type, children, get_child_count, set_child, get_child_lem}
use pgify.Children.{each_of_type_loop, each_of_type}
use pgify.LookAhead.Laws.{IsFirstFrom, present, look_ahead_index_lem}
use pgify.Children.Count.{count-set_child, below_count}
use pgify.LookAhead.{look_ahead_index}
use pgify.Result.{Result, ok}
use pgify.Result.Outcomes.{Runs, Runs-ok, Runs-bind}

module _ {T : Type 0} ⦃a : Antlr T⦄ where
  -- The loop over the children of a type ends, and keeps what each round keeps; `Inv` may speak of
  -- the position that the loop has come to.
  module _ {S : Type 0} (kind : ℕ) (body : S → T → T → Result (S × T)) (Inv : ℕ → T → Type 0)
      (step : (s : S) (tree x : T) (pos p : ℕ)
        → pos ≤ p
        → Inv pos tree
        → get_elem? (children tree) p ≡ some x
        → get_type x ≡ kind
        → Runs (λ r. Inv (p + 1) (set_child tree p r.1)) (body s tree x)) where
    abbrev Ends : Result (S × T) → Type 0
    Ends m = Runs (λ r. (end : ℕ) × Inv end r.1) m

    -- One round, where the rest of the loop is given.
    each_of_type_round :
        (fuel pos : ℕ) (s : S) (tree : T) (o : Option ℕ)
        → IsFirstFrom tree pos kind o
        → Inv pos tree
        → ((p : ℕ) (s' : S) (x : T)
            → pos ≤ p
            → p < get_child_count tree
            → Inv (p + 1) (set_child tree p x)
            → Ends (each_of_type_loop kind body fuel (p + 1) s' (set_child tree p x)))
        → look_ahead_index tree pos kind ≡ ok o
        → Ends (each_of_type_loop kind body (suc fuel) pos s tree)
    unfolding each_of_type_loop
    each_of_type_round fuel pos s tree none first inv later runs =
        rw runs (Runs-ok (s, tree) (pos, inv))
    each_of_type_round fuel pos s tree (some p) (present _ x le there same before) inv later runs =
        rw (runs, get_child_lem tree p, there)
          (Runs-bind _ (step s tree x pos p le inv there same)
            (λ r kept. later p r.0 r.1 le (below_count tree p there) kept))

    each_of_type_loop-Runs :
        (fuel pos : ℕ) (s : S) (tree : T)
        → pos ≤ get_child_count tree
        → get_child_count tree < fuel + pos
        → Inv pos tree
        → Ends (each_of_type_loop kind body fuel pos s tree)
    each_of_type_loop-Runs zero pos s tree le enough inv = absurd (omega arith)
    each_of_type_loop-Runs (suc fuel) pos s tree le enough inv =
        let (o, runs, first) = look_ahead_index_lem tree pos kind in
        each_of_type_round fuel pos s tree o first inv
          (λ p s' x from to kept.
            each_of_type_loop-Runs fuel (p + 1) s' (set_child tree p x)
              (omega (arith, count-set_child tree p x)) (omega (arith, count-set_child tree p x))
              kept)
          runs

    pub each_of_type-Runs : (s : S) (tree : T) → Inv 0 tree → Ends (each_of_type kind body s tree)
    unfolding each_of_type
    each_of_type-Runs s tree inv =
        each_of_type_loop-Runs (suc (get_child_count tree)) 0 s tree (omega arith) (omega arith) inv
