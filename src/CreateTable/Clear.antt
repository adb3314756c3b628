-- ===== src/CreateTable/Clear.antt =====
-- The loops that remove children of a table, each with the comma in front of it.
use pgify.Base.{
  ℕ, zero, suc, ◌<◌, ◌≤◌, ◌≡◌, ◌≢◌, ap, ◌∙◌, String, true, Option, none, some, inl, inr, get_elem?,
  get_elem?-of_lt, ◌==◌, if◌then◌else◌, arith, Bool-cases, eq_of_test,
}
use pgify.Antlr.{
  Antlr, get_type, children, get_child_count, delete_child, get_child_lem, get_child_count_lem,
  children-delete_child,
}
use pgify.Children.{each_with_comma_loop, each_with_comma, delete_with_comma, delete_before}
use pgify.CreateTable.Frame.{is_removed, Every-at, Every-of, Frame, behind_first, Frame-remove_at}
use pgify.LookAhead.Laws.{IsFirstFrom, absent, present, look_ahead_index_lem}
use pgify.LookAhead.{look_ahead_index}
use pgify.Result.{Result, ok}
use pgify.Result.Outcomes.{Runs, Runs-ok, Runs-bind}
use pgify.Children.Count.{count-delete_child, below_count}
use pgify.TokenTypes.{id, comma}

module _ {T : Type 0} ⦃a : Antlr T⦄ where
  -- The loop over the children of a type that are removed: each run of the body ends, the frame is
  -- kept, and no child of the type is left.
  module _ {S : Type 0} (kind : ℕ) (body : S → T → Result S) (table : String) (P : T → Type 0)
      (removed : is_removed kind ≡ true) (other : kind ≢ id)
      (step : (s : S) (x : T) → P x → get_type x ≡ kind → Runs (λ s'. Unit {0}) (body s x)) where
    abbrev Removed : T → Type 0
    Removed x = P x × (get_type x ≢ kind)

    abbrev Cleared : Result (S × T) → Type 0
    Cleared m = Runs (λ r. Frame table Removed (children r.1)) m

    -- What stands in front of the deleted child is deleted too if it is a comma.
    delete_comma-Runs :
        (tree y : T) (q : ℕ)
        → get_elem? (children tree) q ≡ some y
        → Frame table P (children tree)
        → Runs
            (λ t. (get_child_count t ≤ get_child_count tree) × Frame table P (children t))
            (ok (if get_type y == comma then delete_before tree (suc q) else tree))
    delete_comma-Runs tree y q there f = elim (Bool-cases (get_type y == comma)) [
      | inr e ↦ rw e (Runs-ok tree (omega arith, f))
      | inl e ↦
          let k : get_type y ≡ comma = eq_of_test _ _ e in
          let (r, qr) = behind_first (children tree) q there (ap is_removed k) f.starts in
          let there' : get_elem? (children tree) (suc r) ≡ some y = rw qr at there in
          rw (e, qr, delete_before)
            (Runs-ok (delete_child tree (suc r)) (
              omega (arith, count-delete_child tree (suc r) there'),
              rw children-delete_child (Frame-remove_at r there' (rw k (omega arith)) f),
            ))
    ]

    delete_with_comma-Runs :
        (tree x : T) (q : ℕ)
        → get_elem? (children tree) (suc q) ≡ some x
        → get_type x ≡ kind
        → Frame table P (children tree)
        → Runs
            (λ t. (get_child_count t < get_child_count tree) × Frame table P (children t))
            (delete_with_comma tree (suc q))
    unfolding delete_with_comma
    delete_with_comma-Runs tree x q there same f =
        let rest = delete_child tree (suc q) in
        let one = count-delete_child tree (suc q) there in
        let (y, at) =
          get_elem?-of_lt (children rest) q
            (omega (arith, one, get_child_count_lem rest, below_count tree (suc q) there)) in
        let (t, e, kept) =
          delete_comma-Runs rest y q at
            (rw children-delete_child (Frame-remove_at q there (rw same other) f)) in
        (t, rw (get_child_lem rest q, at) e, (omega (arith, kept.0, one), kept.1))

    cleared_of_none :
        (tree : T)
        → IsFirstFrom tree 0 kind none
        → Frame table P (children tree)
        → Frame table Removed (children tree)
    cleared_of_none tree (absent away) f = record {
      starts = f.starts;
      named = f.named;
      every =
          Every-of Removed (children tree)
            (λ i x at. (Every-at P (children tree) i f.every at, away i x (omega arith) at));
    }

    each_with_comma_round :
        (fuel : ℕ) (s : S) (tree : T) (o : Option ℕ)
        → IsFirstFrom tree 0 kind o
        → Frame table P (children tree)
        → ((s' : S) (t : T)
            → get_child_count t < get_child_count tree
            → Frame table P (children t)
            → Cleared (each_with_comma_loop kind body fuel s' t))
        → look_ahead_index tree 0 kind ≡ ok o
        → Cleared (each_with_comma_loop kind body (suc fuel) s tree)
    unfolding each_with_comma_loop
    each_with_comma_round fuel s tree none first f later runs =
        rw runs (Runs-ok (s, tree) (cleared_of_none tree first f))
    each_with_comma_round fuel s tree (some zero) (present _ x le there same before) f later runs =
        absurd (
          omega (
            arith,
            (behind_first (children tree) 0 there (ap is_removed same ∙ removed) f.starts).1,
          ))
    each_with_comma_round fuel s tree (some (suc q)) (present _ x le there same before) f later
          runs =
        rw (runs, get_child_lem tree (suc q), there)
          (Runs-bind _ (step s x (Every-at P (children tree) (suc q) f.every there) same) (λ s' _.
            Runs-bind _ (delete_with_comma-Runs tree x q there same f)
              (λ t (fewer, kept). later s' t fewer kept)))

    each_with_comma_loop-Runs :
        (fuel : ℕ) (s : S) (tree : T)
        → get_child_count tree < fuel
        → Frame table P (children tree)
        → Cleared (each_with_comma_loop kind body fuel s tree)
    each_with_comma_loop-Runs zero s tree enough f = absurd (omega arith)
    each_with_comma_loop-Runs (suc fuel) s tree enough f =
        let (o, runs, first) = look_ahead_index_lem tree 0 kind in
        each_with_comma_round fuel s tree o first f
          (λ s' t fewer kept. each_with_comma_loop-Runs fuel s' t (omega arith) kept) runs

    pub each_with_comma-Runs :
        (s : S) (tree : T)
        → Frame table P (children tree)
        → Cleared (each_with_comma kind body s tree)
    unfolding each_with_comma
    each_with_comma-Runs s tree f =
        each_with_comma_loop-Runs (suc (get_child_count tree)) s tree (omega arith) f
