-- ===== src/CreateTable/Dates/Pass.antt =====
-- The pass over all column definitions of a table.
use pgify.Base.{
  ℕ, ◌≡◌, ◌≢◌, refl, List, [], ◌∷◌, Option, none, some, Bool-cases, inl, inr, ◌==◌, eq_of_test,
  ne_of_test,
}
use pgify.Antlr.{Antlr, get_type, children}
use pgify.Children.Each.{map_type, each_of_type_lem}
use pgify.Children.Split.{Rewritten}
use pgify.CreateTable.Dates.{rewrite_date, rewrite_date_column, create_rewrite_stupid_date}
use pgify.CreateTable.Dates.Laws.{rewrite_date_some}
use pgify.LookAhead.Down.{look_ahead_down_lem}
use pgify.Result.{Result, ok, ◌>>=◌}
use pgify.TokenTypes.{t_create_table_column_def, stupid_mysql_date, stupid_mysql_timestamp}

-- Each column definition of a list is rewritten by itself, and the other nodes stay.
pub data ColumnsRewritten {T : Type 0} ⦃a : Antlr T⦄ : List T → List T → Type 0 where
  done : ColumnsRewritten [] []
  column :
      {xs ys : List T} (x x' : T)
      → get_type x ≡ t_create_table_column_def
      → rewrite_date_column x ≡ ok x'
      → ColumnsRewritten xs ys
      → ColumnsRewritten (x ∷ xs) (x' ∷ ys)
  other :
      {xs ys : List T} (x : T)
      → get_type x ≢ t_create_table_column_def
      → ColumnsRewritten xs ys
      → ColumnsRewritten (x ∷ xs) (x ∷ ys)

module _ {T : Type 0} ⦃a : Antlr T⦄ where
  abbrev step : Unit {0} → T → Result (Unit {0} × T)
  step u def = rewrite_date_column def >>= λ def'. ok (u, def')

  rewrite_date-ok : (def : T) (o o' : Option ℕ) → (def' : T) × (rewrite_date o o' def ≡ ok def')
  unfolding rewrite_date
  rewrite_date-ok def none none = (def, refl)
  rewrite_date-ok def none (some p) = let (def', runs, r) = rewrite_date_some def in (def', runs)
  rewrite_date-ok def (some p) o' = let (def', runs, r) = rewrite_date_some def in (def', runs)

  rewrite_date_column-ok : (def : T) → (def' : T) × (rewrite_date_column def ≡ ok def')
  unfolding rewrite_date_column
  rewrite_date_column-ok def =
      let (o, runs, answer) = look_ahead_down_lem def stupid_mysql_date in
      let (o', runs', answer') = look_ahead_down_lem def stupid_mysql_timestamp in
      rw (runs, runs') (rewrite_date-ok def o o')

  map_columns :
      (xs : List T)
      → (ys : List T) × (map_type t_create_table_column_def step tt xs ≡ ok (tt, ys))
        × ColumnsRewritten xs ys
  map_columns [] = ([], refl, done)
  map_columns (x ∷ xs) =
      let (ys, later, rest) = map_columns xs in
      let (x', now) = rewrite_date_column-ok x in
      elim (Bool-cases (get_type x == t_create_table_column_def)) [
        | inl e ↦ (x' ∷ ys, rw (e, now, later) refl, column x x' (eq_of_test _ _ e) now rest)
        | inr e ↦ (x ∷ ys, rw (e, later) refl, other x (ne_of_test _ _ e) rest)
      ]

  -- On any tree the pass ends without a fault, and it rewrites each column definition among the
  -- children by itself, in its place; all other children stay.
  pub create_rewrite_stupid_date_lem :
      (base : T)
      → (base' : T) × (cs : List T) × (create_rewrite_stupid_date base ≡ ok base')
        × Rewritten base base' cs
        × ColumnsRewritten (children base) cs
  unfolding create_rewrite_stupid_date
  create_rewrite_stupid_date_lem base =
      let (cs, mapped, columns) = map_columns (children base) in
      let (base', runs, r) =
        each_of_type_lem t_create_table_column_def step (λ u b def. step u def) (λ s p x. refl) tt
          tt base cs mapped in
      (base', cs, rw runs refl, r, columns)
