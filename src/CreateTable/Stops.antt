-- ===== src/CreateTable/Stops.antt =====
-- The passes over a table stop, whatever the table is.
mod Columns
pub use Columns.*
use pgify.Base.{
  ℕ, zero, suc, ◌+◌, ◌<◌, ◌≤◌, String, Bool, Option, none, some, true, false, leb, ◌==◌,
  if◌then◌else◌, arith,
}
use pgify.Antlr.{Antlr, get_type, get_text, get_child, get_child_count, delete_child}
use pgify.Children.Count.{count-delete_child, count-delete_child_le, below_count}
use pgify.Children.Stops.{
  look_ahead_index-Stops, Stops-search, for_children-Stops, each_with_comma-Stops,
  each_of_type-Stops,
}
use pgify.CreateTable.{create_table_worker}
use pgify.CreateTable.AutoInc.{
  stated_start, auto_inc_start_loop, auto_inc_start, rewrite_auto_inc_column,
  create_table_rewrite_auto_inc,
}
use pgify.CreateTable.Datatypes.Laws.{create_rewrite_datatypes_lem}
use pgify.CreateTable.Dates.{create_rewrite_stupid_date}
use pgify.CreateTable.Dates.Pass.{create_rewrite_stupid_date_lem}
use pgify.CreateTable.Enum.{enum_or_set, rewrite_enum, rewrite_enum_column, create_rewrite_enum}
use pgify.CreateTable.Fkey.{alter_table_add, create_table_rewrite_fkey}
use pgify.CreateTable.Fulltext.{remove_comma_before, fulltext_loop, create_table_fulltext_index}
use pgify.CreateTable.Index.{index_type, no_parts, or_else, create_index, create_table_index}
use pgify.CreateTable.Name.Laws.{create_table_tablename_lem}
use pgify.CreateTable.Name.{create_table_tablename}
use pgify.CreateTable.OnUpdate.{
  create_trigger, onupdate_loop, rewrite_onupdate_column, create_table_rewrite_onupdate,
}
use pgify.CreateTable.Options.Laws.{create_table_remove_table_options_lem}
use pgify.Glib.{Glib}
use pgify.Result.{Result, ok, deref, ◌>>=◌}
use pgify.Result.Outcomes.{Anything, Runs}
use pgify.Result.Stops.{Stops, value, Stops-bind, Stops-read, Stops-option, Stops-if, Stops-Runs}
use pgify.TokenTypes.{
  rparen, k_enum, k_set, k_auto_increment, k_using, comma, t_create_table_options,
  t_create_table_fulltext_index, t_create_table_onupdate, eq, number,
}
use pgify.Walker.{WalkerState, unquote}

pub unquote-Stops : ⦃g : Glib⦄ (s : Option String) → Stops Anything (unquote s)
unfolding unquote
unquote-Stops s = Stops-read s _ (λ n. value _ tt)

-- A pass that is known to end.
Stops-ends : {A : Type 0} {P : A → Type 0} {m : Result A} → Runs P m → Stops Anything m
Stops-ends (a, runs, p) = Stops-Runs (a, runs, tt)

module _ {T : Type 0} ⦃a : Antlr T⦄ where
  -- FULLTEXT.
  remove_comma_before-Stops :
      (base : T) (p : ℕ)
      → Stops (λ t. get_child_count t ≤ get_child_count base) (remove_comma_before base p)
  unfolding remove_comma_before
  remove_comma_before-Stops base zero = value base (omega arith)
  remove_comma_before-Stops base (suc zero) = value base (omega arith)
  remove_comma_before-Stops base (suc (suc p)) =
      Stops-read (get_child base (suc p)) _ (λ child. removes (get_type child == comma))
    where
      removes :
          (b : Bool)
          → Stops
              (λ t. get_child_count t ≤ get_child_count base)
              (ok (if b then delete_child base (suc p) else base))
      removes true = value _ (count-delete_child_le base (suc p))
      removes false = value base (omega arith)

  fulltext_loop-Stops :
      (fuel pos : ℕ) (base : T)
      → get_child_count base < fuel
      → Stops Anything (fulltext_loop fuel base pos)
  unfolding fulltext_loop
  fulltext_loop-Stops zero pos base enough = absurd (omega arith)
  fulltext_loop-Stops (suc fuel) pos base enough =
      Stops-search base pos t_create_table_fulltext_index _ (value base tt) (λ p x le there.
        Stops-bind _ (remove_comma_before-Stops (delete_child base p) p) (λ t fewer.
          fulltext_loop-Stops fuel p t (omega (arith, count-delete_child base p there))))

  -- Indexes.
  index_type-Stops : (x : T) → Stops Anything (index_type x)
  unfolding index_type
  index_type-Stops x = Stops-bind _ (look_ahead_index-Stops x 0 k_using) (λ p _.
      Stops-option p (value none tt) (λ u. Stops-read (get_child x (u + 1)) _ (λ c. value _ tt)))

  create_index-Stops :
      ⦃g : Glib⦄ (table utable : String) (ws : WalkerState) (x : T)
      → Stops Anything (create_index table utable ws x)
  unfolding create_index
  create_index-Stops table utable ws x = Stops-bind _ (index_type-Stops x) (λ kind _.
      Stops-bind _ (for_children-Stops x _ (λ p t. value _ tt) no_parts) (λ parts _.
        Stops-bind _ (unquote-Stops (or_else parts.name parts.firstcolumn)) (λ name _. value _ tt)))

  alter_table_add-Stops :
      (table : Option String) (ws : WalkerState) (x : T)
      → Stops Anything (alter_table_add table ws x)
  alter_table_add-Stops table ws x =
      Stops-read table _
        (λ t. Stops-bind _ (for_children-Stops x _ (λ w t. value _ tt) _) (λ ws' _. value _ tt))

  dates-Stops : (tree : T) → Stops Anything (create_rewrite_stupid_date tree)
  dates-Stops tree =
      let (t, cs, runs, r, columns) = create_rewrite_stupid_date_lem tree in
      Stops-Runs (t, runs, tt)

  -- What a pass does behind the name of the table.
  Stops-name :
      {B : Type 0} {Q : B → Type 0} (base : T) (f : Option String → Result B)
      → ((o : Option String) → Stops Q (f o))
      → Stops Q (create_table_tablename base >>= f)
  Stops-name base f k = rw (create_table_tablename_lem base) (k _)

  module _ ⦃g : Glib⦄ where
    onupdate-Stops :
        (ws : WalkerState) (tree : T) → Stops Anything (create_table_rewrite_onupdate ws tree)
    unfolding create_table_rewrite_onupdate rewrite_onupdate_column
    onupdate-Stops ws tree = Stops-name tree _ (λ tablename.
        Stops-bind _ (unquote-Stops tablename) (λ utable _. Stops-read tablename _ (λ table.
          each_of_type-Stops _ _
            (λ w b def.
              onupdate_loop-Stops table utable (suc (get_child_count def)) 0 w def (omega arith))
            ws tree)))

    index-Stops : (ws : WalkerState) (tree : T) → Stops Anything (create_table_index ws tree)
    unfolding create_table_index
    index-Stops ws tree = Stops-name tree _ (λ tablename.
        Stops-bind _ (unquote-Stops tablename) (λ utable _.
          Stops-read tablename _
            (λ table. each_with_comma-Stops _ _ (create_index-Stops table utable) ws tree)))

    auto_inc-Stops :
        (ws : WalkerState) (tree : T) → Stops Anything (create_table_rewrite_auto_inc ws tree)
    unfolding create_table_rewrite_auto_inc
    auto_inc-Stops ws tree = Stops-name tree _ (λ tablename.
        Stops-bind _ (unquote-Stops tablename) (λ utable _.
          Stops-read tablename _
            (λ table. each_of_type-Stops _ _ (rewrite_auto_inc_column-Stops table utable) ws tree)))

    fkey-Stops : (ws : WalkerState) (tree : T) → Stops Anything (create_table_rewrite_fkey ws tree)
    unfolding create_table_rewrite_fkey
    fkey-Stops ws tree =
        Stops-name tree _
          (λ tablename. each_with_comma-Stops _ _ (alter_table_add-Stops tablename) ws tree)

    -- Whatever its children are, no loop of the nine passes over a table uses up its fuel: they end, or
    -- read a NULL pointer.
    pub create_table_worker-Stops :
        (ws : WalkerState) (tree : T) → Stops Anything (create_table_worker ws tree)
    unfolding create_table_worker create_table_fulltext_index
    create_table_worker-Stops ws tree = Stops-bind _ (create_rewrite_enum-Stops tree) (λ t₁ _.
        Stops-bind _ (Stops-ends (create_rewrite_datatypes_lem t₁)) (λ t₂ _.
          Stops-bind _ (onupdate-Stops ws t₂) (λ r₃ _. Stops-bind _ (dates-Stops r₃.1) (λ t₄ _.
            Stops-bind _ (index-Stops r₃.0 t₄) (λ r₅ _.
              Stops-bind _ (auto_inc-Stops r₅.0 r₅.1) (λ r₆ _.
                Stops-bind _ (fulltext_loop-Stops (suc (get_child_count r₆.1)) 0 r₆.1 (omega arith))
                  (λ t₇ _. Stops-bind _ (fkey-Stops r₆.0 t₇) (λ r₈ _.
                    Stops-bind _ (Stops-ends (create_table_remove_table_options_lem r₈.1))
                      (λ t₉ _. value _ tt)))))))))
