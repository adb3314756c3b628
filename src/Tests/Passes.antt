-- ===== src/Tests/Passes.antt =====
-- The searches among the children of a node, and the passes over a CREATE TABLE statement.
use pgify.Base.{ℕ, ◌≡◌, refl, Option, none, [], ◌∷◌, inl, arith}
use pgify.Antlr.{children, get_text}
use pgify.Antlr.Concrete.{Tree, concrete}
use pgify.Children.{each_with_comma}
use pgify.Children.Removal.{strip, each_with_comma_lem}
use pgify.Children.Split.{Rewritten, without_type}
use pgify.CreateTable.Options.{create_table_remove_table_options}
use pgify.CreateTable.Options.Laws.{create_table_remove_table_options_lem}
use pgify.CreateTable.Index.{create_table_index, add_part, index_type}
use pgify.CreateTable.Index.Laws.{create_table_index_lem, index, done}
use pgify.CreateTable.Fkey.{create_table_rewrite_fkey}
use pgify.CreateTable.Fkey.Laws.{create_table_rewrite_fkey_lem}
use pgify.CreateTable.Dates.{rewrite_date_column}
use pgify.CreateTable.Dates.Laws.{rewrite_date_column_lem}
use pgify.Glib.Concrete.{lower_case}
use pgify.LookAhead.{look_ahead_index, look_ahead_down}
use pgify.LookAhead.Laws.{IsFirstFrom, look_ahead_index_lem}
use pgify.LookAhead.Down.{child, IsAnswer, look_ahead_down_lem}
use pgify.Result.{ok}
use pgify.Tests.Samples.{tree, word, start, date_column, table}
use pgify.TokenTypes.{
  t_create_table_fkey, id, comma, t_create_table_index, t_create_table_options, stupid_mysql_date,
}
use pgify.Walker.{append_postbuf}

look_ahead_index_example :
    (o : Option ℕ) × (look_ahead_index table 3 comma ≡ ok o) × IsFirstFrom table 3 comma o
look_ahead_index_example = look_ahead_index_lem table 3 comma

look_ahead_down_example :
    (o : Option ℕ) × (look_ahead_down table 0 stupid_mysql_date ≡ ok o)
    × IsAnswer stupid_mysql_date table o
look_ahead_down_example = look_ahead_down_lem table stupid_mysql_date

create_table_remove_table_options_example :
    (base' : Tree) × (create_table_remove_table_options table ≡ ok base')
    × Rewritten table base' (without_type t_create_table_options (children table))
create_table_remove_table_options_example = create_table_remove_table_options_lem table

-- The index of the sample has no name, so its column gives the name and is lost.
create_table_index_example :
    (base' : Tree) × (create_table_index start table
      ≡ ok (append_postbuf start "CREATE INDEX t_born_index ON \"t\"  (  ) ;\n", base'))
    × Rewritten table base' (strip t_create_table_index [] (children table))
unfolding index_type look_ahead_index add_part
create_table_index_example =
    create_table_index_lem start table "\"t\"" _ refl (omega arith, omega arith)
      (index (tree t_create_table_index "" (word id "\"born\"" ∷ [])) none "\"born\"" refl refl
        done)

create_table_rewrite_fkey_example :
    (tree' : Tree) × (create_table_rewrite_fkey start table
      ≡ ok (record start { postbuf = "ALTER TABLE \"t\" ADD FOREIGN KEY;\n" }, tree'))
    × Rewritten table tree' (strip t_create_table_fkey [] (children table))
create_table_rewrite_fkey_example =
    create_table_rewrite_fkey_lem start table "\"t\"" refl (omega arith, omega arith)

rewrite_date_column_example :
    (def' : Tree) × (rewrite_date_column date_column ≡ ok def')
    × Rewritten date_column def' (word id "\"born\"" ∷ word stupid_mysql_date "NULL" ∷ [])
rewrite_date_column_example =
    rewrite_date_column_lem date_column (inl (child (word stupid_mysql_date "NULL") 3 refl refl))

-- A body that writes down what it removes.
each_with_comma_example :
    (tree' : Tree) × (each_with_comma t_create_table_index (λ s x. ok (get_text x ∷ s)) [] table
      ≡ ok ("" ∷ [], tree'))
    × Rewritten table tree' (strip t_create_table_index [] (children table))
each_with_comma_example =
    each_with_comma_lem t_create_table_index (λ s x. ok (get_text x ∷ s)) [] ("" ∷ []) table
      (omega arith, omega arith) refl
