-- ===== src/Tests/Program.antt =====
-- The program on standard input, and more passes and statements.
use pgify.Base.{ℕ, String, ◌≡◌, refl, true, false, none, some, List, [], ◌∷◌, arith}
use pgify.Antlr.Concrete.{Tree, concrete, height_of, height_all}
use pgify.Children.Split.{Rewritten}
use pgify.CreateTable.Datatypes.{create_rewrite_datatypes}
use pgify.CreateTable.Datatypes.Laws.{create_rewrite_datatypes_lem}
use pgify.CreateTable.Enum.{rewrite_enum}
use pgify.CreateTable.Enum.Laws.{rewrite_enum_lem}
use pgify.Driver.{Outcome, parser, token_stream, lexer, tree_struct, pgify_tree, pgify_string}
use pgify.Glib.Concrete.{lower_case}
use pgify.Main.{Environment, main}
use pgify.Main.Laws.{fresh, main-stdin}
use pgify.Printer.{pgify_string_tree, tree_walk_printer, advance, advance_all, print_postbuf}
use pgify.Result.{ok}
use pgify.Statements.ShowTables.{show_tables_rewrite}
use pgify.Statements.ShowTables.Laws.{show_tables_rewrite-full}
use pgify.Tests.Samples.{tree, word, frontend}
use pgify.TokenTypes.{
  t_create_table_enum, k_enum, rparen, k_double, id, k_show, k_tables, k_full, t_show_from,
  t_show_like, t_show_tables,
}
use pgify.TreeWalk.{tree_walk_worker, rewrite_child}

-- No file can be opened; standard input holds some bytes.
abbrev shell : List ℕ → Environment String
shell bytes = record {
  open_file = λ name. none;
  string_stream = λ sql. "select a";
  stdin_bytes = bytes;
  stdin_error = false;
  walkerstate_malloc = true;
}

abbrev printed_select : Outcome String
printed_select = record {
  ws = fresh;
  result = some "select -- c\na";
  freed = parser ∷ token_stream ∷ lexer ∷ tree_struct ∷ [];
}

select_run : pgify_string (frontend true true true true) 0 "select a" fresh ≡ ok printed_select
unfolding pgify_string pgify_tree tree_walk_worker rewrite_child height_of height_all
    pgify_string_tree advance_all print_postbuf tree_walk_printer advance
select_run = refl

main-stdin_example :
    main (frontend true true true true) (shell (115 ∷ 59 ∷ [])) 0 []
    ≡ ok (record { status = 0; printed = some "select -- c\na" })
main-stdin_example =
    main-stdin (frontend true true true true) (shell (115 ∷ 59 ∷ [])) 0 refl refl
      (omega arith, (omega arith, tt)) (λ h. cc) refl printed_select select_run

-- ENUM ( 'a' )
abbrev enum_column : Tree
enum_column =
    tree t_create_table_enum "" (word k_enum "ENUM" ∷ word 700 "'a'" ∷ word rparen ")" ∷ [])

rewrite_enum_example :
    (tree' : Tree) × (rewrite_enum "size" enum_column ≡ ok tree')
    × Rewritten enum_column tree' (
        word k_enum "text CHECK ( size IN "
        ∷ word 700 "'a'"
        ∷ word rparen ")"
        ∷ word rparen ")"
        ∷ [])
rewrite_enum_example =
    rewrite_enum_lem "size" enum_column (word k_enum "ENUM") (word rparen ")") (word 700 "'a'" ∷ [])
      [] refl refl (omega arith, tt) refl refl

abbrev double_column : Tree
double_column = tree 0 "" (word k_double "double" ∷ word id "x" ∷ [])

create_rewrite_datatypes_example :
    (tree' : Tree) × (create_rewrite_datatypes double_column ≡ ok tree')
    × Rewritten double_column tree' (word k_double "double PRECISION " ∷ word id "x" ∷ [])
create_rewrite_datatypes_example = create_rewrite_datatypes_lem double_column

abbrev show : Tree
show = tree t_show_tables "" (word k_show "SHOW" ∷ word k_tables "TABLES" ∷ [])

abbrev from_shop : Tree
from_shop = tree t_show_from "" (word id "shop" ∷ [])

abbrev like : Tree
like = tree t_show_like "" (word 701 "LIKE" ∷ word 700 "'a%'" ∷ [])

abbrev show_full : Tree
show_full =
    tree t_show_tables ""
      (word k_show "SHOW" ∷ word k_full "FULL" ∷ word k_tables "TABLES" ∷ from_shop ∷ like ∷ [])

show_tables_rewrite-full_example :
    (tree' : Tree) × (show_tables_rewrite show_full ≡ ok tree')
    × Rewritten show_full tree' (
        word k_show
          "SELECT sub.tables, sub.table_type\n  FROM ( SELECT table_name AS tables,\n                'BASE TABLE' AS table_type\n           FROM information_schema.tables\n          WHERE table_schema = \"shop\"\n          UNION SELECT table_name,\n                'VIEW'\n           FROM information_schema.views\n          WHERE table_schema = \"shop\"\n          ORDER BY 1 ) sub\nWHERE sub.tables \n"
        ∷ like
        ∷ [])
show_tables_rewrite-full_example =
    show_tables_rewrite-full show_full (word k_show "SHOW") (word k_full "FULL")
      (word k_tables "TABLES") from_shop like (word id "shop") [] refl refl refl refl refl refl refl
