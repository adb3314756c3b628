-- ===== src/Tests/States.antt =====
-- The state behind a walk over a USE statement, and behind a whole call.
use pgify.Base.{true, refl, some, [], ◌∷◌}
use pgify.Antlr.Concrete.{concrete, height_of, height_all}
use pgify.Driver.{
  parser, token_stream, lexer, tree_struct, input_stream, pgify_tree, pgify_string, pgify_string_s,
  walk_tree, walk_and_wrap, string_of,
}
use pgify.Driver.State.{Settled, pgify_string_s-Settled}
use pgify.Glib.Concrete.{lower_case}
use pgify.LookAhead.{look_ahead_index}
use pgify.Printer.{pgify_string_tree, tree_walk_printer, advance_all, advance, print_postbuf}
use pgify.Statements.{use_database_worker, use_keyword, use_schema}
use pgify.Tests.Samples.{tree, word, start, use_shop, frontend}
use pgify.TokenTypes.{k_use, id, t_use_database}
use pgify.TreeWalk.{tree_walk_worker, rewrite_child}
use pgify.TreeWalk.State.{tree_walk_worker-Grows}
use pgify.Walker.{WalkerState}
use pgify.Walker.Extends.{Grows}

-- USE shop, with a statement put off before
abbrev busy : WalkerState
busy = record start { postbuf = "CREATE INDEX i ON t(a);\n" }

tree_walk_worker-Grows_example : Grows busy (record busy { schema_name = "shop." })
unfolding tree_walk_worker rewrite_child height_of height_all use_database_worker use_keyword
    use_schema look_ahead_index
tree_walk_worker-Grows_example =
    tree_walk_worker-Grows busy 0 (tree 0 "" (use_shop ∷ []))
      (tree 0 "" (
        tree t_use_database "" (word k_use "SET search_path TO" ∷ word id "shop,public" ∷ []) ∷ []))
      (record busy { schema_name = "shop." }) refl

pgify_string_s-Settled_example :
    Settled busy start (some "select -- c\na\nCREATE INDEX i ON t(a);\n")
unfolding pgify_string_s pgify_string pgify_tree walk_tree walk_and_wrap string_of tree_walk_worker
    rewrite_child height_of height_all pgify_string_tree advance_all print_postbuf tree_walk_printer
    advance
pgify_string_s-Settled_example =
    pgify_string_s-Settled (frontend true true true true) 0 "select a" busy
      (record {
        ws = start;
        result = some "select -- c\na\nCREATE INDEX i ON t(a);\n";
        freed = parser ∷ token_stream ∷ lexer ∷ tree_struct ∷ input_stream ∷ [];
      })
      refl
