-- ===== src/Tests/Texts.antt =====
-- The single statements, the walk, the printer, the driver and the program around it.
use mathlib.Core.Option.{some-injective}
use mathlib.Core.Path.{subst}
use pgify.Base.{
  ℕ, zero, suc, String, pos, true, false, ◌≡◌, refl, sym, ap, ◌∙◌, none, some, List, [], ◌∷◌, arith,
}
use pgify.Antlr.{children, get_type}
use pgify.Antlr.Concrete.{Tree, concrete, height_of, height_all}
use pgify.Driver.{parser, token_stream, lexer, tree_struct, pgify_tree, pgify_string}
use pgify.Driver.Laws.{pgify_tree-uninitialised, pgify_string-null, pgify_string_lem}
use pgify.Glib.Concrete.{lower_case}
use pgify.LookAhead.Down.{Occurs, child, deeper}
use pgify.Main.ReadStdin.{read_stdin}
use pgify.Main.ReadStdin.Laws.{read_stdin_lem}
use pgify.Main.Switches.{decode_switches}
use pgify.Main.Switches.Laws.{decode_switches_flags}
use pgify.Printer.{advance_hidden, advance_all, print_postbuf, pgify_string_tree}
use pgify.Printer.Weave.{Leaves, Weave, pgify_string_tree_lem}
use pgify.Printer.Column.{advance_hidden-WithinColumn}
use pgify.Result.{ok, fault, uninitialised}
use pgify.Statements.{use_database_worker, rewrite_server_variables}
use pgify.Statements.Laws.{use_database_worker_lem, rewrite_server_variables_lem}
use pgify.Tests.Samples.{
  word, start, use_shop, server_version, select, blank, remark, visible, frontend,
}
use pgify.TokenTypes.{id, k_use}
use pgify.TreeWalk.{tree_walk_worker, rewrite_child}
use pgify.TreeWalk.Laws.{is_rewritten, IsPlain, tree_walk_worker-plain}
use pgify.Children.Split.{Rewritten}
use pgify.Walker.{is_debug, is_escape, is_lowerid}

use_database_worker_example :
    (tree' : Tree) × (use_database_worker start use_shop
      ≡ ok (record start { schema_name = "shop." }, tree'))
    × Rewritten use_shop tree' (word k_use "SET search_path TO" ∷ word id "shop,public" ∷ [])
use_database_worker_example =
    use_database_worker_lem start use_shop (word k_use "USE") (word id "shop") [] refl refl refl

rewrite_server_variables_example :
    (tree' : Tree) × (rewrite_server_variables 0 server_version ≡ ok tree')
    × Rewritten server_version tree' (
        word id
          " ( select character_value from information_schema.sql_implementation_info where implementation_info_name = 'DBMS VERSION') "
        ∷ [])
rewrite_server_variables_example =
    rewrite_server_variables_lem 0 server_version (word id "\"version_comment\"") refl refl

false_not_true : ¬ (false ≡ true)
false_not_true h = cc

no_leaf_below : (k : ℕ) (t : Tree) → children t ≡ [] → ¬ (Occurs k t)
no_leaf_below k t h (child c i e s) = cc (rw h at e)
no_leaf_below k t h (deeper c i e s) = cc (rw h at e)

pub select-IsPlain : IsPlain select
unfolding is_rewritten
select-IsPlain k h (child c zero e s) =
    let same : 600 ≡ k = ap get_type (some-injective _ _ e) ∙ s in
    false_not_true (subst (λ n. is_rewritten n ≡ true) (sym same) h)
select-IsPlain k h (child c (suc zero) e s) =
    let same : id ≡ k = ap get_type (some-injective _ _ e) ∙ s in
    false_not_true (subst (λ n. is_rewritten n ≡ true) (sym same) h)
select-IsPlain k h (child c (suc (suc i)) e s) = cc
select-IsPlain k h (deeper c zero e s) =
    no_leaf_below k c (ap children (sym (some-injective _ _ e))) s
select-IsPlain k h (deeper c (suc zero) e s) =
    no_leaf_below k c (ap children (sym (some-injective _ _ e))) s
select-IsPlain k h (deeper c (suc (suc i)) e s) = cc

tree_walk_worker-plain_example : tree_walk_worker 0 start select ≡ ok (start, select)
tree_walk_worker-plain_example = tree_walk_worker-plain 0 start select select-IsPlain

decode_switches_example : (is_debug 3 ≡ true) × (is_escape 3 ≡ true) × (is_lowerid 3 ≡ false)
unfolding decode_switches
decode_switches_example = decode_switches_flags ((b'd', "") ∷ (b'c', "") ∷ []) 3 none refl

read_stdin_example : read_stdin (115 ∷ 10 ∷ 59 ∷ []) ≡ 115 ∷ 10 ∷ 59 ∷ []
read_stdin_example =
    read_stdin_lem (115 ∷ 10 ∷ 59 ∷ []) (omega arith, (omega arith, (omega arith, tt)))

pgify_string_tree_example :
    (ls : List String) × (text : String) × Leaves (children select) ls
    × Weave (" " ∷ "-- c\n" ∷ []) ls text
    × (pgify_string_tree (some select) (visible ∷ blank ∷ remark ∷ []) start
        ≡ ok (print_postbuf text start))
pgify_string_tree_example = pgify_string_tree_lem select (visible ∷ blank ∷ remark ∷ []) start

-- The comment on line 2 is printed in front of a leaf on line 1.
advance_hidden-WithinColumn_example :
    advance_hidden (pos 1) (pos 7) "select" (blank ∷ remark ∷ []) ≡ ("select -- c\n", [])
unfolding advance_all
advance_hidden-WithinColumn_example =
    advance_hidden-WithinColumn (pos 1) (pos 7) (blank ∷ remark ∷ []) "select"
      ((λ h. refl), ((λ h. refl), tt))

pgify_tree-uninitialised_example :
    pgify_tree (frontend true false true true) 0 "select a" start ≡ fault uninitialised
pgify_tree-uninitialised_example =
    pgify_tree-uninitialised (frontend true false true true) 0 "select a" start refl

pgify_string-null_example :
    pgify_string (frontend true true true false) 0 "select a" start
    ≡ ok (record { ws = start; result = none; freed = parser ∷ token_stream ∷ lexer ∷ [] })
unfolding tree_walk_worker height_of height_all rewrite_child
pgify_string-null_example =
    pgify_string-null (frontend true true true false) 0 "select a" start refl select select start
      refl refl refl

pgify_string_example :
    (ls : List String) × (text : String) × Leaves (children select) ls
    × Weave (" " ∷ "-- c\n" ∷ []) ls text
    × (pgify_string (frontend true true true true) 0 "select a" start
        ≡ ok (record {
          ws = (print_postbuf text start).1;
          result = some (print_postbuf text start).0;
          freed = parser ∷ token_stream ∷ lexer ∷ tree_struct ∷ [];
        }))
unfolding tree_walk_worker height_of height_all rewrite_child
pgify_string_example =
    pgify_string_lem (frontend true true true true) 0 "select a" start refl select select start refl
      refl refl
