-- ===== src/TreeWalk.antt =====
-- `TreeWalkWorker` of pgify.c. Its debug output goes to stderr and changes no state, so it is left
-- out.
pub mod Laws
pub mod State
pub mod Stops
use pgify.Base.{ℕ, zero, suc, ◌+◌, ltb, ◌==◌, if◌then◌else◌}
use pgify.Antlr.{Antlr, get_type, get_child, get_child_count, set_child, height}
use pgify.CreateTable.{create_table_worker}
use pgify.Glib.{Glib}
use pgify.Result.{Result, ok, fault, out_of_fuel, deref, ◌>>=◌}
use pgify.Statements.{
  use_database_worker, lock_tables_worker, rewrite_server_variables, rewrite_if_function,
  rewrite_found_rows,
}
use pgify.Statements.ShowColumns.{show_columns_rewrite}
use pgify.Statements.ShowTables.{show_tables_rewrite}
use pgify.TokenTypes.{
  t_create_table, t_use_database, t_lock_table, t_server_variable, t_show_tables, t_show_columns,
  t_function_if, k_found_rows,
}
use pgify.Walker.{WalkerState}

module _ {T : Type 0} ⦃a : Antlr T⦄ where
  -- A handler that leaves the state alone.
  abbrev stateless : WalkerState → Result T → Result (WalkerState × T)
  stateless ws r = do child ← r; ok (ws, child)

  module _ ⦃g : Glib⦄ where
    -- The handler for a child of a token type. `unset` is the value of a variable that
    -- `rewrite_server_variables` reads before it is set.
    unfoldable pub rewrite_child : ℕ → ℕ → WalkerState → T → Result (WalkerState × T)
    rewrite_child unset token_type ws child =
        if token_type == t_create_table
        then create_table_worker ws child
        else if token_type == t_use_database
        then use_database_worker ws child
        else if token_type == t_lock_table
        then ok (ws, lock_tables_worker child)
        else if token_type == t_server_variable
        then stateless ws (rewrite_server_variables unset child)
        else if token_type == t_show_tables
        then stateless ws (show_tables_rewrite child)
        else if token_type == t_show_columns
        then stateless ws (show_columns_rewrite child)
        else if token_type == t_function_if
        then stateless ws (rewrite_if_function child)
        else if token_type == k_found_rows
        then ok (ws, rewrite_found_rows ws child)
        else ok (ws, child)

    -- The loop over the children from `c` on: a child's own children come first. A handler changes
    -- no children of `p`, so their number stays; the fuel bounds the depth.
    walk_from : ℕ → ℕ → ℕ → ℕ → WalkerState → T → Result (WalkerState × T)
    walk_from unset fuel c zero ws p = ok (ws, p)
    walk_from unset zero c (suc left) ws p = fault out_of_fuel
    walk_from unset (suc fuel) c (suc left) ws p = do
      child ← deref (get_child p c)
      let below = walk_from unset fuel 0 (get_child_count child) ws child
      (ws₁, child₁) ← if ltb 0 (get_child_count child) then below else ok (ws, child)
      (ws₂, child₂) ← rewrite_child unset (get_type child) ws₁ child₁
      walk_from unset (suc fuel) (c + 1) left ws₂ (set_child p c child₂)

    unfoldable pub tree_walk_worker : ℕ → WalkerState → T → Result (WalkerState × T)
    unfolding walk_from
    tree_walk_worker unset ws p = walk_from unset (height p) 0 (get_child_count p) ws p
