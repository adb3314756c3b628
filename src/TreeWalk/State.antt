-- ===== src/TreeWalk/State.antt =====
-- What a walk does to the walker's state.
use pgify.Base.{ℕ, zero, suc, ◌+◌, ◌≡◌, Option, none, some, ltb, ◌==◌}
use pgify.Antlr.{Antlr, get_type, get_child, get_child_count, set_child, set_text, height}
use pgify.CreateTable.State.{create_table_worker-Extends}
use pgify.Glib.{Glib}
use pgify.LookAhead.{look_ahead_index}
use pgify.Result.{Result, ok, out_of_fuel, deref, ◌>>=◌}
use pgify.Result.Outcomes.{
  Ensures, returns, faults, Ensures-ok, Ensures-bind, Ensures-step, Ensures-if,
}
use pgify.Statements.{
  use_database_worker, use_keyword, use_schema, rewrite_server_variables, rewrite_if_function,
  rewrite_found_rows, lock_tables_worker,
}
use pgify.Statements.ShowTables.{show_tables_rewrite}
use pgify.Statements.ShowColumns.{show_columns_rewrite}
use pgify.TokenTypes.{
  id, k_use, t_create_table, t_use_database, t_lock_table, t_server_variable, t_show_tables,
  t_show_columns, t_function_if, k_found_rows,
}
use pgify.TreeWalk.{rewrite_child, walk_from, tree_walk_worker}
use pgify.Walker.{WalkerState}
use pgify.Walker.Extends.{Extends, same, switch, Grows, Extends-Grows}

module _ {T : Type 0} ⦃a : Antlr T⦄ (ws : WalkerState) where
  -- A handler that hands the state on.
  stateless-Extends :
      (w : WalkerState) (r : Result T)
      → Extends ws w
      → Ensures {A = WalkerState × T} (λ q. Extends ws q.0) (r >>= λ child. ok (w, child))
  stateless-Extends w r e = Ensures-step r _ (λ child. returns (w, child) e)

  use_schema-Extends :
      (w : WalkerState) (tree : T) (found : Option ℕ)
      → Extends ws w
      → Ensures (λ r. Extends ws r.0) (use_schema w tree found)
  unfolding use_schema
  use_schema-Extends w tree none e = returns _ e
  use_schema-Extends w tree (some pos) e =
      Ensures-step (deref (get_child tree pos)) _ (λ schema. returns _ (switch _ e))

  use_keyword-Extends :
      (w : WalkerState) (tree : T) (found : Option ℕ)
      → Extends ws w
      → Ensures (λ r. Extends ws r.0) (use_keyword w tree found)
  unfolding use_keyword
  use_keyword-Extends w tree none e = returns _ e
  use_keyword-Extends w tree (some pos) e = Ensures-step (deref (get_child tree pos)) _ (λ kuse.
      Ensures-step (look_ahead_index (set_child tree pos (set_text kuse "SET search_path TO")) 0 id)
        _ (λ found. use_schema-Extends w _ found e))

  use_database_worker-Extends :
      (w : WalkerState) (tree : T)
      → Extends ws w
      → Ensures (λ r. Extends ws r.0) (use_database_worker w tree)
  unfolding use_database_worker
  use_database_worker-Extends w tree e =
      Ensures-step (look_ahead_index tree 0 k_use) _ (λ found. use_keyword-Extends w tree found e)

  module _ ⦃g : Glib⦄ (unset : ℕ) where
    rewrite_child-Extends :
        (k : ℕ) (w : WalkerState) (x : T)
        → Extends ws w
        → Ensures (λ r. Extends ws r.0) (rewrite_child unset k w x)
    unfolding rewrite_child
    rewrite_child-Extends k w x e =
        Ensures-if (k == t_create_table) (create_table_worker-Extends ws w x e) (
          Ensures-if (k == t_use_database) (use_database_worker-Extends w x e) (
            Ensures-if (k == t_lock_table) (returns (w, lock_tables_worker x) e) (
              Ensures-if (k == t_server_variable)
                (stateless-Extends w (rewrite_server_variables unset x) e)
                (Ensures-if (k == t_show_tables) (stateless-Extends w (show_tables_rewrite x) e) (
                  Ensures-if (k == t_show_columns) (stateless-Extends w (show_columns_rewrite x) e)
                    (Ensures-if (k == t_function_if) (stateless-Extends w (rewrite_if_function x) e)
                      (Ensures-if (k == k_found_rows) (returns (w, rewrite_found_rows w x) e)
                        (returns (w, x) e))))))))

    walk_from-Extends :
        (fuel c left : ℕ) (w : WalkerState) (p : T)
        → Extends ws w
        → Ensures (λ r. Extends ws r.0) (walk_from unset fuel c left w p)
    unfolding walk_from
    walk_from-Extends zero c zero w p e = returns _ e
    walk_from-Extends (suc fuel) c zero w p e = returns _ e
    walk_from-Extends zero c (suc left) w p e = faults out_of_fuel
    walk_from-Extends (suc fuel) c (suc left) w p e =
        Ensures-step (deref (get_child p c)) _ (λ child.
          Ensures-bind _
            (Ensures-if (ltb 0 (get_child_count child))
              (walk_from-Extends fuel 0 (get_child_count child) w child e) (returns _ e))
            (λ r e₁.
              Ensures-bind _ (rewrite_child-Extends (get_type child) r.0 r.1 e₁)
                (λ q e₂. walk_from-Extends (suc fuel) (c + 1) left q.0 (set_child p c q.1) e₂)))

    -- Whatever a walk rewrites, the options and the number of found rows stay as they were, and the
    -- statements that were put off before stay in front of those that the walk puts off.
    pub tree_walk_worker-Grows :
        (t t' : T) (ws' : WalkerState) → tree_walk_worker unset ws t ≡ ok (ws', t') → Grows ws ws'
    unfolding tree_walk_worker
    tree_walk_worker-Grows t t' ws' h =
        Extends-Grows (Ensures-ok (walk_from-Extends (height t) 0 (get_child_count t) ws t same) h)
