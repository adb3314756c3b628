-- ===== src/TreeWalk/Stops.antt =====
-- The walk over a tree stops.
use pgify.Base.{
  ℕ, zero, suc, ◌+◌, ◌<◌, ◌≤◌, ◌≡◌, ◌≢◌, sym, ap, ◌∙◌, String, ◌==◌, ltb, Option, none, some,
  get_elem?, get_elem?-of_lt, get_elem?-set_other, arith,
}
use pgify.Antlr.{
  Antlr, get_type, get_text, children, get_child, get_child_count, set_child, height, height-child,
  get_child_lem, get_child_count_lem, children-set_child,
}
use pgify.Children.Count.{count-set_child}
use pgify.Children.Stops.{look_ahead_index-Stops}
use pgify.CreateTable.Stops.{create_table_worker-Stops, unquote-Stops}
use pgify.Glib.{Glib}
use pgify.LookAhead.{look_ahead_down}
use pgify.LookAhead.Down.{look_ahead_down-ends}
use pgify.Result.{Result, ok, fault, out_of_fuel, ◌>>=◌}
use pgify.Result.Outcomes.{Anything}
use pgify.Result.Stops.{
  Stops, value, Stops-bind, Stops-read, Stops-option, Stops-if, Stops-Runs, Stops-fuel,
}
use pgify.Statements.{
  use_database_worker, use_keyword, use_schema, rewrite_server_variables, rewrite_if_function,
  lock_tables_worker, rewrite_found_rows,
}
use pgify.Statements.ShowColumns.{
  show_columns_rewrite, show_table, show_schema, from_name, set_show,
}
use pgify.Statements.ShowTables.{show_tables_rewrite, show_from}
use pgify.TokenTypes.{
  id, k_use, k_full, k_show, k_tables, t_show_from, t_show_like, t_create_table, t_use_database,
  t_lock_table, t_server_variable, t_show_tables, t_show_columns, t_function_if, k_found_rows,
}
use pgify.TreeWalk.{rewrite_child, walk_from, tree_walk_worker}
use pgify.Walker.{WalkerState, get_lower_text}

module _ {T : Type 0} ⦃a : Antlr T⦄ where
  use_schema-Stops :
      (ws : WalkerState) (tree : T) (found : Option ℕ) → Stops Anything (use_schema ws tree found)
  unfolding use_schema
  use_schema-Stops ws tree none = value _ tt
  use_schema-Stops ws tree (some pos) = Stops-read (get_child tree pos) _ (λ schema. value _ tt)

  use_keyword-Stops :
      (ws : WalkerState) (tree : T) (found : Option ℕ) → Stops Anything (use_keyword ws tree found)
  unfolding use_keyword
  use_keyword-Stops ws tree none = value _ tt
  use_keyword-Stops ws tree (some pos) = Stops-read (get_child tree pos) _ (λ kuse.
      Stops-bind _ (look_ahead_index-Stops _ 0 id) (λ found _. use_schema-Stops ws _ found))

  use_database_worker-Stops :
      (ws : WalkerState) (tree : T) → Stops Anything (use_database_worker ws tree)
  unfolding use_database_worker
  use_database_worker-Stops ws tree =
      Stops-bind _ (look_ahead_index-Stops tree 0 k_use)
        (λ found _. use_keyword-Stops ws tree found)

  rewrite_if_function-Stops : (tree : T) → Stops Anything (rewrite_if_function tree)
  unfolding rewrite_if_function
  rewrite_if_function-Stops tree = Stops-read (get_child tree 0) _ (λ e₁.
      Stops-read (get_child tree 1) _ (λ e₂. Stops-read (get_child tree 2) _ (λ e₃. value _ tt)))

  down-Stops : (tree : T) (from : ℕ) → Stops Anything (look_ahead_down tree from id)
  down-Stops tree from =
      let (o, runs) = look_ahead_down-ends tree from id in Stops-Runs (o, runs, tt)

  module _ ⦃g : Glib⦄ where
    rewrite_server_variables-Stops :
        (unset : ℕ) (tree : T) → Stops Anything (rewrite_server_variables unset tree)
    unfolding rewrite_server_variables
    rewrite_server_variables-Stops unset tree = Stops-bind _ (down-Stops tree unset) (λ found _.
        Stops-option found (value tree tt) (λ pos.
          Stops-read (get_child tree pos) _
            (λ child. Stops-bind _ (unquote-Stops (some (get_text child))) (λ u _. value _ tt))))

    show_from-Stops : (base : T) (from : Option ℕ) → Stops Anything (show_from base from)
    unfolding show_from
    show_from-Stops base none = value _ tt
    show_from-Stops base (some from) = Stops-read (get_child base from) _ (λ fromchild.
        Stops-read (get_child fromchild 0) _
          (λ child. Stops-bind _ (unquote-Stops (some (get_lower_text child))) (λ u _. value _ tt)))

    show_tables_rewrite-Stops : (base : T) → Stops Anything (show_tables_rewrite base)
    unfolding show_tables_rewrite
    show_tables_rewrite-Stops base =
        Stops-bind _ (look_ahead_index-Stops base 0 t_show_from) (λ from _.
          Stops-bind _ (show_from-Stops base from) (λ r _.
            Stops-bind _ (look_ahead_index-Stops r.1 0 t_show_like) (λ like _.
              Stops-bind _ (look_ahead_index-Stops r.1 0 k_full) (λ full _.
                Stops-bind _ (look_ahead_index-Stops _ 0 k_show) (λ show _.
                  Stops-read show _ (λ pos. Stops-read {A = T} _ _ (λ show_child.
                    Stops-bind _ (look_ahead_index-Stops _ 0 k_tables)
                      (λ tables _. value _ tt))))))))

    from_name-Stops : (base : T) (from : ℕ) → Stops Anything (from_name base from)
    unfolding from_name
    from_name-Stops base from = Stops-read (get_child base from) _ (λ fromchild.
        Stops-read (get_child fromchild 0) _ (λ child. unquote-Stops (some (get_lower_text child))))

    show_table-Stops : (base : T) (from : Option ℕ) → Stops Anything (show_table base from)
    unfolding show_table
    show_table-Stops base none = value _ tt
    show_table-Stops base (some from) = Stops-bind _ (from_name-Stops base from) (λ u _. value _ tt)

    show_schema-Stops : (base : T) (from : Option ℕ) → Stops Anything (show_schema base from)
    unfolding show_schema
    show_schema-Stops base none = value _ tt
    show_schema-Stops base (some from) =
        Stops-bind _ (from_name-Stops base from) (λ u _. value _ tt)

    set_show-Stops :
        (base : T) (statement : String) (show : Option ℕ)
        → Stops Anything (set_show base statement show)
    unfolding set_show
    set_show-Stops base statement none = value _ tt
    set_show-Stops base statement (some show) = Stops-read (get_child base show) _ (λ c. value _ tt)

    show_columns_rewrite-Stops : (base : T) → Stops Anything (show_columns_rewrite base)
    unfolding show_columns_rewrite
    show_columns_rewrite-Stops base = Stops-bind _ (look_ahead_index-Stops base 0 k_full) (λ full _.
        Stops-bind _ (look_ahead_index-Stops _ 0 t_show_from) (λ from_table _.
          Stops-bind _ (show_table-Stops _ from_table) (λ r _.
            Stops-bind _ (look_ahead_index-Stops r.1 0 t_show_from) (λ from_schema _.
              Stops-bind _ (show_schema-Stops r.1 from_schema) (λ q _.
                Stops-bind _ (look_ahead_index-Stops q.1 0 t_show_like) (λ like _.
                  Stops-bind _ (look_ahead_index-Stops q.1 0 k_show)
                    (λ show _. set_show-Stops q.1 _ show)))))))

    stateless-Stops :
        (w : WalkerState) (r : Result T)
        → Stops Anything r
        → Stops {A = WalkerState × T} Anything (r >>= λ child. ok (w, child))
    stateless-Stops w r stops = Stops-bind _ stops (λ child _. value _ tt)

    rewrite_child-Stops :
        (unset k : ℕ) (w : WalkerState) (x : T) → Stops Anything (rewrite_child unset k w x)
    unfolding rewrite_child
    rewrite_child-Stops unset k w x =
        Stops-if (k == t_create_table) (create_table_worker-Stops w x) (
          Stops-if (k == t_use_database) (use_database_worker-Stops w x) (
            Stops-if (k == t_lock_table) (value (w, lock_tables_worker x) tt) (
              Stops-if (k == t_server_variable)
                (stateless-Stops w _ (rewrite_server_variables-Stops unset x))
                (Stops-if (k == t_show_tables) (stateless-Stops w _ (show_tables_rewrite-Stops x)) (
                  Stops-if (k == t_show_columns)
                    (stateless-Stops w _ (show_columns_rewrite-Stops x))
                    (Stops-if (k == t_function_if)
                      (stateless-Stops w _ (rewrite_if_function-Stops x))
                      (Stops-if (k == k_found_rows) (value (w, rewrite_found_rows w x) tt)
                        (value (w, x) tt))))))))

    -- The children from a position on are less high than a number.
    LowFrom : ℕ → ℕ → T → Type 0
    LowFrom c fuel p = (i : ℕ) (x : T) → c ≤ i → get_elem? (children p) i ≡ some x → height x < fuel

    LowFrom-set_child :
        (c fuel : ℕ) (p y : T) → LowFrom c fuel p → LowFrom (c + 1) fuel (set_child p c y)
    unfolding LowFrom
    LowFrom-set_child c fuel p y low i x le at = low i x (omega arith) (
        sym (
          ap (λ l. get_elem? l i) (children-set_child p c y)
          ∙ get_elem?-set_other (children p) c i y (omega arith))
        ∙ at)

    walk_from-Stops :
        (unset fuel c left : ℕ) (ws : WalkerState) (p : T)
        → c + left ≡ get_child_count p
        → LowFrom c fuel p
        → Stops Anything (walk_from unset fuel c left ws p)
    unfolding walk_from LowFrom
    walk_from-Stops unset zero c zero ws p all low = value _ tt
    walk_from-Stops unset (suc fuel) c zero ws p all low = value _ tt
    walk_from-Stops unset zero c (suc left) ws p all low =
        let (x, at) = get_elem?-of_lt (children p) c (omega (arith, get_child_count_lem p)) in
        absurd (omega (arith, low c x (omega arith) at))
    walk_from-Stops unset (suc fuel) c (suc left) ws p all low =
        let (x, at) = get_elem?-of_lt (children p) c (omega (arith, get_child_count_lem p)) in
        rw (get_child_lem p c, at)
          (Stops-bind _
            (Stops-if (ltb 0 (get_child_count x))
              (walk_from-Stops unset fuel 0 (get_child_count x) ws x (omega arith)
                (λ i y le there. omega (arith, low c x (omega arith) at, height-child x y i there)))
              (value (ws, x) tt))
            (λ r _. Stops-bind _ (rewrite_child-Stops unset (get_type x) r.0 r.1) (λ q _.
              walk_from-Stops unset (suc fuel) (c + 1) left q.0 (set_child p c q.1)
                (omega (arith, count-set_child p c q.1))
                (LowFrom-set_child c (suc fuel) p q.1 low))))

    -- Whatever the tree is, a walk over it ends, or it reads a NULL pointer or a variable that was never
    -- set: no loop and no recursion uses up the fuel that the model gives it.
    pub tree_walk_worker-stops :
        (unset : ℕ) (ws : WalkerState) (t : T) → tree_walk_worker unset ws t ≢ fault out_of_fuel
    unfolding tree_walk_worker LowFrom
    tree_walk_worker-stops unset ws t = Stops-fuel (
        walk_from-Stops unset (height t) 0 (get_child_count t) ws t (omega arith)
          (λ i x le at. height-child t x i at))
