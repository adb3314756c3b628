-- ===== src/CreateTable/Stops/Columns.antt =====
-- ENUM, ON UPDATE and AUTO_INCREMENT stop, whatever the column is.
use pgify.Base.{ℕ, zero, suc, ◌+◌, ◌<◌, ◌≤◌, String, Option, none, some, leb, ◌==◌, arith}
use pgify.Antlr.{Antlr, get_type, get_text, get_child, get_child_count, delete_child}
use pgify.Children.Count.{count-delete_child, below_count}
use pgify.Children.Stops.{
  look_ahead_index-Stops, Stops-search, for_children-Stops, each_of_type-Stops,
}
use pgify.CreateTable.AutoInc.{
  stated_start, auto_inc_start_loop, auto_inc_start, rewrite_auto_inc_column,
}
use pgify.CreateTable.Enum.{enum_or_set, rewrite_enum, rewrite_enum_column, create_rewrite_enum}
use pgify.CreateTable.OnUpdate.{create_trigger, onupdate_loop}
use pgify.Glib.{Glib}
use pgify.Result.{ok, deref, ◌>>=◌}
use pgify.Result.Outcomes.{Anything}
use pgify.Result.Stops.{Stops, value, Stops-bind, Stops-read, Stops-option, Stops-if}
use pgify.TokenTypes.{
  rparen, k_enum, k_set, k_auto_increment, t_create_table_options, t_create_table_onupdate, eq,
  number,
}
use pgify.Walker.{WalkerState, unquote}

module _ {T : Type 0} ⦃a : Antlr T⦄ where
  -- ENUM and SET.
  pub enum_or_set-Stops : (tree : T) (o : Option ℕ) → Stops Anything (enum_or_set tree o)
  unfolding enum_or_set
  enum_or_set-Stops tree none = look_ahead_index-Stops tree 0 k_set
  enum_or_set-Stops tree (some p) = value (some p) tt

  pub rewrite_enum-Stops : (name : String) (tree : T) → Stops Anything (rewrite_enum name tree)
  unfolding rewrite_enum
  rewrite_enum-Stops name tree = Stops-bind _ (look_ahead_index-Stops tree 0 k_enum) (λ enum _.
      Stops-bind _ (enum_or_set-Stops tree enum) (λ found _. Stops-read found _ (λ enumpos.
        Stops-read (get_child tree enumpos) _ (λ enumtree.
          Stops-bind _ (look_ahead_index-Stops _ 0 rparen) (λ closing _.
            Stops-read closing _ (λ pos. Stops-read {A = T} _ _ (λ rtree. value _ tt)))))))

  pub create_rewrite_enum-Stops : (base : T) → Stops Anything (create_rewrite_enum base)
  unfolding create_rewrite_enum rewrite_enum_column
  create_rewrite_enum-Stops base =
      Stops-bind _
        (each_of_type-Stops _ _
          (λ u b def.
            Stops-bind _
              (Stops-bind _
                (each_of_type-Stops _ _
                  (λ u d tree.
                    Stops-read (get_child d 0) _ (λ n.
                      Stops-bind _ (rewrite_enum-Stops (get_text n) tree) (λ t _. value _ tt)))
                  _ _)
                (λ r _. value _ tt))
              (λ d _. value _ tt))
          _ base)
        (λ r _. value _ tt)

  -- ON UPDATE.
  pub create_trigger-Stops :
      ⦃g : Glib⦄ (table utable : String) (ws : WalkerState) (def tree : T)
      → Stops Anything (create_trigger table utable ws def tree)
  unfolding create_trigger unquote
  create_trigger-Stops table utable ws def tree =
      Stops-read (get_child def 0) _ (λ n.
        Stops-bind _ (for_children-Stops tree _ (λ e t. value _ tt) "") (λ expr _. value _ tt))

  pub onupdate_loop-Stops :
      ⦃g : Glib⦄ (table utable : String) (fuel pos : ℕ) (ws : WalkerState) (def : T)
      → get_child_count def < fuel
      → Stops Anything (onupdate_loop table utable fuel pos ws def)
  unfolding onupdate_loop
  onupdate_loop-Stops table utable zero pos ws def enough = absurd (omega arith)
  onupdate_loop-Stops table utable (suc fuel) pos ws def enough =
      Stops-search def pos t_create_table_onupdate _ (value (ws, def) tt) (λ p x le there.
        Stops-read (get_child def p) _ (λ tree.
          Stops-bind _ (create_trigger-Stops table utable ws def tree) (λ ws' _.
            onupdate_loop-Stops table utable fuel (p + 1) ws' (delete_child def p)
              (omega (arith, count-delete_child def p there)))))

  -- AUTO_INCREMENT.
  pub stated_start-Stops : (options : T) → Stops Anything (stated_start options)
  unfolding stated_start
  stated_start-Stops options =
      Stops-if (leb 2 (get_child_count options))
        (Stops-read (get_child options 0) _ (λ autoinc.
          Stops-if (get_type autoinc == k_auto_increment)
            (Stops-read (get_child options 1) _ (λ equals.
              Stops-if (get_type equals == eq)
                (Stops-read (get_child options 2) _ (λ number_tree.
                  Stops-if (get_type number_tree == number) (value (some (get_text number_tree)) tt)
                    (value none tt)))
                (value none tt)))
            (value none tt)))
        (value none tt)

  -- A round on the options found, where the rest of the loop is given.
  pub auto_inc_start_round :
      (fuel : ℕ) (tree : T) (p : ℕ)
      → Stops Anything (auto_inc_start_loop fuel tree (p + 1))
      → Stops {A = String} Anything (elim p [
        | zero ↦ ok "1"
        | suc p ↦ do
          options ← deref (get_child tree (suc p))
          start ← stated_start options
          elim start [ some n ↦ ok n | none ↦ auto_inc_start_loop fuel tree (suc p + 1) ]
      ])
  auto_inc_start_round fuel tree zero later = value "1" tt
  auto_inc_start_round fuel tree (suc p) later = Stops-read (get_child tree (suc p)) _ (λ options.
      Stops-bind _ (stated_start-Stops options)
        (λ start _. Stops-option start later (λ n. value n tt)))

  pub auto_inc_start_loop-Stops :
      (fuel : ℕ) (tree : T) (pos : ℕ)
      → pos ≤ get_child_count tree
      → get_child_count tree < fuel + pos
      → Stops Anything (auto_inc_start_loop fuel tree pos)
  unfolding auto_inc_start_loop
  auto_inc_start_loop-Stops zero tree pos le enough = absurd (omega arith)
  auto_inc_start_loop-Stops (suc fuel) tree pos le enough =
      Stops-search tree pos t_create_table_options _ (value "1" tt) (λ p x from there.
        auto_inc_start_round fuel tree p (
          auto_inc_start_loop-Stops fuel tree (p + 1) (omega (arith, below_count tree p there))
            (omega arith)))

  pub rewrite_auto_inc_column-Stops :
      ⦃g : Glib⦄ (table utable : String) (ws : WalkerState) (tree child : T)
      → Stops Anything (rewrite_auto_inc_column table utable ws tree child)
  unfolding rewrite_auto_inc_column auto_inc_start unquote
  rewrite_auto_inc_column-Stops table utable ws tree child =
      Stops-bind _ (look_ahead_index-Stops child 0 k_auto_increment) (λ incpos _.
        Stops-option incpos (value (ws, child) tt) (λ inc. Stops-read (get_child child 0) _ (λ id.
          Stops-bind _
            (auto_inc_start_loop-Stops (suc (get_child_count tree)) tree 0 (omega arith)
              (omega arith))
            (λ start _. value _ tt))))
