-- ===== src/CreateTable/OnUpdate.antt =====
-- `create_table_rewrite_onupdate` of pgify.c.
pub mod Laws
use Prim.Native.String.{◌++◌}
use pgify.Base.{ℕ, zero, suc, ◌+◌, String, none, some, ◌||◌, ◌==◌, if◌then◌else◌}
use pgify.Antlr.{Antlr, get_type, get_text, get_child, get_child_count, delete_child}
use pgify.Children.{for_children, each_of_type}
use pgify.Glib.{Glib}
use pgify.LookAhead.{look_ahead_index}
use pgify.Result.{Result, ok, fault, out_of_fuel, deref, ◌>>=◌}
use pgify.TokenTypes.{t_create_table_column_def, t_create_table_onupdate, k_on, k_update}
use pgify.Walker.{WalkerState, append_postbuf, unquote}
use pgify.CreateTable.Name.{create_table_tablename}

-- The template `tfunction`.
abbrev pub update_function : String → String → String → String → String → String
update_function schema utable uname name expr =
    "CREATE OR REPLACE FUNCTION " ++ schema ++ utable ++ "_update_" ++ uname
    ++ "()\nRETURNS TRIGGER AS $$\nBEGIN\n   NEW." ++ name ++ " = " ++ expr
    ++ "; \n   RETURN NEW;\nEND;\n$$ language 'plpgsql';\n"

-- The template `ttrigger`.
abbrev pub update_trigger : String → String → String → String → String
update_trigger schema table utable uname =
    "CREATE TRIGGER " ++ utable ++ "_update_" ++ uname ++ "_trigger BEFORE UPDATE\n   ON " ++ schema
    ++ table ++ " FOR EACH ROW EXECUTE PROCEDURE " ++ schema ++ utable ++ "_update_" ++ uname
    ++ "();\n"

module _ {T : Type 0} ⦃a : Antlr T⦄ where
  -- A word of the expression behind ON UPDATE.
  abbrev pub add_word : String → T → String
  add_word expr child =
      if get_type child == k_on || get_type child == k_update
      then expr
      else expr ++ " " ++ get_text child ++ " "

  module _ ⦃g : Glib⦄ where
    -- The function and the trigger for one ON UPDATE of a column.
    unfoldable pub create_trigger : String → String → WalkerState → T → T → Result WalkerState
    create_trigger table utable ws def tree = do
      ntree ← deref (get_child def 0)
      let name = get_text ntree
      expr ← for_children tree (λ e t. ok (add_word e t)) ""
      uname ← unquote (some name)
      ok (
          append_postbuf (append_postbuf ws (update_function ws.schema_name utable uname name expr))
            (update_trigger ws.schema_name table utable uname))

    -- The inner loop: the child found is deleted, and the search goes on behind its position.
    unfoldable pub onupdate_loop :
        String → String → ℕ → ℕ → WalkerState → T → Result (WalkerState × T)
    onupdate_loop table utable zero pos ws def = fault out_of_fuel
    onupdate_loop table utable (suc fuel) pos ws def = do
      found ← look_ahead_index def pos t_create_table_onupdate
      elim found [
        | none ↦ ok (ws, def)
        | some p ↦ do
          tree ← deref (get_child def p)
          ws' ← create_trigger table utable ws def tree
          onupdate_loop table utable fuel (p + 1) ws' (delete_child def p)
      ]

    unfoldable pub rewrite_onupdate_column :
        String → String → WalkerState → T → Result (WalkerState × T)
    unfolding onupdate_loop
    rewrite_onupdate_column table utable ws def =
        onupdate_loop table utable (suc (get_child_count def)) 0 ws def

    -- The name is used by the column loop only, and `unquote` reads it before that.
    unfoldable pub create_table_rewrite_onupdate : WalkerState → T → Result (WalkerState × T)
    create_table_rewrite_onupdate ws base = do
      tablename ← create_table_tablename base
      utable ← unquote tablename
      table ← deref tablename
      each_of_type t_create_table_column_def (λ w b def. rewrite_onupdate_column table utable w def)
          ws base
