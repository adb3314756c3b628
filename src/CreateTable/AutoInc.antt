-- ===== src/CreateTable/AutoInc.antt =====
-- `create_table_rewrite_auto_inc` of pgify.c.
pub mod Laws
pub mod Start
use Prim.Native.String.{◌++◌}
use pgify.Base.{ℕ, zero, suc, ◌+◌, String, Option, none, some, leb, ◌==◌, if◌then◌else◌}
use pgify.Antlr.{Antlr, get_type, get_text, to_string, get_child, get_child_count, delete_child}
use pgify.Children.{each_of_type}
use pgify.Glib.{Glib}
use pgify.LookAhead.{look_ahead_index}
use pgify.Result.{Result, ok, fault, out_of_fuel, deref, ◌>>=◌}
use pgify.TokenTypes.{
  t_create_table_column_def, t_create_table_options, k_auto_increment, eq, number,
}
use pgify.Walker.{WalkerState, append_postbuf, unquote}
use pgify.CreateTable.Name.{create_table_tablename}

abbrev pub create_sequence : String → String → String → String
create_sequence schema sequence start =
    "CREATE SEQUENCE " ++ schema ++ sequence ++ " START " ++ start ++ " ;\n"

abbrev pub set_default : String → String → String → String → String
set_default schema table column sequence =
    "ALTER TABLE " ++ schema ++ table ++ " ALTER COLUMN " ++ column ++ " SET DEFAULT NEXTVAL ( '"
    ++ schema ++ sequence ++ "' ) ;\n"

module _ {T : Type 0} ⦃a : Antlr T⦄ where
  -- The start value that a node of table options states, `AUTO_INCREMENT = n`. The children are
  -- dereferenced from left to right, as long as the tests hold; there may be only two of them.
  unfoldable pub stated_start : T → Result (Option String)
  stated_start options =
      if leb 2 (get_child_count options)
      then (do
        autoinc ← deref (get_child options 0)
        if get_type autoinc == k_auto_increment
            then (do
              equals ← deref (get_child options 1)
              if get_type equals == eq
                  then (do
                    value ← deref (get_child options 2)
                    if get_type value == number then ok (some (get_text value)) else ok none)
                  else ok none)
            else ok none)
      else ok none

  -- The loop over the table options: it also ends at options that are the first child.
  unfoldable pub auto_inc_start_loop : ℕ → T → ℕ → Result String
  auto_inc_start_loop zero tree lastpos = fault out_of_fuel
  auto_inc_start_loop (suc fuel) tree lastpos = do
    found ← look_ahead_index tree lastpos t_create_table_options
    elim found [
      | none ↦ ok "1"
      | some zero ↦ ok "1"
      | some (suc p) ↦ do
        options ← deref (get_child tree (suc p))
        start ← stated_start options
        elim start [ some value ↦ ok value | none ↦ auto_inc_start_loop fuel tree (suc p + 1) ]
    ]

  unfoldable pub auto_inc_start : T → Result String
  unfolding auto_inc_start_loop
  auto_inc_start tree = auto_inc_start_loop (suc (get_child_count tree)) tree 0

  module _ ⦃g : Glib⦄ where
    -- One column definition of the table `tree`.
    unfoldable pub rewrite_auto_inc_column :
        String → String → WalkerState → T → T → Result (WalkerState × T)
    rewrite_auto_inc_column table utable ws tree child = do
      incpos ← look_ahead_index child 0 k_auto_increment
      elim incpos [
        | none ↦ ok (ws, child)
        | some inc ↦ do
          id ← deref (get_child child 0)
          start ← auto_inc_start tree
          uid ← unquote (some (to_string id))
          let sequence = utable ++ "_" ++ uid ++ "_seq"
          ok (
            append_postbuf (append_postbuf ws (create_sequence ws.schema_name sequence start))
                (set_default ws.schema_name table (to_string id) sequence),
            delete_child child inc,
          )
      ]

    unfoldable pub create_table_rewrite_auto_inc : WalkerState → T → Result (WalkerState × T)
    create_table_rewrite_auto_inc ws tree = do
      tablename ← create_table_tablename tree
      utable ← unquote tablename
      table ← deref tablename
      each_of_type t_create_table_column_def (rewrite_auto_inc_column table utable) ws tree
