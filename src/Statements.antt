-- ===== src/Statements.antt =====
-- The handlers of pgify.c for single statements and expressions, but CREATE TABLE.
pub mod ShowTables
pub mod ShowColumns
pub mod Laws
use Prim.Native.String.{◌++◌}
use pgify.Base.{ℕ, zero, suc, String, Option, none, some, Bool, ◌||◌, decimal_int, if◌then◌else◌}
use pgify.Antlr.{Antlr, get_text, get_child, get_child_count, set_text, set_child, delete_child}
use pgify.Glib.{Glib}
use pgify.LookAhead.{look_ahead_index, look_ahead_down}
use pgify.Result.{Result, ok, deref, ◌>>=◌}
use pgify.TokenTypes.{k_use, id}
use pgify.Walker.{WalkerState, unquote}

-- `VERSION_SQL`
abbrev pub version_sql : String
version_sql =
    " ( select character_value from information_schema.sql_implementation_info where implementation_info_name = 'DBMS VERSION') "

-- `pattern` of `rewrite_if_function`
abbrev pub case_expression : String → String → String → String
case_expression s1 s2 s3 =
    "case when ( " ++ s1 ++ " ) is of (int) then case when " ++ s1 ++ " then " ++ s2 ++ " else "
    ++ s3 ++ " end else case when ( " ++ s1 ++ " )::text is not null then ( " ++ s2
    ++ " )::text else ( " ++ s3 ++ " )::text end end"

module _ ⦃g : Glib⦄ where
  abbrev names_version : String → Bool
  names_version ustr =
      g.ascii_strcasecmp_zero "version" ustr || g.ascii_strcasecmp_zero "version_comment" ustr

module _ {T : Type 0} ⦃a : Antlr T⦄ where
  -- The identifier behind USE becomes the schema, and the search path ends in `public`.
  unfoldable pub use_schema : WalkerState → T → Option ℕ → Result (WalkerState × T)
  use_schema ws tree none = ok (ws, tree)
  use_schema ws tree (some pos) = do
    schema ← deref (get_child tree pos)
    let str = get_text schema
    ok (
      record ws { schema_name = str ++ "." },
      set_child tree pos (set_text schema (str ++ ",public")),
    )

  unfoldable pub use_keyword : WalkerState → T → Option ℕ → Result (WalkerState × T)
  unfolding use_schema
  use_keyword ws tree none = ok (ws, tree)
  use_keyword ws tree (some pos) = do
    kuse ← deref (get_child tree pos)
    let tree' = set_child tree pos (set_text kuse "SET search_path TO")
    found ← look_ahead_index tree' 0 id
    use_schema ws tree' found

  unfoldable pub use_database_worker : WalkerState → T → Result (WalkerState × T)
  unfolding use_keyword
  use_database_worker ws tree = do found ← look_ahead_index tree 0 k_use; use_keyword ws tree found

  delete_first : ℕ → T → T
  delete_first zero tree = tree
  delete_first (suc left) tree = delete_first left (delete_child tree 0)

  unfoldable pub delete_tree_children : T → T
  unfolding delete_first
  delete_tree_children tree = delete_first (get_child_count tree) tree

  unfoldable pub lock_tables_worker : T → T
  lock_tables_worker tree = delete_tree_children (set_text tree "")

  module _ ⦃g : Glib⦄ where
    -- The search starts at the value of a variable that was not set, here `unset`. What it answers
    -- is then read as an index of a child of `tree`.
    unfoldable pub rewrite_server_variables : ℕ → T → Result T
    rewrite_server_variables unset tree = do
      found ← look_ahead_down tree unset id
      elim found [
        | none ↦ ok tree
        | some pos ↦ do
          child ← deref (get_child tree pos)
          ustr ← unquote (some (get_text child))
          ok (if names_version ustr then set_child tree pos (set_text child version_sql) else tree)
      ]

  unfoldable pub rewrite_if_function : T → Result T
  rewrite_if_function tree = do
    expr1 ← deref (get_child tree 0)
    expr2 ← deref (get_child tree 1)
    expr3 ← deref (get_child tree 2)
    let gstmt = case_expression (get_text expr1) (get_text expr2) (get_text expr3)
    let tree' = set_child tree 0 (set_text expr1 gstmt)
    ok (delete_child (delete_child tree' 1) 1)

  unfoldable pub rewrite_found_rows : WalkerState → T → T
  rewrite_found_rows ws tree = set_text tree (decimal_int ws.found_rows ++ " AS \"found_rows()\"")
