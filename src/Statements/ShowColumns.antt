-- ===== src/Statements/ShowColumns.antt =====
-- `show_columns_rewrite` of pgify.c.
pub mod Laws
use Prim.Native.String.{◌++◌}
use pgify.Base.{ℕ, String, Option, none, some}
use pgify.Antlr.{Antlr, get_child, set_text, set_child, delete_child}
use pgify.Glib.{Glib}
use pgify.LookAhead.{look_ahead_index}
use pgify.Result.{Result, ok, deref, ◌>>=◌}
use pgify.TokenTypes.{t_show_from, t_show_like, k_full, k_show}
use pgify.Walker.{get_lower_text, unquote}

-- `show_columns`
abbrev pub show_columns : String → String → String → String → String
show_columns columns table schema where_part =
    "SELECT " ++ columns
    ++ " FROM (\nSELECT c.column_name AS field,\n       udt_name || COALESCE ( '(' || character_maximum_length || ')', '' ) AS TYPE,\n       current_setting ( 'LC_COLLATE' ) AS collation,\n       is_nullable AS NULL,\n       ( SELECT CASE WHEN count ( * ) > 0 THEN 'PRI'\n\t\t     ELSE ''\n\t\tEND\n           FROM information_schema.key_column_usage u\n          WHERE c.table_catalog = u.table_catalog\n            AND c.table_schema = u.table_schema\n            AND c.column_name = u.column_name ) AS KEY,\n       column_default AS DEFAULT,\n       '' AS extra,\n       ( SELECT array_to_string ( array_agg ( cp.privilege_type::text ), ',' )\n           FROM information_schema.column_privileges cp\n          WHERE c.table_catalog = cp.table_catalog\n            AND c.table_schema = cp.table_schema\n            AND c.column_name = cp.column_name ) AS priv,\n       '' AS comment\n  FROM information_schema.COLUMNS c\n WHERE c.table_catalog = current_database ( )\n   AND c.table_name = '"
    ++ table ++ "'\n   AND c.table_schema = " ++ schema ++ "\n ORDER BY c.ordinal_position ) SUB\n"
    ++ where_part ++ "\n"

abbrev columns_part : Option ℕ → String
columns_part none = "field, type, \"null\", key, \"default\", extra"
columns_part (some full) = "*"

abbrev where_part : Option ℕ → String
where_part none = ""
where_part (some like) = "WHERE sub.field "

module _ {T : Type 0} ⦃a : Antlr T⦄ where
  delete_full : T → Option ℕ → T
  delete_full base none = base
  delete_full base (some full) = delete_child base full

  -- The statement replaces the text of SHOW, if the word is there.
  unfoldable pub set_show : T → String → Option ℕ → Result T
  set_show base statement none = ok base
  set_show base statement (some show) = do
    showchild ← deref (get_child base show)
    ok (set_child base show (set_text showchild statement))

  module _ ⦃g : Glib⦄ where
    -- The name in the FROM at a position, in lower case and without quotes.
    unfoldable pub from_name : T → ℕ → Result String
    from_name base from = do
      fromchild ← deref (get_child base from)
      child ← deref (get_child fromchild 0)
      unquote (some (get_lower_text child))

    -- The first FROM names the table.
    unfoldable pub show_table : T → Option ℕ → Result (String × T)
    unfolding from_name
    show_table base none = ok ("", base)
    show_table base (some from) = do
      unquoted ← from_name base from
      ok (unquoted, delete_child base from)

    -- The second FROM names the schema.
    unfoldable pub show_schema : T → Option ℕ → Result (String × T)
    unfolding from_name
    show_schema base none = ok ("current_schema()", base)
    show_schema base (some from) = do
      unquoted ← from_name base from
      ok ("'" ++ unquoted ++ "'", delete_child base from)

    unfoldable pub show_columns_rewrite : T → Result T
    unfolding show_table show_schema set_show delete_full
    show_columns_rewrite base = do
      full ← look_ahead_index base 0 k_full
      let base₁ = delete_full base full
      from_table ← look_ahead_index base₁ 0 t_show_from
      (table, base₂) ← show_table base₁ from_table
      from_schema ← look_ahead_index base₂ 0 t_show_from
      (schema, base₃) ← show_schema base₂ from_schema
      like ← look_ahead_index base₃ 0 t_show_like
      show ← look_ahead_index base₃ 0 k_show
      set_show base₃ (show_columns (columns_part full) table schema (where_part like)) show
