-- ===== src/Statements/ShowTables.antt =====
-- `show_tables_rewrite` of pgify.c.
pub mod Laws
use Prim.Native.String.{◌++◌}
use pgify.Base.{ℕ, String, Option, none, some}
use pgify.Antlr.{Antlr, get_child, set_text, set_child, delete_child}
use pgify.Glib.{Glib}
use pgify.LookAhead.{look_ahead_index}
use pgify.Result.{Result, ok, deref, ◌>>=◌}
use pgify.TokenTypes.{t_show_from, t_show_like, k_full, k_show, k_tables}
use pgify.Walker.{get_lower_text, unquote}

-- `show_tables`
abbrev pub show_tables : String → String → String → String
show_tables columns schema where_part =
    "SELECT " ++ columns
    ++ "\n  FROM ( SELECT table_name AS tables,\n                'BASE TABLE' AS table_type\n           FROM information_schema.tables\n          WHERE table_schema = "
    ++ schema
    ++ "\n          UNION SELECT table_name,\n                'VIEW'\n           FROM information_schema.views\n          WHERE table_schema = "
    ++ schema ++ "\n          ORDER BY 1 ) sub\n" ++ where_part ++ "\n"

abbrev where_part : Option ℕ → String
where_part none = ""
where_part (some like) = "WHERE sub.tables "

abbrev columns_part : Option ℕ → String
columns_part none = "sub.tables"
columns_part (some full) = "sub.tables, sub.table_type"

module _ {T : Type 0} ⦃a : Antlr T⦄ where
  -- `deleteChild` at -1 is beyond the vector, and deletes nothing.
  abbrev pub delete_found : T → Option ℕ → T
  delete_found base none = base
  delete_found base (some p) = delete_child base p

  module _ ⦃g : Glib⦄ where
    -- The schema behind FROM or IN, quoted, and the node without it.
    unfoldable pub show_from : T → Option ℕ → Result (String × T)
    show_from base none = ok ("current_schema()", base)
    show_from base (some from) = do
      fromchild ← deref (get_child base from)
      child ← deref (get_child fromchild 0)
      unquoted ← unquote (some (get_lower_text child))
      ok ("\"" ++ unquoted ++ "\"", delete_child base from)

    unfoldable pub show_tables_rewrite : T → Result T
    unfolding show_from
    show_tables_rewrite base = do
      from ← look_ahead_index base 0 t_show_from
      (schema, base₁) ← show_from base from
      like ← look_ahead_index base₁ 0 t_show_like
      full ← look_ahead_index base₁ 0 k_full
      let base₂ = delete_found base₁ full
      show ← look_ahead_index base₂ 0 k_show
      pos ← deref show
      show_child ← deref (get_child base₂ pos)
      let base₃ =
          set_child base₂ pos
            (set_text show_child (show_tables (columns_part full) schema (where_part like)))
      tables ← look_ahead_index base₃ 0 k_tables
      ok (delete_found base₃ tables)
