-- ===== src/Statements/ShowColumns/Laws.antt =====
-- SHOW COLUMNS becomes a query of the information schema.
use Prim.Native.String.{◌++◌}
use pgify.Base.{String, ◌≡◌, refl, ◌∙◌, List, [], ◌∷◌}
use pgify.Antlr.{
  Antlr, get_type, get_text, children, set_text, set_child, delete_child, get_child_lem,
  children-set_child, children-delete_child, type-set_child, type-delete_child,
}
use pgify.Children.Split.{Rewritten}
use pgify.Glib.{Glib, without_quotes}
use pgify.LookAhead.Laws.{look_ahead_index-eq}
use pgify.Result.{ok}
use pgify.Statements.ShowColumns.{show_columns_rewrite}
use pgify.TokenTypes.{t_show_from, t_show_like, k_full, k_show}
use pgify.Walker.{unquote, get_lower_text}

-- The query for some columns of a table, which is named without quotes, in a schema, which is an
-- expression, under a condition.
abbrev columns_query : String → String → String → String → String
columns_query columns table schema condition =
    "SELECT " ++ columns
    ++ " FROM (\nSELECT c.column_name AS field,\n       udt_name || COALESCE ( '(' || character_maximum_length || ')', '' ) AS TYPE,\n       current_setting ( 'LC_COLLATE' ) AS collation,\n       is_nullable AS NULL,\n       ( SELECT CASE WHEN count ( * ) > 0 THEN 'PRI'\n\t\t     ELSE ''\n\t\tEND\n           FROM information_schema.key_column_usage u\n          WHERE c.table_catalog = u.table_catalog\n            AND c.table_schema = u.table_schema\n            AND c.column_name = u.column_name ) AS KEY,\n       column_default AS DEFAULT,\n       '' AS extra,\n       ( SELECT array_to_string ( array_agg ( cp.privilege_type::text ), ',' )\n           FROM information_schema.column_privileges cp\n          WHERE c.table_catalog = cp.table_catalog\n            AND c.table_schema = cp.table_schema\n            AND c.column_name = cp.column_name ) AS priv,\n       '' AS comment\n  FROM information_schema.COLUMNS c\n WHERE c.table_catalog = current_database ( )\n   AND c.table_name = '"
    ++ table ++ "'\n   AND c.table_schema = " ++ schema ++ "\n ORDER BY c.ordinal_position ) SUB\n"
    ++ condition ++ "\n"

module _ {T : Type 0} ⦃a : Antlr T⦄ ⦃g : Glib⦄ where
  -- SHOW with two FROM behind it and nothing else becomes the query, written out, for the columns of
  -- the table that the first names, in the schema that the second names, both in lower case, without
  -- their own quotes and between single quotes; SHOW is the only child left.
  pub show_columns_rewrite_lem :
      (tree s f₁ f₂ n₁ n₂ : T) (ns₁ ns₂ : List T)
      → children tree ≡ s ∷ f₁ ∷ f₂ ∷ []
      → get_type s ≡ k_show
      → get_type f₁ ≡ t_show_from
      → get_type f₂ ≡ t_show_from
      → children f₁ ≡ n₁ ∷ ns₁
      → children f₂ ≡ n₂ ∷ ns₂
      → (tree' : T) × (show_columns_rewrite tree ≡ ok tree')
        × Rewritten tree tree' (
            set_text s (
              columns_query "field, type, \"null\", key, \"default\", extra"
                (without_quotes (g.utf8_strdown (get_text n₁)))
                ("'" ++ (without_quotes (g.utf8_strdown (get_text n₂)) ++ "'"))
                "")
            ∷ [])
  unfolding show_columns_rewrite unquote get_lower_text
  show_columns_rewrite_lem tree s f₁ f₂ n₁ n₂ ns₁ ns₂ h ks k₁ k₂ h₁ h₂ =
      let t₁ = delete_child tree 1 in
      let c₁ : children t₁ ≡ s ∷ f₂ ∷ [] = children-delete_child tree 1 ∙ rw h refl in
      let t₂ = delete_child t₁ 1 in
      let c₂ : children t₂ ≡ s ∷ [] = children-delete_child t₁ 1 ∙ rw c₁ refl in
      let s' = set_text s (
        columns_query "field, type, \"null\", key, \"default\", extra"
          (without_quotes (g.utf8_strdown (get_text n₁)))
          ("'" ++ (without_quotes (g.utf8_strdown (get_text n₂)) ++ "'")) "") in
      (
        set_child t₂ 0 s',
        rw
            (
              look_ahead_index-eq tree 0 k_full,
              h,
              ks,
              k₁,
              k₂,
              look_ahead_index-eq tree 0 t_show_from,
              h,
              ks,
              k₁,
              get_child_lem tree 1,
              h,
              get_child_lem f₁ 0,
              h₁,
              g.regex_replace_quotes,
              look_ahead_index-eq t₁ 0 t_show_from,
              c₁,
              ks,
              k₂,
              get_child_lem t₁ 1,
              c₁,
              get_child_lem f₂ 0,
              h₂,
              g.regex_replace_quotes,
              look_ahead_index-eq t₂ 0 t_show_like,
              look_ahead_index-eq t₂ 0 k_show,
              c₂,
              ks,
              get_child_lem t₂ 0,
              c₂,
            )
            refl,
        record {
          type_kept = type-set_child t₂ 0 s' ∙ type-delete_child t₁ 1 ∙ type-delete_child tree 1;
          children_are = children-set_child t₂ 0 s' ∙ rw c₂ refl;
        },
      )
