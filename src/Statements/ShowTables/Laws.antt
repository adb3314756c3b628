-- ===== src/Statements/ShowTables/Laws.antt =====
-- SHOW TABLES becomes a query of the information schema.
use Prim.Native.String.{◌++◌}
use pgify.Base.{String, ◌≡◌, refl, ◌∙◌, List, [], ◌∷◌}
use pgify.Antlr.{
  Antlr, get_type, get_text, children, set_text, set_child, delete_child, get_child_lem,
  children-set_child, children-delete_child, type-set_child, type-delete_child, type-set_text,
}
use pgify.Children.Split.{Rewritten}
use pgify.Glib.{Glib, without_quotes}
use pgify.LookAhead.Laws.{look_ahead_index-eq}
use pgify.Result.{ok}
use pgify.Statements.ShowTables.{show_tables_rewrite}
use pgify.TokenTypes.{t_show_from, t_show_like, k_full, k_show, k_tables}
use pgify.Walker.{unquote, get_lower_text}

-- The query for some columns of the tables and the views of a schema, under a condition.
abbrev tables_query : String → String → String → String
tables_query columns schema condition =
    "SELECT " ++ columns
    ++ "\n  FROM ( SELECT table_name AS tables,\n                'BASE TABLE' AS table_type\n           FROM information_schema.tables\n          WHERE table_schema = "
    ++ schema
    ++ "\n          UNION SELECT table_name,\n                'VIEW'\n           FROM information_schema.views\n          WHERE table_schema = "
    ++ schema ++ "\n          ORDER BY 1 ) sub\n" ++ condition ++ "\n"

module _ {T : Type 0} ⦃a : Antlr T⦄ ⦃g : Glib⦄ where
  -- SHOW TABLES by itself becomes the query for the names of the tables of the current schema, and
  -- the word TABLES goes.
  pub show_tables_rewrite-plain :
      (tree s t : T)
      → children tree ≡ s ∷ t ∷ []
      → get_type s ≡ k_show
      → get_type t ≡ k_tables
      → (tree' : T) × (show_tables_rewrite tree ≡ ok tree')
        × Rewritten tree tree' (set_text s (tables_query "sub.tables" "current_schema()" "") ∷ [])
  unfolding show_tables_rewrite
  show_tables_rewrite-plain tree s t h ks kt =
      let s' = set_text s (tables_query "sub.tables" "current_schema()" "") in
      let t₁ = set_child tree 0 s' in
      let c₁ : children t₁ ≡ s' ∷ t ∷ [] = children-set_child tree 0 s' ∙ rw h refl in
      (
        delete_child t₁ 1,
        rw
            (
              look_ahead_index-eq tree 0 t_show_from,
              h,
              ks,
              kt,
              look_ahead_index-eq tree 0 t_show_like,
              h,
              ks,
              kt,
              look_ahead_index-eq tree 0 k_full,
              h,
              ks,
              kt,
              look_ahead_index-eq tree 0 k_show,
              h,
              ks,
              get_child_lem tree 0,
              h,
              look_ahead_index-eq t₁ 0 k_tables,
              c₁,
              type-set_text,
              ks,
              kt,
            )
            refl,
        record {
          type_kept = type-delete_child t₁ 1 ∙ type-set_child tree 0 s';
          children_are = children-delete_child t₁ 1 ∙ rw c₁ refl;
        },
      )

  -- SHOW FULL TABLES FROM a schema with a LIKE becomes the query that is written out: it asks
  -- for the tables and their types, compares the schema of both the tables and the views with the
  -- name in lower case, without its own quotes and in double quotes, and leaves its condition open
  -- for the LIKE, which is all that stays behind it.
  pub show_tables_rewrite-full :
      (tree s u t f l n : T) (ns : List T)
      → children tree ≡ s ∷ u ∷ t ∷ f ∷ l ∷ []
      → get_type s ≡ k_show
      → get_type u ≡ k_full
      → get_type t ≡ k_tables
      → get_type f ≡ t_show_from
      → get_type l ≡ t_show_like
      → children f ≡ n ∷ ns
      → (tree' : T) × (show_tables_rewrite tree ≡ ok tree')
        × Rewritten tree tree' (
            set_text s (
              tables_query "sub.tables, sub.table_type"
                ("\"" ++ (without_quotes (g.utf8_strdown (get_text n)) ++ "\""))
                "WHERE sub.tables ")
            ∷ l
            ∷ [])
  unfolding show_tables_rewrite unquote get_lower_text
  show_tables_rewrite-full tree s u t f l n ns h ks ku kt kf kl hf =
      let s' = set_text s (
        tables_query "sub.tables, sub.table_type"
          ("\"" ++ (without_quotes (g.utf8_strdown (get_text n)) ++ "\"")) "WHERE sub.tables ") in
      let t₁ = delete_child tree 3 in
      let c₁ : children t₁ ≡ s ∷ u ∷ t ∷ l ∷ [] = children-delete_child tree 3 ∙ rw h refl in
      let t₂ = delete_child t₁ 1 in
      let c₂ : children t₂ ≡ s ∷ t ∷ l ∷ [] = children-delete_child t₁ 1 ∙ rw c₁ refl in
      let t₃ = set_child t₂ 0 s' in
      let c₃ : children t₃ ≡ s' ∷ t ∷ l ∷ [] = children-set_child t₂ 0 s' ∙ rw c₂ refl in
      (
        delete_child t₃ 1,
        rw
            (
              look_ahead_index-eq tree 0 t_show_from,
              h,
              ks,
              ku,
              kt,
              kf,
              get_child_lem tree 3,
              h,
              get_child_lem f 0,
              hf,
              g.regex_replace_quotes,
              look_ahead_index-eq t₁ 0 t_show_like,
              look_ahead_index-eq t₁ 0 k_full,
              c₁,
              ks,
              ku,
              kt,
              kl,
              look_ahead_index-eq t₂ 0 k_show,
              c₂,
              ks,
              get_child_lem t₂ 0,
              c₂,
              look_ahead_index-eq t₃ 0 k_tables,
              c₃,
              type-set_text,
              ks,
              kt,
            )
            refl,
        record {
          type_kept =
              type-delete_child t₃ 1
              ∙ type-set_child t₂ 0 s'
              ∙ type-delete_child t₁ 1
              ∙ type-delete_child tree 3;
          children_are = children-delete_child t₃ 1 ∙ rw c₃ refl;
        },
      )
