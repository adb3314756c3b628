-- ===== src/CreateTable/Index/Laws.antt =====
-- Each index becomes a statement of its own behind the table, and leaves the table.
use Prim.Native.String.{◌++◌}
use mathlib.Core.List.{foldl}
use text.Mathlib.TextLemmas.{append_assoc, append-nil}
use pgify.Base.{◌≡◌, refl, sym, ap, ◌∙◌, String, List, [], ◌∷◌, Option, some}
use pgify.Antlr.{Antlr, children}
use pgify.Children.Passes.{fold_result, fold_result-ok, for_children-eq}
use pgify.Children.Removal.{strip, StartsPlain, each_with_comma_lem}
use pgify.Children.Split.{of_type, Rewritten}
use pgify.Glib.{Glib, without_quotes}
use pgify.Result.{ok}
use pgify.TokenTypes.{t_create_table_index}
use pgify.Walker.{WalkerState, append_postbuf, unquote}
use pgify.CreateTable.Name.Laws.{first_name, create_table_tablename_lem}
use pgify.CreateTable.Index.{
  IndexParts, no_parts, add_part, or_else, using_clause, index_type, create_index,
  create_table_index,
}

-- The statement for an index.
abbrev pub index_statement : String → String → Option String → String → String → String
index_statement table schema kind name columns =
    "CREATE INDEX "
    ++ without_quotes table
    ++ "_"
    ++ without_quotes name
    ++ "_index ON "
    ++ schema
    ++ table
    ++ " "
    ++ using_clause kind
    ++ " ( "
    ++ columns
    ++ " ) ;\n"

module _ {T : Type 0} ⦃a : Antlr T⦄ where
  -- What the parts of an index state.
  abbrev pub parts_of : T → IndexParts
  parts_of index = foldl add_part no_parts (children index)

  -- The indexes of a table with their statements, in order: each has a word behind USING, if it has
  -- USING at all, and a name or a column, which names it.
  pub data Indexes (table schema : String) : List T → String → Type 0 where
    done : Indexes table schema [] ""
    index :
        {rest : List T} {text : String} (x : T) (kind : Option String) (name : String)
        → index_type x ≡ ok kind
        → or_else (parts_of x).name (parts_of x).firstcolumn ≡ some name
        → Indexes table schema rest text
        → Indexes table schema
            (x ∷ rest)
            (index_statement table schema kind name (parts_of x).columns ++ text)

  module _ ⦃g : Glib⦄ where
    create_index-eq :
        (table : String) (ws : WalkerState) (x : T) (kind : Option String) (name : String)
        → index_type x ≡ ok kind
        → or_else (parts_of x).name (parts_of x).firstcolumn ≡ some name
        → create_index table (without_quotes table) ws x
          ≡ ok (
              append_postbuf ws
                (index_statement table ws.schema_name kind name (parts_of x).columns))
    unfolding create_index unquote
    create_index-eq table ws x kind name typed named = rw (
      typed,
      for_children-eq x _ _,
      fold_result-ok _ add_part (λ s y. refl) _ (children x),
      named,
      g.regex_replace_quotes,
    )

    fold-create_index :
        (table : String) {schema : String} (ws : WalkerState) {text : String} {ks : List T}
        → ws.schema_name ≡ schema
        → Indexes table schema ks text
        → fold_result (create_index table (without_quotes table)) ws ks
          ≡ ok (append_postbuf ws text)
    fold-create_index table ws e done =
        ap (λ t. ok (record ws { postbuf = t })) (sym (append-nil ws.postbuf))
    fold-create_index table {schema} ws e (index {rest} {text} x kind name typed named more) =
        let statement = index_statement table schema kind name (parts_of x).columns in
        let first : create_index table (without_quotes table) ws x
            ≡ ok (append_postbuf ws statement) =
          create_index-eq table ws x kind name typed named
          ∙ ap
              (λ t. ok (append_postbuf ws (index_statement table t kind name (parts_of x).columns)))
              e in
        rw first (
          fold-create_index table (append_postbuf ws statement) e more
          ∙ ap (λ t. ok (record ws { postbuf = t })) (append_assoc ws.postbuf statement text))

    -- In a table that has a name and starts with neither an index nor a comma, and whose indexes
    -- each have a word behind USING, if they have USING, and a name or a column, the pass ends
    -- without a fault. The statements for the indexes are added to the postponed text in order,
    -- nothing else of the state changes, and each index is removed with the last comma in front of
    -- it. The name and the columns in a statement are those that `add_part` collects.
    pub create_table_index_lem :
        (ws : WalkerState) (base : T) (table text : String)
        → first_name (children base) ≡ some table
        → StartsPlain t_create_table_index (children base)
        → Indexes table ws.schema_name (of_type t_create_table_index (children base)) text
        → (base' : T) × (create_table_index ws base ≡ ok (append_postbuf ws text, base'))
          × Rewritten base base' (strip t_create_table_index [] (children base))
    unfolding create_table_index unquote
    create_table_index_lem ws base table text named plain indexes =
        rw (create_table_tablename_lem base, named, g.regex_replace_quotes)
          (each_with_comma_lem t_create_table_index (create_index table (without_quotes table)) ws _
            base plain (fold-create_index table ws refl indexes))
