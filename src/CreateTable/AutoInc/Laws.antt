-- ===== src/CreateTable/AutoInc/Laws.antt =====
-- AUTO_INCREMENT becomes a sequence that gives the column its default.
use pgify.Base.{
  suc, ◌+◌, ◌≡◌, ◌≢◌, refl, ◌∙◌, String, List, ◌∷◌, ◌++◌, length, remove_at-append, arith,
  test_of_ne,
}
use pgify.Antlr.{
  Antlr, get_type, to_string, children, delete_child, get_child_lem, children-delete_child,
  type-delete_child,
}
use pgify.Children.Split.{IsFree, find_type-append, Rewritten}
use pgify.CreateTable.AutoInc.{rewrite_auto_inc_column}
use pgify.CreateTable.AutoInc.Start.{Starts, auto_inc_start_lem}
use pgify.Glib.{Glib, without_quotes}
use pgify.LookAhead.Laws.{look_ahead_index-eq}
use pgify.Result.{ok}
use pgify.TokenTypes.{t_create_table_options, k_auto_increment}
use pgify.Walker.{WalkerState, unquote}
use Prim.Native.String.{◌++◌ as text_append}

-- The two statements for a sequence, behind those that were put off before.
abbrev pub with_sequence : String → String → String → String → String → String → String
with_sequence before schema table column sequence start =
    text_append
      (text_append before (
        text_append "CREATE SEQUENCE " (
          text_append schema
            (text_append sequence (text_append " START " (text_append start " ;\n"))))))
      (text_append "ALTER TABLE " (
        text_append schema (
          text_append table (
            text_append " ALTER COLUMN " (
              text_append column (
                text_append " SET DEFAULT NEXTVAL ( '"
                  (text_append schema (text_append sequence "' ) ;\n"))))))))

module _ {T : Type 0} ⦃a : Antlr T⦄ where
  module _ ⦃g : Glib⦄ where
    -- In a table whose first child is no table options, a column with AUTO_INCREMENT behind its first
    -- child loses that word, and two statements are put off behind those put off before, which are
    -- written out: one makes the sequence, named after table and column, and one makes its next value
    -- the default of the column. The sequence starts at the number of the first table options that
    -- read AUTO_INCREMENT = number, if all those in front start with another word, and at 1 if all
    -- of them do. Nothing else of the state changes.
    pub rewrite_auto_inc_column_lem :
        (table utable start : String) (ws : WalkerState) (tree x child i w : T)
        (xs front back : List T)
        → children tree ≡ x ∷ xs
        → get_type x ≢ t_create_table_options
        → Starts xs start
        → children child ≡ i ∷ front ++ w ∷ back
        → IsFree k_auto_increment (i ∷ front)
        → get_type w ≡ k_auto_increment
        → (child' : T) × (rewrite_auto_inc_column table utable ws tree child ≡ (
            let sequence =
              text_append utable
                (text_append "_" (text_append (without_quotes (to_string i)) "_seq")) in
            let postbuf =
              with_sequence ws.postbuf ws.schema_name table (to_string i) sequence start in
            ok (record ws { postbuf = postbuf }, child')))
          × Rewritten child child' (i ∷ front ++ back)
    unfolding rewrite_auto_inc_column unquote
    rewrite_auto_inc_column_lem table utable start ws tree x child i w xs front back above nx
          started h free kw =
        let place : 1 + length front ≡ suc (length front) = omega arith in
        (
          delete_child child (suc (length front)),
          rw
              (
                look_ahead_index-eq child 0 k_auto_increment,
                h,
                test_of_ne _ _ free.0,
                find_type-append k_auto_increment 1 front w back free.1 kw,
                place,
                get_child_lem child 0,
                h,
                auto_inc_start_lem tree x xs start above nx started,
                g.regex_replace_quotes,
              )
              refl,
          record {
            type_kept = type-delete_child child (suc (length front));
            children_are =
                children-delete_child child (suc (length front))
                ∙ rw h (remove_at-append (i ∷ front) w back);
          },
        )
