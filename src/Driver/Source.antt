-- ===== src/Driver/Source.antt =====
-- Text that needs no translation passes through the library as it is.
use pgify.Base.{ℕ, String, ◌≡◌, refl, true, ◌&&◌, some, List, [], ◌∷◌}
use pgify.Antlr.{Antlr, children}
use pgify.Glib.{Glib}
use pgify.Printer.Layout.{Layout, Layout-Aligned}
use pgify.Printer.Source.{LeafNodes, all_text, pgify_string_tree-source}
use pgify.Result.{ok}
use pgify.TreeWalk.Laws.{IsPlain, tree_walk_worker-plain}
use pgify.Walker.{WalkerState}
use pgify.Driver.Laws.{pgify_tree-ready}
use pgify.Driver.Services.{Frontend}
use pgify.Driver.{
  parser, token_stream, lexer, tree_struct, input_stream, walk_and_wrap, pgify_string,
  pgify_string_s,
}

-- A text that a front end reads into a tree of its visible tokens, none of them of a type that is
-- rewritten.
pub record ReadsPlain {T Input : Type 0} ⦃a : Antlr T⦄ (f : Frontend T Input) (options : ℕ)
    (sql : String) : Type 0 where
  pub tree : T
  pub leaves : List T
  pub parsed : f.start_rule options (f.string_copy_stream sql) ≡ some tree
  pub plain : IsPlain tree
  pub leaves_are : LeafNodes (children tree) leaves
  pub layout : Layout 1 0 (f.get_tokens options (f.string_copy_stream sql)) leaves
  pub lexed : all_text (f.get_tokens options (f.string_copy_stream sql)) ≡ sql

module _ {T Input : Type 0} ⦃a : Antlr T⦄ ⦃g : Glib⦄ (f : Frontend T Input) (uninit : ℕ)
    (sql : String) (ws : WalkerState) where
  -- If nothing can fail to be allocated, no statement is put off from before, and the text is read as
  -- a plain one, then `pgify_string_s` answers the text as it was given, with its blanks and
  -- comments, leaves the state as it was, and frees each of the five parts once.
  pub pgify_string_s-plain :
      (let input = f.string_copy_stream sql in
          f.lexer_new input && (f.tstream_new input && f.parser_new input))
        ≡ true
      → f.malloc_tree (f.string_copy_stream sql) ≡ true
      → ws.postbuf ≡ ""
      → ReadsPlain f ws.options sql
      → pgify_string_s f uninit sql ws
        ≡ ok (record {
          ws = ws;
          result = some sql;
          freed = parser ∷ token_stream ∷ lexer ∷ tree_struct ∷ input_stream ∷ [];
        })
  unfolding pgify_string_s pgify_string walk_and_wrap
  pgify_string_s-plain ready allocated empty r =
      rw
        (
          pgify_tree-ready f uninit (f.string_copy_stream sql) ws ready,
          r.parsed,
          tree_walk_worker-plain uninit ws r.tree r.plain,
          allocated,
          pgify_string_tree-source r.tree (f.get_tokens ws.options (f.string_copy_stream sql)) ws
              r.leaves r.leaves_are (Layout-Aligned r.layout) empty,
          r.lexed,
        )
        refl
