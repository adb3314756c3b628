-- ===== src/Driver/Laws.antt =====
-- The ways that a call of the library can end.
use pgify.Base.{ℕ, String, ◌≡◌, refl, true, false, ◌&&◌, none, some, List, [], ◌∷◌, arith}
use pgify.Antlr.{Antlr, children}
use pgify.Glib.{Glib}
use pgify.Printer.{print_postbuf}
use pgify.Printer.Weave.{Weave, Leaves, hidden_texts, pgify_string_tree_lem}
use pgify.Result.{ok, fault, uninitialised}
use pgify.TreeWalk.{tree_walk_worker}
use pgify.Walker.{WalkerState}
use pgify.Driver.Services.{Frontend}
use pgify.Driver.{
  parser, token_stream, lexer, tree_struct, cleanup, walk_and_wrap, pgify_tree, pgify_string,
}

module _ {T Input : Type 0} ⦃a : Antlr T⦄ ⦃g : Glib⦄ (f : Frontend T Input) (uninit : ℕ)
    (input : Input) (ws : WalkerState) where
  -- If the lexer, the token stream or the parser cannot be created, the clean-up reads a pointer
  -- that was never set.
  pub pgify_tree-uninitialised :
      (f.lexer_new input && (f.tstream_new input && f.parser_new input)) ≡ false
      → pgify_tree f uninit input ws ≡ fault uninitialised
  unfolding pgify_tree cleanup
  pgify_tree-uninitialised h = ground arith

  module _ (ready : (f.lexer_new input && (f.tstream_new input && f.parser_new input)) ≡ true) where
    pub pgify_tree-ready : pgify_tree f uninit input ws ≡ walk_and_wrap f uninit input ws
    unfolding pgify_tree
    pgify_tree-ready = ground arith

    module _ (t t' : T) (ws' : WalkerState) (parsed : f.start_rule ws.options input ≡ some t)
        (walked : tree_walk_worker uninit ws t ≡ ok (ws', t')) where
      -- If lexer, stream and parser can be created, the parser answers a tree, the walk over it
      -- ends, and only the tree structure cannot be allocated: the parser, the stream and the lexer
      -- are freed once each, the answer is NULL, and the state is that behind the walk.
      pub pgify_string-null :
          f.malloc_tree input ≡ false
          → pgify_string f uninit input ws
            ≡ ok (record { ws = ws'; result = none; freed = parser ∷ token_stream ∷ lexer ∷ [] })
      unfolding pgify_string walk_and_wrap cleanup
      pgify_string-null h = rw (pgify_tree-ready, parsed, walked, h)

      -- If lexer, stream, parser and tree structure can be created, the parser answers a tree, and
      -- the walk over it ends, then `pgify_string` ends: its text is a weave of the hidden tokens
      -- and the leaves of the rewritten tree, with the statements put off behind it, and all four
      -- parts are freed once each.
      pub pgify_string_lem :
          f.malloc_tree input ≡ true
          → (ls : List String) × (text : String) × Leaves (children t') ls
            × Weave (hidden_texts (f.get_tokens ws.options input)) ls text
            × (pgify_string f uninit input ws
                ≡ ok (record {
                  ws = (print_postbuf text ws').1;
                  result = some (print_postbuf text ws').0;
                  freed = parser ∷ token_stream ∷ lexer ∷ tree_struct ∷ [];
                }))
      unfolding pgify_string walk_and_wrap print_postbuf
      pgify_string_lem h =
          let (ls, text, leaves, weave, runs) =
            pgify_string_tree_lem t' (f.get_tokens ws.options input) ws' in
          (ls, text, leaves, weave, rw (pgify_tree-ready, parsed, walked, h, runs) refl)
