-- ===== src/Driver.antt =====
-- `pgify`, `pgify_string`, `pgify_string_s` and `pgifytree_free` of pgify.c, with what each call
-- allocates and frees.
pub mod Services
pub mod Laws
pub mod Source
pub mod State
use pgify.Base.{ℕ, ◌+◌, String, Bool, true, false, Option, none, some, List, [], ◌∷◌, ◌++◌}
use pgify.Antlr.{Antlr}
use pgify.Glib.{Glib}
use pgify.Printer.{Token, pgify_string_tree}
use pgify.Result.{Result, ok, fault, uninitialised, ◌>>=◌}
use pgify.TreeWalk.{tree_walk_worker}
use pgify.Walker.{WalkerState}
use Services.{Frontend}

-- What is released by a call.
pub data Resource : Type 0 where
  parser token_stream lexer tree_struct input_stream : Resource

-- A local pointer: never set, NULL, or an object.
pub data Pointer : Type 0 where
  unset null object : Pointer

-- `if(p) p->free(p);`
unfoldable pub release : Pointer → Resource → List Resource → Result (List Resource)
release unset r freed = fault uninitialised
release null r freed = ok freed
release object r freed = ok (freed ++ r ∷ [])

-- The code behind the label `cleanup`.
unfoldable pub cleanup : Pointer → Pointer → Pointer → Pointer → Result (List Resource)
unfolding release
cleanup psr tstream lxr pt = do
  f₁ ← release psr parser []
  f₂ ← release tstream token_stream f₁
  f₃ ← release lxr lexer f₂
  release pt tree_struct f₃

-- `struct _pgify_tree_struct`: the tree after the walk, the tokens and the number of errors. Its
-- parser, stream and lexer are only kept to be freed.
pub record PgifyTree (T : Type 0) : Type 0 where
  pub lang_ast : Option T
  pub tokens : List Token
  pub error_count : ℕ

-- What a call leaves: the walker's state, its result or NULL, and what it released.
pub record Outcome (A : Type 0) : Type 0 where
  pub ws : WalkerState
  pub result : Option A
  pub freed : List Resource

-- The jump to `cleanup`.
abbrev give_up : {A : Type 0} → WalkerState → Result (List Resource) → Result (Outcome A)
give_up ws cleaned = do freed ← cleaned; ok (record { ws = ws; result = none; freed = freed })

abbrev pub pgifytree_free : List Resource
pgifytree_free = parser ∷ token_stream ∷ lexer ∷ tree_struct ∷ []

module _ {T : Type 0} ⦃a : Antlr T⦄ where
  module _ ⦃g : Glib⦄ where
    -- `if(langAST.tree != NULL) TreeWalkWorker(…)`
    unfoldable pub walk_tree : ℕ → WalkerState → Option T → Result (WalkerState × Option T)
    walk_tree uninit ws none = ok (ws, none)
    walk_tree uninit ws (some t) = do (ws', t') ← tree_walk_worker uninit ws t; ok (ws', some t')

    module _ {Input : Type 0} (f : Frontend T Input) where
      -- Behind the creation of the parser.
      unfoldable pub walk_and_wrap : ℕ → Input → WalkerState → Result (Outcome (PgifyTree T))
      unfolding walk_tree
      walk_and_wrap uninit input ws = do
        (ws', tree) ← walk_tree uninit ws (f.start_rule ws.options input)
        let cleaned = cleanup object object object null
        elim (f.malloc_tree input) [
          | true ↦ ok (record {
            ws = ws';
            result = some (record {
              lang_ast = tree;
              tokens = f.get_tokens ws.options input;
              error_count = f.parser_errors ws.options input + f.lexer_errors ws.options input;
            });
            freed = [];
          })
          | false ↦ give_up ws' cleaned
        ]

      -- The pointers are declared with no value, and a failed creation sets one to NULL.
      unfoldable pub pgify_tree : ℕ → Input → WalkerState → Result (Outcome (PgifyTree T))
      unfolding walk_and_wrap
      pgify_tree uninit input ws = elim (f.lexer_new input) [
        | false ↦ give_up ws (cleanup unset unset null unset)
        | true ↦ elim (f.tstream_new input) [
          | false ↦ give_up ws (cleanup unset null object unset)
          | true ↦ elim (f.parser_new input) [
            | false ↦ give_up ws (cleanup null object object unset)
            | true ↦ walk_and_wrap uninit input ws
          ]
        ]
      ]

      -- On NULL the text is NULL too.
      unfoldable pub string_of :
          Outcome (PgifyTree T) → Option (PgifyTree T) → Result (Outcome String)
      string_of o none = ok (record { ws = o.ws; result = none; freed = o.freed })
      string_of o (some pt) = do
        (text, ws') ← pgify_string_tree pt.lang_ast pt.tokens o.ws
        ok (record { ws = ws'; result = some text; freed = o.freed ++ pgifytree_free })

      unfoldable pub pgify_string : ℕ → Input → WalkerState → Result (Outcome String)
      unfolding string_of
      pgify_string uninit input ws = do o ← pgify_tree uninit input ws; string_of o o.result

      -- The stream over the text is closed in the end.
      unfoldable pub pgify_string_s : ℕ → String → WalkerState → Result (Outcome String)
      pgify_string_s uninit sql ws = do
        o ← pgify_string uninit (f.string_copy_stream sql) ws
        ok (record o { freed = o.freed ++ input_stream ∷ [] })
