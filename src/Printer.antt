-- ===== src/Printer.antt =====
-- `advance`, `advance_all`, `TreeWalkPrinter`, `print_postbuf` and `pgify_string_tree` of pgify.c.
-- The index into the vector of tokens only grows, so the model keeps the tokens from it on.
pub mod Weave
pub mod Column
pub mod Layout
pub mod Source
use Prim.Native.String.{◌++◌, len}
use pgify.Base.{
  ℕ, zero, suc, ◌+◌, String, Bool, not, ◌||◌, List, [], ◌∷◌, ℤ, lt_int, le_int, ltb, ◌==◌,
  if◌then◌else◌, Option, none, some,
}
use pgify.Antlr.{
  Antlr, get_type, get_text, get_line, get_char_position, get_child, get_child_count, height,
}
use pgify.Result.{Result, ok, fault, out_of_fuel, deref, ◌>>=◌}
use pgify.Walker.{WalkerState}

-- A token of the vector that the lexer fills; `hidden` is `channel == HIDDEN`.
pub record Token : Type 0 where
  pub hidden : Bool
  pub line : ℤ
  pub char_position : ℤ
  pub text : String

-- The end of the input, -1 read as an ANTLR3_UINT32.
abbrev pub token_eof : ℕ
token_eof = 4294967295

-- The output so far, and the tokens that are left.
abbrev pub Output : Type 0
Output = String × List Token

-- The loop of `advance`, before the leaf at a line and a position is printed.
unfoldable pub advance_hidden : ℤ → ℤ → String → List Token → Output
advance_hidden line position output [] = (output, [])
advance_hidden line position output (token ∷ tokens) =
    let skipped = advance_hidden line position output tokens in
    let printed = advance_hidden line position (output ++ token.text) tokens in
    if not token.hidden
    then skipped
    else if lt_int token.line line || le_int token.char_position position
    then printed
    else (output, token ∷ tokens)

unfoldable pub advance_all : String → List Token → Output
advance_all output [] = (output, [])
advance_all output (token ∷ tokens) =
    advance_all (if not token.hidden then output else output ++ token.text) tokens

unfoldable pub print_postbuf : String → WalkerState → String × WalkerState
print_postbuf output ws =
    if ltb 0 (len ws.postbuf)
    then (output ++ "\n" ++ ws.postbuf, record ws { postbuf = "" })
    else (output, ws)

module _ {T : Type 0} ⦃a : Antlr T⦄ where
  unfoldable pub advance : Output → T → Output
  unfolding advance_hidden
  advance (output, tokens) child =
      let (output', tokens') =
        advance_hidden (get_line child) (get_char_position child) output tokens in
      (output' ++ get_text child, tokens')

  -- The loop over the children from `c` on. The loop before it only computes `max`, which nothing
  -- reads. The fuel bounds the depth.
  print_from : ℕ → ℕ → ℕ → Output → T → Result Output
  print_from fuel c zero out p = ok out
  print_from zero c (suc left) out p = fault out_of_fuel
  print_from (suc fuel) c (suc left) out p = do
    child ← deref (get_child p c)
    let below = print_from fuel 0 (get_child_count child) out child
    out' ←
        if ltb 0 (get_child_count child)
        then below
        else ok (if get_type child == token_eof then out else advance out child)
    print_from (suc fuel) (c + 1) left out' p

  -- A tree of NULL prints nothing.
  unfoldable pub tree_walk_printer : Output → Option T → Result Output
  unfolding print_from
  tree_walk_printer out none = ok out
  tree_walk_printer out (some p) = print_from (height p) 0 (get_child_count p) out p

  -- The text of a tree, the hidden tokens that are left, and the statements put off until the end.
  unfoldable pub pgify_string_tree :
      Option T → List Token → WalkerState → Result (String × WalkerState)
  pgify_string_tree tree tokens ws = do
    (output, left) ← tree_walk_printer ("", tokens) tree
    let (output', end) = advance_all output left
    ok (print_postbuf output' ws)
