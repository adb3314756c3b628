-- ===== src/Tests/Source.antt =====
-- A text of two lines that passes through: `select a`, a line break, and a comment.
use pgify.Base.{String, ◌≡◌, refl, inl, inr, pos, true, false, some, List, [], ◌∷◌, arith}
use pgify.Antlr.Concrete.{concrete}
use pgify.Driver.{parser, token_stream, lexer, tree_struct, input_stream, pgify_string_s}
use pgify.Driver.Services.{Frontend}
use pgify.Driver.Source.{pgify_string_s-plain}
use pgify.Antlr.Concrete.{Tree}
use pgify.Glib.Concrete.{lower_case}
use pgify.Printer.{Token, pgify_string_tree}
use pgify.Printer.Layout.{Layout, stop, hidden, visible}
use pgify.Printer.Source.{LeafNodes, nil, leaf, pgify_string_tree-source}
use pgify.Printer.Layout.{Layout-Aligned}
use pgify.Result.{ok}
use pgify.Tests.Samples.{at, start, select, blank}
use pgify.Tests.Samples.{visible as keyword}
use pgify.Tests.Texts.{select-IsPlain}
use pgify.TokenTypes.{id}

abbrev name : Token
name = record { hidden = false; line = pos 1; char_position = pos 7; text = "a" }

abbrev line_break : Token
line_break = record { hidden = true; line = pos 1; char_position = pos 8; text = "\n" }

abbrev comment : Token
comment = record { hidden = true; line = pos 2; char_position = pos 0; text = "-- c\n" }

abbrev tokens : List Token
tokens = keyword ∷ blank ∷ name ∷ line_break ∷ comment ∷ []

abbrev reader : Frontend Tree String
reader = record {
  lexer_new = λ i. true;
  tstream_new = λ i. true;
  parser_new = λ i. true;
  malloc_tree = λ i. true;
  get_tokens = λ o i. tokens;
  start_rule = λ o i. some select;
  parser_errors = λ o i. 0;
  lexer_errors = λ o i. 0;
  string_copy_stream = λ s. s;
}

select-LeafNodes :
    LeafNodes (at 600 "select" 1 0 ∷ at id "a" 1 7 ∷ []) (at 600 "select" 1 0 ∷ at id "a" 1 7 ∷ [])
select-LeafNodes =
    leaf (at 600 "select" 1 0) refl (omega arith) (leaf (at id "a" 1 7) refl (omega arith) nil)

tokens-Layout : Layout 1 0 tokens (at 600 "select" 1 0 ∷ at id "a" 1 7 ∷ [])
tokens-Layout =
    visible keyword (at 600 "select" 1 0) refl refl refl
      (record { same_line = refl; same_position = refl; same_text = refl }) (omega arith)
      (hidden blank refl refl refl (inr (omega arith)) (
        visible name (at id "a" 1 7) refl refl refl
          (record { same_line = refl; same_position = refl; same_text = refl }) (omega arith)
          (hidden line_break refl refl refl (inl (omega arith))
            (hidden {l' = 3} {c' = 0} comment refl refl refl (inl (omega arith)) stop))))

pgify_string_tree-source_example :
    pgify_string_tree (some select) tokens start ≡ ok ("select a\n-- c\n", start)
pgify_string_tree-source_example =
    pgify_string_tree-source select tokens start (at 600 "select" 1 0 ∷ at id "a" 1 7 ∷ [])
      select-LeafNodes (Layout-Aligned tokens-Layout) refl

pgify_string_s-plain_example :
    pgify_string_s reader 0 "select a\n-- c\n" start
    ≡ ok (record {
      ws = start;
      result = some "select a\n-- c\n";
      freed = parser ∷ token_stream ∷ lexer ∷ tree_struct ∷ input_stream ∷ [];
    })
pgify_string_s-plain_example =
    pgify_string_s-plain reader 0 "select a\n-- c\n" start refl refl refl (record {
      tree = select;
      leaves = at 600 "select" 1 0 ∷ at id "a" 1 7 ∷ [];
      parsed = refl;
      plain = select-IsPlain;
      leaves_are = select-LeafNodes;
      layout = tokens-Layout;
      lexed = refl;
    })
