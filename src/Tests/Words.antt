-- ===== src/Tests/Words.antt =====
-- Words and names, as the lexer reads them.
use Prim.Native.String.{◌∷◌, ◌++◌}
use pgify.Base.{arith, inl, inr, ◌≡◌, refl, some, false}
use pgify.Glib.Concrete.{lower_case}
use pgify.Lexer.{Lexed}
use pgify.Lexer.Perl.{match_qs_angle}
use pgify.Lexer.Perl.Laws.{angle, match_bracketed_lem}
use pgify.Lexer.Words.{lex_word}
use pgify.Lexer.Words.Keyword.{Keyword, keyword}
use pgify.Lexer.Words.Keywords.{vocabulary}
use pgify.Lexer.Words.Keywords.A.{lex_k_add}
use pgify.Lexer.Words.Vocabulary.{IsKeyword, keyword_type}
use pgify.Lexer.Words.{lex_replaced, match_string}
use pgify.Lexer.Words.Laws.{Replaces, as_is, small, plain, lex_id_lem}
use pgify.Lexer.Words.Names.{lex_id}
use pgify.Lexer.Words.Types.{lex_k_tinyint}
use pgify.Lexer.Words.Types.Laws.{tinyint, zero_date, Translates-reads, Translates-Replaces}
use pgify.TokenTypes.{id, k_tinyint, stupid_mysql_date}

Translates-reads_example :
    lex_k_tinyint ("TinyInt" ++ "(4)")
    ≡ some (record { kind = k_tinyint; hidden = false; text = "SMALLINT"; rest = "(4)" })
Translates-reads_example = Translates-reads tinyint "TinyInt" "(4)" (
  as_is refl refl,
  (
    small (omega arith) (omega arith) refl,
    (
      small (omega arith) (omega arith) refl,
      (
        small (omega arith) (omega arith) refl,
        (
          as_is refl refl,
          (small (omega arith) (omega arith) refl, (small (omega arith) (omega arith) refl, tt)),
        ),
      ),
    ),
  ),
)

abbrev zero : Lexed
zero = record { kind = stupid_mysql_date; hidden = false; text = "NULL"; rest = ")" }

Translates-Replaces_example : Replaces stupid_mysql_date "'0000-00-00'" "NULL" "'0000-00-00')" zero
unfolding lex_replaced match_string
Translates-Replaces_example = Translates-Replaces zero_date "'0000-00-00')" zero refl

lex_id_example :
    lex_id 0 ("Total_1" ++ ("," ∷ " b"))
    ≡ some (record { kind = id; hidden = false; text = "Total_1"; rest = ", b" })
lex_id_example =
    lex_id_lem 0 "," "Total_1" "Total_1" " b"
      (plain "T" "otal_1" refl (refl, (refl, (refl, (refl, (refl, (refl, tt)))))) refl)

abbrev add_entry : Keyword
add_entry = keyword 372 "ADD" lex_k_add refl

abbrev added : Lexed
added = record { kind = 372; hidden = false; text = "Add"; rest = " KEY" }

abbrev added_column : Lexed
added_column = record { kind = 372; hidden = false; text = "ADD"; rest = " a" }

add_entry-IsKeyword : IsKeyword add_entry vocabulary
add_entry-IsKeyword = inl (inr (inr (inl refl)))

keyword_type_example : added.kind ≡ added_column.kind
unfolding lex_word match_string
keyword_type_example =
    keyword_type add_entry add_entry "Add KEY" "ADD a" added added_column add_entry-IsKeyword
      add_entry-IsKeyword refl refl (refl, (refl, (refl, tt)))

match_bracketed_example : match_qs_angle "'<a>b>';" ≡ some ("'<a>b>'", ";")
match_bracketed_example =
    match_bracketed_lem angle "a>b" ";" (
      omega arith,
      (λ k q. omega (arith, q)),
      (omega arith, (λ k q. omega (arith, q)), omega arith),
    )
