-- ===== src/Tests/Tokens.antt =====
-- The rules of the lexer.
use Prim.Native.String.{◌++◌}
use pgify.Base.{◌≡◌, refl, true, false, some, inl, inr}
use pgify.Glib.Concrete.{lower_case}
use pgify.Lexer.{
  lex_sl_comment, match_char, match_optional, match_while, lex_quoted_string,
  match_backquoted_string,
}
use pgify.Lexer.Laws.{lex-hidden}
use pgify.Lexer.Quoted.{lex_quoted_string_lem, match_backquoted_string_lem}
use pgify.Walker.{is_escape, is_lowerid}
use pgify.TokenTypes.{quoted_string, sl_comment}

lex-hidden_example : (true ≡ true) × ("-- c\n" ++ "select" ≡ "-- c\nselect")
unfolding lex_sl_comment match_char match_optional match_while
lex-hidden_example =
    lex-hidden "-- c\nselect"
      (record { kind = sl_comment; hidden = true; text = "-- c\n"; rest = "select" })
      (inl (inr refl))

lex_quoted_string_example :
    lex_quoted_string 2 "'it' ;"
    ≡ some (record { kind = quoted_string; hidden = false; text = "E'it'"; rest = " ;" })
unfolding is_escape
lex_quoted_string_example = lex_quoted_string_lem 2 "it" " ;" (refl, (refl, tt))

match_backquoted_string_example : match_backquoted_string 4 "`a`." ≡ some ("\"a\"", ".")
unfolding is_lowerid
match_backquoted_string_example = match_backquoted_string_lem 4 "a" "." (refl, tt)
