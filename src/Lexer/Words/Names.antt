-- ===== src/Lexer/Words/Names.antt =====
-- The rules for names and for digits.
use Prim.Native.Char.{Char, code}
use Prim.Native.String.{[], ◌∷◌}
use pgify.Base.{ℕ, String, Bool, ◌&&◌, ◌||◌, leb, ◌==◌, if◌then◌else◌, Option, none, some}
use pgify.Glib.{Glib}
use pgify.Lexer.{
  Lexed, Match, followed_by, match_while, match_char, match_double_quoted_string,
  match_backquoted_string,
}
use pgify.Lexer.Words.{upper, visible_token, match_string}
use pgify.TokenTypes.{id, dot, doubledot, not_eq}

abbrev pub is_letter : Char → Bool
is_letter c = leb b'A' (upper (code c)) && leb (upper (code c)) b'Z'

abbrev pub is_digit : Char → Bool
is_digit c = leb b'0' (code c) && leb (code c) b'9'

-- `'A'..'Z' | '0'..'9' | '_' | '$' | '#'`
abbrev pub is_name_part : Char → Bool
is_name_part c =
    leb b'#' (code c) && leb (code c) b'$' || (is_digit c || (is_letter c || code c == b'_'))

module _ ⦃g : Glib⦄ where
  -- ID: the alternative is chosen by the first character.
  unfoldable pub lex_id : ℕ → String → Option Lexed
  lex_id options [] = none
  lex_id options (c ∷ s) =
      if is_letter c
      then visible_token id
          (followed_by (some (c ∷ [], s)) (λ r. some (match_while is_name_part r)))
      else if code c == b'"'
      then visible_token id (match_double_quoted_string (c ∷ s))
      else if code c == b'`'
      then visible_token id (match_backquoted_string options (c ∷ s))
      else none

-- MATCHRANGE('0', '9')
unfoldable pub match_digit : String → Match
match_digit [] = none
match_digit (c ∷ s) = if is_digit c then some (c ∷ [], s) else none

-- NUM, a fragment of NUMBER
unfoldable pub match_num : String → Match
match_num s = followed_by (match_digit s) (λ r. some (match_while is_digit r))

-- POINT, a fragment
unfoldable pub match_point : String → Match
match_point s = match_char b'.' s

-- DOT
unfoldable pub lex_dot : String → Option Lexed
lex_dot s = visible_token dot (match_point s)

-- DOUBLEDOT
unfoldable pub lex_doubledot : String → Option Lexed
lex_doubledot s = visible_token doubledot (followed_by (match_point s) match_point)

-- NOT_EQ: the alternative is chosen by the first character.
unfoldable pub lex_not_eq : String → Option Lexed
lex_not_eq [] = none
lex_not_eq (c ∷ s) =
    if code c == b'<'
    then visible_token not_eq (match_string "<>" (c ∷ s))
    else if code c == b'!'
    then visible_token not_eq (match_string "!=" (c ∷ s))
    else if code c == b'^'
    then visible_token not_eq (match_string "^=" (c ∷ s))
    else none
