-- ===== src/Lexer.antt =====
-- The rules of mysqlLexer.c that keep text for the printer or change it: blanks, comments and quoted
-- texts. A rule reads the characters ahead and answers the token with the characters behind it, or
-- none for a mismatch. `LA(1)` at the end of the input is beyond every range of characters. The rules
-- are those of a lexer that is not backtracking. The runtime's functions on texts (GETTEXT,
-- subString, insert, append) are written out.
pub mod Laws
pub mod Quoted
pub mod Words
pub mod Perl
use Prim.Native.Char.{Char, code}
use Prim.Native.String.{[], ◌∷◌, ◌++◌}
use pgify.Base.{
  ℕ, String, Bool, true, false, not, ◌&&◌, ◌||◌, leb, ◌==◌, if◌then◌else◌, Option, none, some,
}
use pgify.Glib.{Glib}
use pgify.TokenTypes.{ws, sl_comment, mysql_comment, ml_comment, quoted_string}
use pgify.Walker.{is_escape, is_lowerid}

-- A token, and the characters behind it; `hidden` is `channel == HIDDEN`.
pub record Lexed : Type 0 where
  pub kind : ℕ
  pub hidden : Bool
  pub text : String
  pub rest : String

-- The text matched and the characters behind it.
abbrev pub Match : Type 0
Match = Option (String × String)

-- One match behind another.
abbrev pub join : String → Match → Match
join x none = none
join x (some (y, rest)) = some (x ++ y, rest)

abbrev pub followed_by : Match → (String → Match) → Match
followed_by none later = none
followed_by (some (x, rest)) later = join x (later rest)

-- MATCHC
unfoldable pub match_char : ℕ → String → Match
match_char k [] = none
match_char k (c ∷ s) = if code c == k then some (c ∷ [], s) else none

abbrev pub extend : Char → String × String → String × String
extend c later = (c ∷ later.0, later.1)

-- The loop over the characters that pass a test.
unfoldable pub match_while : (Char → Bool) → String → String × String
match_while test [] = ([], [])
match_while test (c ∷ s) =
    let later = extend c (match_while test s) in if test c then later else ([], c ∷ s)

-- A character ahead that equals `k` is matched.
unfoldable pub match_optional : ℕ → String → Match
match_optional k [] = some ([], [])
match_optional k (c ∷ s) = if code c == k then some (c ∷ [], s) else some ([], c ∷ s)

abbrev pub is_blank : Char → Bool
is_blank c = leb b'\t' (code c) && leb (code c) b'\n' || code c == b'\r' || code c == b' '

-- `~('\n'|'\r')`
abbrev pub is_in_line : Char → Bool
is_in_line c =
    leb (code c) 9 || leb 11 (code c) && leb (code c) 12 || leb 14 (code c) && leb (code c) 65535

-- The rest of a comment that ends with its line.
abbrev pub match_line : String → Match
match_line s =
    followed_by (some (match_while is_in_line s))
      (λ r. followed_by (match_optional b'\r' r) (match_char b'\n'))

abbrev pub hidden_token : ℕ → Match → Option Lexed
hidden_token k none = none
hidden_token k (some (x, rest)) = some (record { kind = k; hidden = true; text = x; rest = rest })

-- WS
unfoldable pub lex_ws : String → Option Lexed
lex_ws [] = none
lex_ws (c ∷ s) = if is_blank c then hidden_token ws (some (c ∷ [], s)) else none

-- SL_COMMENT
unfoldable pub lex_sl_comment : String → Option Lexed
lex_sl_comment s =
    hidden_token sl_comment
      (followed_by (match_char b'-' s) (λ r. followed_by (match_char b'-' r) match_line))

-- MYSQL_COMMENT
unfoldable pub lex_mysql_comment : String → Option Lexed
lex_mysql_comment s = hidden_token mysql_comment (followed_by (match_char b'#' s) match_line)

-- Whether the loop of ML_COMMENT goes on, at a character with what is behind it.
abbrev pub goes_on : Char → String → Bool
goes_on c [] = not (code c == b'*') && leb (code c) 65535
goes_on c (d ∷ s) =
    if code c == b'*' then not (code d == b'/') && leb (code d) 65535 else leb (code c) 65535

unfoldable pub match_comment : String → String × String
match_comment [] = ([], [])
match_comment (c ∷ s) =
    let later = extend c (match_comment s) in if goes_on c s then later else ([], c ∷ s)

-- ML_COMMENT
unfoldable pub lex_ml_comment : String → Option Lexed
lex_ml_comment s = hidden_token ml_comment (
    followed_by (match_char b'/' s) (λ r₁. followed_by (match_char b'*' r₁) (λ r₂.
      followed_by (some (match_comment r₂))
        (λ r₃. followed_by (match_char b'*' r₃) (match_char b'/')))))

-- `~('\\' | '\'')`
abbrev pub is_unescaped : Char → Bool
is_unescaped c =
    leb (code c) b'&'
    || leb b'(' (code c) && leb (code c) b'['
    || leb b']' (code c) && leb (code c) 65535

-- `LA(2)` is a character.
abbrev pub is_ahead : String → Bool
is_ahead [] = false
is_ahead (c ∷ s) = leb (code c) 65535

-- The loop of QUOTED_STRING: a backslash takes a quote behind it along, unless that quote is the
-- last character of the input.
unfoldable pub match_quoted : String → String × String
match_quoted [] = ([], [])
match_quoted (c ∷ []) = if code c == b'\\' || is_unescaped c then (c ∷ [], []) else ([], c ∷ [])
match_quoted (c ∷ d ∷ s) = elim (code c == b'\\') [
  | true ↦ elim (code d == b'\'' && is_ahead s) [
    | true ↦ extend c (extend d (match_quoted s))
    | false ↦ extend c (match_quoted (d ∷ s))
  ]
  | false ↦ elim (is_unescaped c) [
    | true ↦ extend c (match_quoted (d ∷ s))
    | false ↦ ([], c ∷ d ∷ s)
  ]
]

-- The action of QUOTED_STRING.
abbrev escaped_token : ℕ → Match → Option Lexed
escaped_token options none = none
escaped_token options (some (x, rest)) = some (record {
  kind = quoted_string;
  hidden = false;
  text = if is_escape options then "E" ++ x else x;
  rest = rest;
})

-- QUOTED_STRING
unfoldable pub lex_quoted_string : ℕ → String → Option Lexed
lex_quoted_string options s =
    escaped_token options (
      followed_by (match_char b'\'' s)
        (λ r. followed_by (some (match_quoted r)) (match_char b'\'')))

-- DOUBLEQUOTED_STRING
abbrev pub is_not_double_quote : Char → Bool
is_not_double_quote c = leb (code c) b'!' || leb b'#' (code c) && leb (code c) 65535

unfoldable pub match_double_quoted_string : String → Match
match_double_quoted_string s =
    followed_by (match_char b'"' s)
      (λ r. followed_by (some (match_while is_not_double_quote r)) (match_char b'"'))

abbrev pub is_not_backtick : Char → Bool
is_not_backtick c = leb (code c) b'_' || leb b'a' (code c) && leb (code c) 65535

-- `str->subString(str, 1, str->len - 1)`
unfoldable pub drop_last : String → String
drop_last [] = []
drop_last (c ∷ []) = []
drop_last (c ∷ d ∷ s) = c ∷ drop_last (d ∷ s)

unfoldable pub inner : String → String
unfolding drop_last
inner [] = []
inner (c ∷ s) = drop_last s

module _ ⦃g : Glib⦄ where
  -- The action of BACKQUOTED_STRING.
  unfoldable pub requote : ℕ → String → String
  unfolding inner
  requote options x =
      let str = "\"" ++ inner x ++ "\"" in if is_lowerid options then g.utf8_strdown str else str

  abbrev requoted : ℕ → Match → Match
  requoted options none = none
  requoted options (some (x, rest)) = some (requote options x, rest)

  -- BACKQUOTED_STRING, a fragment of ID
  unfoldable pub match_backquoted_string : ℕ → String → Match
  match_backquoted_string options s = requoted options (
      followed_by (match_char b'`' s)
        (λ r. followed_by (some (match_while is_not_backtick r)) (match_char b'`')))
