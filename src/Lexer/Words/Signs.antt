-- ===== src/Lexer/Words/Signs.antt =====
-- The rules for signs and operators.
use pgify.Base.{String, Option}
use pgify.Lexer.{Lexed}
use pgify.Lexer.Words.{lex_word, lex_sign}
use pgify.TokenTypes.{
  semi, colon, comma, exponent, asterisk, at_sign, rparen, lparen, rbrack, lbrack, plus, minus,
  divide, eq, percentage, llabel, rlabel, assign, arrow, vertbar, doublevertbar, lth, leq, gth, geq,
  quote, backtick,
}

abbrev pub lex_semi : String → Option Lexed
lex_semi = lex_sign semi b';'

abbrev pub lex_colon : String → Option Lexed
lex_colon = lex_sign colon b':'

abbrev pub lex_comma : String → Option Lexed
lex_comma = lex_sign comma b','

abbrev pub lex_exponent : String → Option Lexed
lex_exponent = lex_word exponent "**"

abbrev pub lex_asterisk : String → Option Lexed
lex_asterisk = lex_sign asterisk b'*'

abbrev pub lex_at_sign : String → Option Lexed
lex_at_sign = lex_sign at_sign b'@'

abbrev pub lex_rparen : String → Option Lexed
lex_rparen = lex_sign rparen b')'

abbrev pub lex_lparen : String → Option Lexed
lex_lparen = lex_sign lparen b'('

abbrev pub lex_rbrack : String → Option Lexed
lex_rbrack = lex_sign rbrack b']'

abbrev pub lex_lbrack : String → Option Lexed
lex_lbrack = lex_sign lbrack b'['

abbrev pub lex_plus : String → Option Lexed
lex_plus = lex_sign plus b'+'

abbrev pub lex_minus : String → Option Lexed
lex_minus = lex_sign minus b'-'

abbrev pub lex_divide : String → Option Lexed
lex_divide = lex_sign divide b'/'

abbrev pub lex_eq : String → Option Lexed
lex_eq = lex_sign eq b'='

abbrev pub lex_percentage : String → Option Lexed
lex_percentage = lex_sign percentage b'%'

abbrev pub lex_llabel : String → Option Lexed
lex_llabel = lex_word llabel "<<"

abbrev pub lex_rlabel : String → Option Lexed
lex_rlabel = lex_word rlabel ">>"

abbrev pub lex_assign : String → Option Lexed
lex_assign = lex_word assign ":="

abbrev pub lex_arrow : String → Option Lexed
lex_arrow = lex_word arrow "=>"

abbrev pub lex_vertbar : String → Option Lexed
lex_vertbar = lex_sign vertbar b'|'

abbrev pub lex_doublevertbar : String → Option Lexed
lex_doublevertbar = lex_word doublevertbar "||"

abbrev pub lex_lth : String → Option Lexed
lex_lth = lex_sign lth b'<'

abbrev pub lex_leq : String → Option Lexed
lex_leq = lex_word leq "<="

abbrev pub lex_gth : String → Option Lexed
lex_gth = lex_sign gth b'>'

abbrev pub lex_geq : String → Option Lexed
lex_geq = lex_word geq ">="

abbrev pub lex_quote : String → Option Lexed
lex_quote = lex_sign quote b'\''

abbrev pub lex_backtick : String → Option Lexed
lex_backtick = lex_sign backtick b'`'
