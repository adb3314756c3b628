-- ===== src/Lexer/Words/Keywords/WToZ.antt =====
-- The rules for the keywords that begin with W to Z. A type that has no name in TokenTypes is
-- written as the number of mysqlLexer.h.
use pgify.Base.{String, refl, Option, List, [], ◌∷◌}
use pgify.Lexer.{Lexed}
use pgify.Lexer.Words.{lex_word}
use pgify.Lexer.Words.Keyword.{Keyword, keyword}

abbrev pub lex_k_wait : String → Option Lexed
lex_k_wait = lex_word 360 "WAIT"

abbrev pub lex_t_598 : String → Option Lexed
lex_t_598 = lex_word 598 "WEEK"

abbrev pub lex_k_when : String → Option Lexed
lex_k_when = lex_word 92 "WHEN"

abbrev pub lex_k_whenever : String → Option Lexed
lex_k_whenever = lex_word 409 "WHENEVER"

abbrev pub lex_k_where : String → Option Lexed
lex_k_where = lex_word 256 "WHERE"

abbrev pub lex_k_with : String → Option Lexed
lex_k_with = lex_word 116 "WITH"

abbrev pub lex_t_579 : String → Option Lexed
lex_t_579 = lex_word 579 "WITH PARSER"

abbrev pub lex_k_work : String → Option Lexed
lex_k_work = lex_word 539 "WORK"

abbrev pub lex_k_write : String → Option Lexed
lex_k_write = lex_word 38 "WRITE"

abbrev pub lex_k_xml : String → Option Lexed
lex_k_xml = lex_word 367 "XML"

abbrev pub lex_k_xmldata : String → Option Lexed
lex_k_xmldata = lex_word 233 "XMLDATA"

abbrev pub lex_k_year : String → Option Lexed
lex_k_year = lex_word 144 "YEAR"

abbrev pub lex_k_zone : String → Option Lexed
lex_k_zone = lex_word 156 "ZONE"

abbrev pub words_w : List Keyword
words_w =
    keyword 360 "WAIT" lex_k_wait refl
    ∷ keyword 598 "WEEK" lex_t_598 refl
    ∷ keyword 92 "WHEN" lex_k_when refl
    ∷ keyword 409 "WHENEVER" lex_k_whenever refl
    ∷ keyword 256 "WHERE" lex_k_where refl
    ∷ keyword 116 "WITH" lex_k_with refl
    ∷ keyword 579 "WITH PARSER" lex_t_579 refl
    ∷ keyword 539 "WORK" lex_k_work refl
    ∷ keyword 38 "WRITE" lex_k_write refl
    ∷ []

abbrev pub words_x : List Keyword
words_x = keyword 367 "XML" lex_k_xml refl ∷ keyword 233 "XMLDATA" lex_k_xmldata refl ∷ []

abbrev pub words_y : List Keyword
words_y = keyword 144 "YEAR" lex_k_year refl ∷ []

abbrev pub words_z : List Keyword
words_z = keyword 156 "ZONE" lex_k_zone refl ∷ []
