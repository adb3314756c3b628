-- ===== src/Lexer/Words/Keywords/O.antt =====
-- The rules for the keywords that begin with O. A type that has no name in TokenTypes is
-- written as the number of mysqlLexer.h.
use pgify.Base.{String, refl, Option, List, [], ◌∷◌}
use pgify.Lexer.{Lexed}
use pgify.Lexer.Words.{lex_word}
use pgify.Lexer.Words.Keyword.{Keyword, keyword}
use pgify.TokenTypes.{k_on}

abbrev pub lex_k_object_id : String → Option Lexed
lex_k_object_id = lex_word 230 "OBJECT_ID"

abbrev pub lex_k_object_value : String → Option Lexed
lex_k_object_value = lex_word 231 "OBJECT_VALUE"

abbrev pub lex_k_of : String → Option Lexed
lex_k_of = lex_word 241 "OF"

abbrev pub lex_k_off : String → Option Lexed
lex_k_off = lex_word 494 "OFF"

abbrev pub lex_k_offline : String → Option Lexed
lex_k_offline = lex_word 390 "OFFLINE"

abbrev pub lex_k_offset : String → Option Lexed
lex_k_offset = lex_word 314 "OFFSET"

abbrev pub lex_k_old : String → Option Lexed
lex_k_old = lex_word 495 "OLD"

abbrev pub lex_k_on : String → Option Lexed
lex_k_on = lex_word k_on "ON"

abbrev pub lex_k_online : String → Option Lexed
lex_k_online = lex_word 391 "ONLINE"

abbrev pub lex_k_only : String → Option Lexed
lex_k_only = lex_word 89 "ONLY"

abbrev pub lex_k_open : String → Option Lexed
lex_k_open = lex_word 496 "OPEN"

abbrev pub lex_k_optimal : String → Option Lexed
lex_k_optimal = lex_word 497 "OPTIMAL"

abbrev pub lex_k_option : String → Option Lexed
lex_k_option = lex_word 249 "OPTION"

abbrev pub lex_t_602 : String → Option Lexed
lex_t_602 = lex_word 602 "OPTIONALLY"

abbrev pub lex_k_or : String → Option Lexed
lex_k_or = lex_word 265 "OR"

abbrev pub lex_k_ora_rowscn : String → Option Lexed
lex_k_ora_rowscn = lex_word 232 "ORA_ROWSCN"

abbrev pub lex_k_order : String → Option Lexed
lex_k_order = lex_word 304 "ORDER"

abbrev pub lex_k_outer : String → Option Lexed
lex_k_outer = lex_word 255 "OUTER"

abbrev pub lex_t_600 : String → Option Lexed
lex_t_600 = lex_word 600 "OUTFILE"

abbrev pub lex_k_over : String → Option Lexed
lex_k_over = lex_word 352 "OVER"

abbrev pub lex_k_own : String → Option Lexed
lex_k_own = lex_word 498 "OWN"

abbrev pub words_o : List Keyword
words_o =
    keyword 230 "OBJECT_ID" lex_k_object_id refl
    ∷ keyword 231 "OBJECT_VALUE" lex_k_object_value refl
    ∷ keyword 241 "OF" lex_k_of refl
    ∷ keyword 494 "OFF" lex_k_off refl
    ∷ keyword 390 "OFFLINE" lex_k_offline refl
    ∷ keyword 314 "OFFSET" lex_k_offset refl
    ∷ keyword 495 "OLD" lex_k_old refl
    ∷ keyword k_on "ON" lex_k_on refl
    ∷ keyword 391 "ONLINE" lex_k_online refl
    ∷ keyword 89 "ONLY" lex_k_only refl
    ∷ keyword 496 "OPEN" lex_k_open refl
    ∷ keyword 497 "OPTIMAL" lex_k_optimal refl
    ∷ keyword 249 "OPTION" lex_k_option refl
    ∷ keyword 602 "OPTIONALLY" lex_t_602 refl
    ∷ keyword 265 "OR" lex_k_or refl
    ∷ keyword 232 "ORA_ROWSCN" lex_k_ora_rowscn refl
    ∷ keyword 304 "ORDER" lex_k_order refl
    ∷ keyword 255 "OUTER" lex_k_outer refl
    ∷ keyword 600 "OUTFILE" lex_t_600 refl
    ∷ keyword 352 "OVER" lex_k_over refl
    ∷ keyword 498 "OWN" lex_k_own refl
    ∷ []
