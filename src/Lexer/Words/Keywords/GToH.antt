-- ===== src/Lexer/Words/Keywords/GToH.antt =====
-- The rules for the keywords that begin with G or H. A type that has no name in TokenTypes is
-- written as the number of mysqlLexer.h.
use pgify.Base.{String, refl, Option, List, [], ◌∷◌}
use pgify.Lexer.{Lexed}
use pgify.Lexer.Words.{lex_word}
use pgify.Lexer.Words.Keyword.{Keyword, keyword}

abbrev pub lex_k_go : String → Option Lexed
lex_k_go = lex_word 459 "GO"

abbrev pub lex_k_goto : String → Option Lexed
lex_k_goto = lex_word 460 "GOTO"

abbrev pub lex_k_grant : String → Option Lexed
lex_k_grant = lex_word 381 "GRANT"

abbrev pub lex_k_group : String → Option Lexed
lex_k_group = lex_word 260 "GROUP"

abbrev pub lex_k_grouping : String → Option Lexed
lex_k_grouping = lex_word 263 "GROUPING"

abbrev pub lex_k_groups : String → Option Lexed
lex_k_groups = lex_word 461 "GROUPS"

abbrev pub lex_t_577 : String → Option Lexed
lex_t_577 = lex_word 577 "HASH"

abbrev pub lex_k_having : String → Option Lexed
lex_k_having = lex_word 115 "HAVING"

abbrev pub lex_k_high_priority : String → Option Lexed
lex_k_high_priority = lex_word 125 "HIGH_PRIORITY"

abbrev pub lex_t_597 : String → Option Lexed
lex_t_597 = lex_word 597 "HOUR"

abbrev pub words_g : List Keyword
words_g =
    keyword 459 "GO" lex_k_go refl
    ∷ keyword 460 "GOTO" lex_k_goto refl
    ∷ keyword 381 "GRANT" lex_k_grant refl
    ∷ keyword 260 "GROUP" lex_k_group refl
    ∷ keyword 263 "GROUPING" lex_k_grouping refl
    ∷ keyword 461 "GROUPS" lex_k_groups refl
    ∷ []

abbrev pub words_h : List Keyword
words_h =
    keyword 577 "HASH" lex_t_577 refl
    ∷ keyword 115 "HAVING" lex_k_having refl
    ∷ keyword 125 "HIGH_PRIORITY" lex_k_high_priority refl
    ∷ keyword 597 "HOUR" lex_t_597 refl
    ∷ []
