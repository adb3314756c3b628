-- ===== src/Lexer/Words/Keywords/IToK.antt =====
-- The rules for the keywords that begin with I to K. A type that has no name in TokenTypes is
-- written as the number of mysqlLexer.h.
use pgify.Base.{String, refl, Option, List, [], ◌∷◌}
use pgify.Lexer.{Lexed}
use pgify.Lexer.Words.{lex_word}
use pgify.Lexer.Words.Keyword.{Keyword, keyword}

abbrev pub lex_k_identified : String → Option Lexed
lex_k_identified = lex_word 382 "IDENTIFIED"

abbrev pub lex_k_if : String → Option Lexed
lex_k_if = lex_word 55 "IF"

abbrev pub lex_k_ifnull : String → Option Lexed
lex_k_ifnull = lex_word 148 "IFNULL"

abbrev pub lex_k_ignore : String → Option Lexed
lex_k_ignore = lex_word 290 "IGNORE"

abbrev pub lex_k_immediate : String → Option Lexed
lex_k_immediate = lex_word 383 "IMMEDIATE"

abbrev pub lex_k_in : String → Option Lexed
lex_k_in = lex_word 43 "IN"

abbrev pub lex_k_include : String → Option Lexed
lex_k_include = lex_word 370 "INCLUDE"

abbrev pub lex_k_including : String → Option Lexed
lex_k_including = lex_word 462 "INCLUDING"

abbrev pub lex_k_increment : String → Option Lexed
lex_k_increment = lex_word 309 "INCREMENT"

abbrev pub lex_k_index : String → Option Lexed
lex_k_index = lex_word 73 "INDEX"

abbrev pub lex_k_indicator : String → Option Lexed
lex_k_indicator = lex_word 463 "INDICATOR"

abbrev pub lex_k_infinite : String → Option Lexed
lex_k_infinite = lex_word 268 "INFINITE"

abbrev pub lex_k_initial : String → Option Lexed
lex_k_initial = lex_word 384 "INITIAL"

abbrev pub lex_k_initrans : String → Option Lexed
lex_k_initrans = lex_word 464 "INITRANS"

abbrev pub lex_k_inner : String → Option Lexed
lex_k_inner = lex_word 250 "INNER"

abbrev pub lex_k_innodb : String → Option Lexed
lex_k_innodb = lex_word 87 "INNODB"

abbrev pub lex_k_insert : String → Option Lexed
lex_k_insert = lex_word 97 "INSERT"

abbrev pub lex_t_586 : String → Option Lexed
lex_t_586 = lex_word 586 "INSERT_METHOD"

abbrev pub lex_k_instance : String → Option Lexed
lex_k_instance = lex_word 465 "INSTANCE"

abbrev pub lex_k_int : String → Option Lexed
lex_k_int = lex_word 209 "INT"

abbrev pub lex_k_integer : String → Option Lexed
lex_k_integer = lex_word 210 "INTEGER"

abbrev pub lex_k_intersect : String → Option Lexed
lex_k_intersect = lex_word 311 "INTERSECT"

abbrev pub lex_k_interval : String → Option Lexed
lex_k_interval = lex_word 159 "INTERVAL"

abbrev pub lex_k_into : String → Option Lexed
lex_k_into = lex_word 91 "INTO"

abbrev pub lex_k_is : String → Option Lexed
lex_k_is = lex_word 266 "IS"

abbrev pub lex_k_iterate : String → Option Lexed
lex_k_iterate = lex_word 305 "ITERATE"

abbrev pub lex_k_join : String → Option Lexed
lex_k_join = lex_word 251 "JOIN"

abbrev pub lex_k_keep : String → Option Lexed
lex_k_keep = lex_word 291 "KEEP"

abbrev pub lex_k_key : String → Option Lexed
lex_k_key = lex_word 64 "KEY"

abbrev pub lex_t_578 : String → Option Lexed
lex_t_578 = lex_word 578 "KEY_BLOCK_SIZE"

abbrev pub words_i : List Keyword
words_i =
    keyword 382 "IDENTIFIED" lex_k_identified refl
    ∷ keyword 55 "IF" lex_k_if refl
    ∷ keyword 148 "IFNULL" lex_k_ifnull refl
    ∷ keyword 290 "IGNORE" lex_k_ignore refl
    ∷ keyword 383 "IMMEDIATE" lex_k_immediate refl
    ∷ keyword 43 "IN" lex_k_in refl
    ∷ keyword 370 "INCLUDE" lex_k_include refl
    ∷ keyword 462 "INCLUDING" lex_k_including refl
    ∷ keyword 309 "INCREMENT" lex_k_increment refl
    ∷ keyword 73 "INDEX" lex_k_index refl
    ∷ keyword 463 "INDICATOR" lex_k_indicator refl
    ∷ keyword 268 "INFINITE" lex_k_infinite refl
    ∷ keyword 384 "INITIAL" lex_k_initial refl
    ∷ keyword 464 "INITRANS" lex_k_initrans refl
    ∷ keyword 250 "INNER" lex_k_inner refl
    ∷ keyword 87 "INNODB" lex_k_innodb refl
    ∷ keyword 97 "INSERT" lex_k_insert refl
    ∷ keyword 586 "INSERT_METHOD" lex_t_586 refl
    ∷ keyword 465 "INSTANCE" lex_k_instance refl
    ∷ keyword 209 "INT" lex_k_int refl
    ∷ keyword 210 "INTEGER" lex_k_integer refl
    ∷ keyword 311 "INTERSECT" lex_k_intersect refl
    ∷ keyword 159 "INTERVAL" lex_k_interval refl
    ∷ keyword 91 "INTO" lex_k_into refl
    ∷ keyword 266 "IS" lex_k_is refl
    ∷ keyword 305 "ITERATE" lex_k_iterate refl
    ∷ []

abbrev pub words_j : List Keyword
words_j = keyword 251 "JOIN" lex_k_join refl ∷ []

abbrev pub words_k : List Keyword
words_k =
    keyword 291 "KEEP" lex_k_keep refl
    ∷ keyword 64 "KEY" lex_k_key refl
    ∷ keyword 578 "KEY_BLOCK_SIZE" lex_t_578 refl
    ∷ []
