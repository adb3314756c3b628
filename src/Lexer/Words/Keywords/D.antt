-- ===== src/Lexer/Words/Keywords/D.antt =====
-- The rules for the keywords that begin with D. A type that has no name in TokenTypes is
-- written as the number of mysqlLexer.h.
use pgify.Base.{String, refl, Option, List, [], ◌∷◌}
use pgify.Lexer.{Lexed}
use pgify.Lexer.Words.{lex_word}
use pgify.Lexer.Words.Keyword.{Keyword, keyword}
use pgify.TokenTypes.{k_desc, k_double}

abbrev pub lex_t_583 : String → Option Lexed
lex_t_583 = lex_word 583 "DATA"

abbrev pub lex_k_database : String → Option Lexed
lex_k_database = lex_word 46 "DATABASE"

abbrev pub lex_t_566 : String → Option Lexed
lex_t_566 = lex_word 566 "DATABASES"

abbrev pub lex_k_datafile : String → Option Lexed
lex_k_datafile = lex_word 435 "DATAFILE"

abbrev pub lex_k_date : String → Option Lexed
lex_k_date = lex_word 175 "DATE"

abbrev pub lex_k_day : String → Option Lexed
lex_k_day = lex_word 177 "DAY"

abbrev pub lex_k_dba : String → Option Lexed
lex_k_dba = lex_word 436 "DBA"

abbrev pub lex_k_dbtimezone : String → Option Lexed
lex_k_dbtimezone = lex_word 157 "DBTIMEZONE"

abbrev pub lex_k_dec : String → Option Lexed
lex_k_dec = lex_word 171 "DEC"

abbrev pub lex_k_decimal : String → Option Lexed
lex_k_decimal = lex_word 170 "DECIMAL"

abbrev pub lex_k_declare : String → Option Lexed
lex_k_declare = lex_word 437 "DECLARE"

abbrev pub lex_k_decrement : String → Option Lexed
lex_k_decrement = lex_word 310 "DECREMENT"

abbrev pub lex_k_default : String → Option Lexed
lex_k_default = lex_word 47 "DEFAULT"

abbrev pub lex_t_585 : String → Option Lexed
lex_t_585 = lex_word 585 "DELAY_KEY_WRITE"

abbrev pub lex_k_delete : String → Option Lexed
lex_k_delete = lex_word 80 "DELETE"

abbrev pub lex_k_dense_rank : String → Option Lexed
lex_k_dense_rank = lex_word 321 "DENSE_RANK"

abbrev pub lex_k_depth : String → Option Lexed
lex_k_depth = lex_word 118 "DEPTH"

abbrev pub lex_k_desc : String → Option Lexed
lex_k_desc = lex_word k_desc "DESC"

abbrev pub lex_k_dimension : String → Option Lexed
lex_k_dimension = lex_word 293 "DIMENSION"

abbrev pub lex_t_584 : String → Option Lexed
lex_t_584 = lex_word 584 "DIRECTORY"

abbrev pub lex_k_disable : String → Option Lexed
lex_k_disable = lex_word 438 "DISABLE"

abbrev pub lex_t_569 : String → Option Lexed
lex_t_569 = lex_word 569 "DISK"

abbrev pub lex_k_dismount : String → Option Lexed
lex_k_dismount = lex_word 439 "DISMOUNT"

abbrev pub lex_k_distinct : String → Option Lexed
lex_k_distinct = lex_word 112 "DISTINCT"

abbrev pub lex_k_double : String → Option Lexed
lex_k_double = lex_word k_double "DOUBLE"

abbrev pub lex_k_drop : String → Option Lexed
lex_k_drop = lex_word 88 "DROP"

abbrev pub lex_k_dump : String → Option Lexed
lex_k_dump = lex_word 440 "DUMP"

abbrev pub lex_t_605 : String → Option Lexed
lex_t_605 = lex_word 605 "DUMPFILE"

abbrev pub lex_k_dynamic : String → Option Lexed
lex_k_dynamic = lex_word 69 "DYNAMIC"

abbrev pub words_d : List Keyword
words_d =
    keyword 583 "DATA" lex_t_583 refl
    ∷ keyword 46 "DATABASE" lex_k_database refl
    ∷ keyword 566 "DATABASES" lex_t_566 refl
    ∷ keyword 435 "DATAFILE" lex_k_datafile refl
    ∷ keyword 175 "DATE" lex_k_date refl
    ∷ keyword 177 "DAY" lex_k_day refl
    ∷ keyword 436 "DBA" lex_k_dba refl
    ∷ keyword 157 "DBTIMEZONE" lex_k_dbtimezone refl
    ∷ keyword 171 "DEC" lex_k_dec refl
    ∷ keyword 170 "DECIMAL" lex_k_decimal refl
    ∷ keyword 437 "DECLARE" lex_k_declare refl
    ∷ keyword 310 "DECREMENT" lex_k_decrement refl
    ∷ keyword 47 "DEFAULT" lex_k_default refl
    ∷ keyword 585 "DELAY_KEY_WRITE" lex_t_585 refl
    ∷ keyword 80 "DELETE" lex_k_delete refl
    ∷ keyword 321 "DENSE_RANK" lex_k_dense_rank refl
    ∷ keyword 118 "DEPTH" lex_k_depth refl
    ∷ keyword k_desc "DESC" lex_k_desc refl
    ∷ keyword 293 "DIMENSION" lex_k_dimension refl
    ∷ keyword 584 "DIRECTORY" lex_t_584 refl
    ∷ keyword 438 "DISABLE" lex_k_disable refl
    ∷ keyword 569 "DISK" lex_t_569 refl
    ∷ keyword 439 "DISMOUNT" lex_k_dismount refl
    ∷ keyword 112 "DISTINCT" lex_k_distinct refl
    ∷ keyword k_double "DOUBLE" lex_k_double refl
    ∷ keyword 88 "DROP" lex_k_drop refl
    ∷ keyword 440 "DUMP" lex_k_dump refl
    ∷ keyword 605 "DUMPFILE" lex_t_605 refl
    ∷ keyword 69 "DYNAMIC" lex_k_dynamic refl
    ∷ []
