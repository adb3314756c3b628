-- ===== src/Lexer/Words/Keywords/T.antt =====
-- The rules for the keywords that begin with T. A type that has no name in TokenTypes is
-- written as the number of mysqlLexer.h.
use pgify.Base.{String, refl, Option, List, [], ◌∷◌}
use pgify.Lexer.{Lexed}
use pgify.Lexer.Words.{lex_word}
use pgify.Lexer.Words.Keyword.{Keyword, keyword}
use pgify.TokenTypes.{k_tables}

abbrev pub lex_k_table : String → Option Lexed
lex_k_table = lex_word 54 "TABLE"

abbrev pub lex_k_tables : String → Option Lexed
lex_k_tables = lex_word k_tables "TABLES"

abbrev pub lex_k_tablespace : String → Option Lexed
lex_k_tablespace = lex_word 532 "TABLESPACE"

abbrev pub lex_k_temporary : String → Option Lexed
lex_k_temporary = lex_word 53 "TEMPORARY"

abbrev pub lex_t_601 : String → Option Lexed
lex_t_601 = lex_word 601 "TERMINATED"

abbrev pub lex_k_text : String → Option Lexed
lex_k_text = lex_word 184 "TEXT"

abbrev pub lex_k_the : String → Option Lexed
lex_k_the = lex_word 540 "THE"

abbrev pub lex_k_then : String → Option Lexed
lex_k_then = lex_word 94 "THEN"

abbrev pub lex_k_thread : String → Option Lexed
lex_k_thread = lex_word 533 "THREAD"

abbrev pub lex_k_time : String → Option Lexed
lex_k_time = lex_word 155 "TIME"

abbrev pub lex_k_timestamp : String → Option Lexed
lex_k_timestamp = lex_word 179 "TIMESTAMP"

abbrev pub lex_k_to : String → Option Lexed
lex_k_to = lex_word 124 "TO"

abbrev pub lex_k_tracing : String → Option Lexed
lex_k_tracing = lex_word 534 "TRACING"

abbrev pub lex_k_transaction : String → Option Lexed
lex_k_transaction = lex_word 535 "TRANSACTION"

abbrev pub lex_k_trigger : String → Option Lexed
lex_k_trigger = lex_word 404 "TRIGGER"

abbrev pub lex_k_triggers : String → Option Lexed
lex_k_triggers = lex_word 536 "TRIGGERS"

abbrev pub lex_k_true : String → Option Lexed
lex_k_true = lex_word 216 "TRUE"

abbrev pub lex_k_truncate : String → Option Lexed
lex_k_truncate = lex_word 537 "TRUNCATE"

abbrev pub lex_k_type : String → Option Lexed
lex_k_type = lex_word 278 "TYPE"

abbrev pub words_t : List Keyword
words_t =
    keyword 54 "TABLE" lex_k_table refl
    ∷ keyword k_tables "TABLES" lex_k_tables refl
    ∷ keyword 532 "TABLESPACE" lex_k_tablespace refl
    ∷ keyword 53 "TEMPORARY" lex_k_temporary refl
    ∷ keyword 601 "TERMINATED" lex_t_601 refl
    ∷ keyword 184 "TEXT" lex_k_text refl
    ∷ keyword 540 "THE" lex_k_the refl
    ∷ keyword 94 "THEN" lex_k_then refl
    ∷ keyword 533 "THREAD" lex_k_thread refl
    ∷ keyword 155 "TIME" lex_k_time refl
    ∷ keyword 179 "TIMESTAMP" lex_k_timestamp refl
    ∷ keyword 124 "TO" lex_k_to refl
    ∷ keyword 534 "TRACING" lex_k_tracing refl
    ∷ keyword 535 "TRANSACTION" lex_k_transaction refl
    ∷ keyword 404 "TRIGGER" lex_k_trigger refl
    ∷ keyword 536 "TRIGGERS" lex_k_triggers refl
    ∷ keyword 216 "TRUE" lex_k_true refl
    ∷ keyword 537 "TRUNCATE" lex_k_truncate refl
    ∷ keyword 278 "TYPE" lex_k_type refl
    ∷ []
