-- ===== src/Lexer/Words/Keywords/L.antt =====
-- The rules for the keywords that begin with L. A type that has no name in TokenTypes is
-- written as the number of mysqlLexer.h.
use pgify.Base.{String, refl, Option, List, [], ◌∷◌}
use pgify.Lexer.{Lexed}
use pgify.Lexer.Words.{lex_word}
use pgify.Lexer.Words.Keyword.{Keyword, keyword}

abbrev pub lex_k_lag : String → Option Lexed
lex_k_lag = lex_word 323 "LAG"

abbrev pub lex_k_language : String → Option Lexed
lex_k_language = lex_word 466 "LANGUAGE"

abbrev pub lex_k_last : String → Option Lexed
lex_k_last = lex_word 122 "LAST"

abbrev pub lex_k_last_value : String → Option Lexed
lex_k_last_value = lex_word 324 "LAST_VALUE"

abbrev pub lex_k_layer : String → Option Lexed
lex_k_layer = lex_word 467 "LAYER"

abbrev pub lex_k_lead : String → Option Lexed
lex_k_lead = lex_word 325 "LEAD"

abbrev pub lex_k_left : String → Option Lexed
lex_k_left = lex_word 253 "LEFT"

abbrev pub lex_k_level : String → Option Lexed
lex_k_level = lex_word 220 "LEVEL"

abbrev pub lex_k_like : String → Option Lexed
lex_k_like = lex_word 44 "LIKE"

abbrev pub lex_k_like2 : String → Option Lexed
lex_k_like2 = lex_word 281 "LIKE2"

abbrev pub lex_k_like4 : String → Option Lexed
lex_k_like4 = lex_word 282 "LIKE4"

abbrev pub lex_k_likec : String → Option Lexed
lex_k_likec = lex_word 280 "LIKEC"

abbrev pub lex_k_limit : String → Option Lexed
lex_k_limit = lex_word 108 "LIMIT"

abbrev pub lex_t_604 : String → Option Lexed
lex_t_604 = lex_word 604 "LINES"

abbrev pub lex_k_link : String → Option Lexed
lex_k_link = lex_word 468 "LINK"

abbrev pub lex_k_lists : String → Option Lexed
lex_k_lists = lex_word 469 "LISTS"

abbrev pub lex_k_local : String → Option Lexed
lex_k_local = lex_word 36 "LOCAL"

abbrev pub lex_k_lock : String → Option Lexed
lex_k_lock = lex_word 32 "LOCK"

abbrev pub lex_k_locked : String → Option Lexed
lex_k_locked = lex_word 362 "LOCKED"

abbrev pub lex_k_log : String → Option Lexed
lex_k_log = lex_word 105 "LOG"

abbrev pub lex_k_logfile : String → Option Lexed
lex_k_logfile = lex_word 470 "LOGFILE"

abbrev pub lex_k_long : String → Option Lexed
lex_k_long = lex_word 172 "LONG"

abbrev pub lex_k_low_priority : String → Option Lexed
lex_k_low_priority = lex_word 37 "LOW_PRIORITY"

abbrev pub words_l : List Keyword
words_l =
    keyword 323 "LAG" lex_k_lag refl
    ∷ keyword 466 "LANGUAGE" lex_k_language refl
    ∷ keyword 122 "LAST" lex_k_last refl
    ∷ keyword 324 "LAST_VALUE" lex_k_last_value refl
    ∷ keyword 467 "LAYER" lex_k_layer refl
    ∷ keyword 325 "LEAD" lex_k_lead refl
    ∷ keyword 253 "LEFT" lex_k_left refl
    ∷ keyword 220 "LEVEL" lex_k_level refl
    ∷ keyword 44 "LIKE" lex_k_like refl
    ∷ keyword 281 "LIKE2" lex_k_like2 refl
    ∷ keyword 282 "LIKE4" lex_k_like4 refl
    ∷ keyword 280 "LIKEC" lex_k_likec refl
    ∷ keyword 108 "LIMIT" lex_k_limit refl
    ∷ keyword 604 "LINES" lex_t_604 refl
    ∷ keyword 468 "LINK" lex_k_link refl
    ∷ keyword 469 "LISTS" lex_k_lists refl
    ∷ keyword 36 "LOCAL" lex_k_local refl
    ∷ keyword 32 "LOCK" lex_k_lock refl
    ∷ keyword 362 "LOCKED" lex_k_locked refl
    ∷ keyword 105 "LOG" lex_k_log refl
    ∷ keyword 470 "LOGFILE" lex_k_logfile refl
    ∷ keyword 172 "LONG" lex_k_long refl
    ∷ keyword 37 "LOW_PRIORITY" lex_k_low_priority refl
    ∷ []
