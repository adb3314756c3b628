-- ===== src/Lexer/Words/Keywords/A.antt =====
-- The rules for the keywords that begin with A. A type that has no name in TokenTypes is
-- written as the number of mysqlLexer.h.
use pgify.Base.{String, refl, Option, List, [], ◌∷◌}
use pgify.Lexer.{Lexed}
use pgify.Lexer.Words.{lex_word}
use pgify.Lexer.Words.Keyword.{Keyword, keyword}
use pgify.TokenTypes.{k_asc, k_auto_increment}

abbrev pub lex_k_access : String → Option Lexed
lex_k_access = lex_word 371 "ACCESS"

abbrev pub lex_t_575 : String → Option Lexed
lex_t_575 = lex_word 575 "ACTION"

abbrev pub lex_k_add : String → Option Lexed
lex_k_add = lex_word 372 "ADD"

abbrev pub lex_k_admin : String → Option Lexed
lex_k_admin = lex_word 410 "ADMIN"

abbrev pub lex_k_after : String → Option Lexed
lex_k_after = lex_word 411 "AFTER"

abbrev pub lex_k_all : String → Option Lexed
lex_k_all = lex_word 101 "ALL"

abbrev pub lex_k_allocate : String → Option Lexed
lex_k_allocate = lex_word 412 "ALLOCATE"

abbrev pub lex_k_alter : String → Option Lexed
lex_k_alter = lex_word 373 "ALTER"

abbrev pub lex_k_analyze : String → Option Lexed
lex_k_analyze = lex_word 413 "ANALYZE"

abbrev pub lex_k_and : String → Option Lexed
lex_k_and = lex_word 239 "AND"

abbrev pub lex_k_any : String → Option Lexed
lex_k_any = lex_word 274 "ANY"

abbrev pub lex_k_archive : String → Option Lexed
lex_k_archive = lex_word 414 "ARCHIVE"

abbrev pub lex_k_archivelog : String → Option Lexed
lex_k_archivelog = lex_word 415 "ARCHIVELOG"

abbrev pub lex_k_arraylen : String → Option Lexed
lex_k_arraylen = lex_word 374 "ARRAYLEN"

abbrev pub lex_k_as : String → Option Lexed
lex_k_as = lex_word 34 "AS"

abbrev pub lex_k_asc : String → Option Lexed
lex_k_asc = lex_word k_asc "ASC"

abbrev pub lex_k_at : String → Option Lexed
lex_k_at = lex_word 154 "AT"

abbrev pub lex_k_audit : String → Option Lexed
lex_k_audit = lex_word 375 "AUDIT"

abbrev pub lex_k_authorization : String → Option Lexed
lex_k_authorization = lex_word 416 "AUTHORIZATION"

abbrev pub lex_k_automatic : String → Option Lexed
lex_k_automatic = lex_word 302 "AUTOMATIC"

abbrev pub lex_k_auto_increment : String → Option Lexed
lex_k_auto_increment = lex_word k_auto_increment "AUTO_INCREMENT"

abbrev pub lex_k_avg : String → Option Lexed
lex_k_avg = lex_word 315 "AVG"

abbrev pub lex_t_580 : String → Option Lexed
lex_t_580 = lex_word 580 "AVG_ROW_LENGTH"

abbrev pub words_a : List Keyword
words_a =
    keyword 371 "ACCESS" lex_k_access refl
    ∷ keyword 575 "ACTION" lex_t_575 refl
    ∷ keyword 372 "ADD" lex_k_add refl
    ∷ keyword 410 "ADMIN" lex_k_admin refl
    ∷ keyword 411 "AFTER" lex_k_after refl
    ∷ keyword 101 "ALL" lex_k_all refl
    ∷ keyword 412 "ALLOCATE" lex_k_allocate refl
    ∷ keyword 373 "ALTER" lex_k_alter refl
    ∷ keyword 413 "ANALYZE" lex_k_analyze refl
    ∷ keyword 239 "AND" lex_k_and refl
    ∷ keyword 274 "ANY" lex_k_any refl
    ∷ keyword 414 "ARCHIVE" lex_k_archive refl
    ∷ keyword 415 "ARCHIVELOG" lex_k_archivelog refl
    ∷ keyword 374 "ARRAYLEN" lex_k_arraylen refl
    ∷ keyword 34 "AS" lex_k_as refl
    ∷ keyword k_asc "ASC" lex_k_asc refl
    ∷ keyword 154 "AT" lex_k_at refl
    ∷ keyword 375 "AUDIT" lex_k_audit refl
    ∷ keyword 416 "AUTHORIZATION" lex_k_authorization refl
    ∷ keyword 302 "AUTOMATIC" lex_k_automatic refl
    ∷ keyword k_auto_increment "AUTO_INCREMENT" lex_k_auto_increment refl
    ∷ keyword 315 "AVG" lex_k_avg refl
    ∷ keyword 580 "AVG_ROW_LENGTH" lex_t_580 refl
    ∷ []
