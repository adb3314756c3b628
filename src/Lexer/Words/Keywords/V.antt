-- ===== src/Lexer/Words/Keywords/V.antt =====
-- The rules for the keywords that begin with V. A type that has no name in TokenTypes is
-- written as the number of mysqlLexer.h.
use pgify.Base.{String, refl, Option, List, [], ◌∷◌}
use pgify.Lexer.{Lexed}
use pgify.Lexer.Words.{lex_word}
use pgify.Lexer.Words.Keyword.{Keyword, keyword}

abbrev pub lex_k_validate : String → Option Lexed
lex_k_validate = lex_word 407 "VALIDATE"

abbrev pub lex_k_value : String → Option Lexed
lex_k_value = lex_word 110 "VALUE"

abbrev pub lex_k_values : String → Option Lexed
lex_k_values = lex_word 98 "VALUES"

abbrev pub lex_k_varchar : String → Option Lexed
lex_k_varchar = lex_word 191 "VARCHAR"

abbrev pub lex_k_varchar2 : String → Option Lexed
lex_k_varchar2 = lex_word 192 "VARCHAR2"

abbrev pub lex_k_variance : String → Option Lexed
lex_k_variance = lex_word 350 "VARIANCE"

abbrev pub lex_k_varying : String → Option Lexed
lex_k_varying = lex_word 189 "VARYING"

abbrev pub lex_k_var_pop : String → Option Lexed
lex_k_var_pop = lex_word 348 "VAR_POP"

abbrev pub lex_k_var_samp : String → Option Lexed
lex_k_var_samp = lex_word 349 "VAR_SAMP"

abbrev pub lex_k_versions : String → Option Lexed
lex_k_versions = lex_word 235 "VERSIONS"

abbrev pub lex_k_versions_endscn : String → Option Lexed
lex_k_versions_endscn = lex_word 226 "VERSIONS_ENDSCN"

abbrev pub lex_k_versions_endtime : String → Option Lexed
lex_k_versions_endtime = lex_word 225 "VERSIONS_ENDTIME"

abbrev pub lex_k_versions_operation : String → Option Lexed
lex_k_versions_operation = lex_word 228 "VERSIONS_OPERATION"

abbrev pub lex_k_versions_starscn : String → Option Lexed
lex_k_versions_starscn = lex_word 224 "VERSIONS_STARSCN"

abbrev pub lex_k_versions_starttime : String → Option Lexed
lex_k_versions_starttime = lex_word 223 "VERSIONS_STARTTIME"

abbrev pub lex_k_versions_xid : String → Option Lexed
lex_k_versions_xid = lex_word 227 "VERSIONS_XID"

abbrev pub lex_k_view : String → Option Lexed
lex_k_view = lex_word 408 "VIEW"

abbrev pub words_v : List Keyword
words_v =
    keyword 407 "VALIDATE" lex_k_validate refl
    ∷ keyword 110 "VALUE" lex_k_value refl
    ∷ keyword 98 "VALUES" lex_k_values refl
    ∷ keyword 191 "VARCHAR" lex_k_varchar refl
    ∷ keyword 192 "VARCHAR2" lex_k_varchar2 refl
    ∷ keyword 350 "VARIANCE" lex_k_variance refl
    ∷ keyword 189 "VARYING" lex_k_varying refl
    ∷ keyword 348 "VAR_POP" lex_k_var_pop refl
    ∷ keyword 349 "VAR_SAMP" lex_k_var_samp refl
    ∷ keyword 235 "VERSIONS" lex_k_versions refl
    ∷ keyword 226 "VERSIONS_ENDSCN" lex_k_versions_endscn refl
    ∷ keyword 225 "VERSIONS_ENDTIME" lex_k_versions_endtime refl
    ∷ keyword 228 "VERSIONS_OPERATION" lex_k_versions_operation refl
    ∷ keyword 224 "VERSIONS_STARSCN" lex_k_versions_starscn refl
    ∷ keyword 223 "VERSIONS_STARTTIME" lex_k_versions_starttime refl
    ∷ keyword 227 "VERSIONS_XID" lex_k_versions_xid refl
    ∷ keyword 408 "VIEW" lex_k_view refl
    ∷ []
