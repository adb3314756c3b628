-- ===== src/Lexer/Words/Keywords/PToQ.antt =====
-- The rules for the keywords that begin with P or Q. A type that has no name in TokenTypes is
-- written as the number of mysqlLexer.h.
use pgify.Base.{String, refl, Option, List, [], ◌∷◌}
use pgify.Lexer.{Lexed}
use pgify.Lexer.Words.{lex_word}
use pgify.Lexer.Words.Keyword.{Keyword, keyword}
use pgify.TokenTypes.{k_precision}

abbrev pub lex_k_package : String → Option Lexed
lex_k_package = lex_word 499 "PACKAGE"

abbrev pub lex_t_589 : String → Option Lexed
lex_t_589 = lex_word 589 "PACK_KEYS"

abbrev pub lex_k_parallel : String → Option Lexed
lex_k_parallel = lex_word 500 "PARALLEL"

abbrev pub lex_t_572 : String → Option Lexed
lex_t_572 = lex_word 572 "PARTIAL"

abbrev pub lex_k_partition : String → Option Lexed
lex_k_partition = lex_word 245 "PARTITION"

abbrev pub lex_t_590 : String → Option Lexed
lex_t_590 = lex_word 590 "PASSWORD"

abbrev pub lex_k_pctfree : String → Option Lexed
lex_k_pctfree = lex_word 392 "PCTFREE"

abbrev pub lex_k_pctincrease : String → Option Lexed
lex_k_pctincrease = lex_word 501 "PCTINCREASE"

abbrev pub lex_k_pctused : String → Option Lexed
lex_k_pctused = lex_word 502 "PCTUSED"

abbrev pub lex_k_percentile_cont : String → Option Lexed
lex_k_percentile_cont = lex_word 330 "PERCENTILE_CONT"

abbrev pub lex_k_percentile_disc : String → Option Lexed
lex_k_percentile_disc = lex_word 331 "PERCENTILE_DISC"

abbrev pub lex_k_percent_rank : String → Option Lexed
lex_k_percent_rank = lex_word 329 "PERCENT_RANK"

abbrev pub lex_k_pivot : String → Option Lexed
lex_k_pivot = lex_word 366 "PIVOT"

abbrev pub lex_k_plan : String → Option Lexed
lex_k_plan = lex_word 503 "PLAN"

abbrev pub lex_k_pli : String → Option Lexed
lex_k_pli = lex_word 504 "PLI"

abbrev pub lex_k_pls_integer : String → Option Lexed
lex_k_pls_integer = lex_word 198 "PLS_INTEGER"

abbrev pub lex_k_positive : String → Option Lexed
lex_k_positive = lex_word 167 "POSITIVE"

abbrev pub lex_k_preceding : String → Option Lexed
lex_k_preceding = lex_word 354 "PRECEDING"

abbrev pub lex_k_precision : String → Option Lexed
lex_k_precision = lex_word k_precision "PRECISION"

abbrev pub lex_k_present : String → Option Lexed
lex_k_present = lex_word 279 "PRESENT"

abbrev pub lex_k_primary : String → Option Lexed
lex_k_primary = lex_word 63 "PRIMARY"

abbrev pub lex_k_prior : String → Option Lexed
lex_k_prior = lex_word 139 "PRIOR"

abbrev pub lex_k_private : String → Option Lexed
lex_k_private = lex_word 505 "PRIVATE"

abbrev pub lex_k_privileges : String → Option Lexed
lex_k_privileges = lex_word 393 "PRIVILEGES"

abbrev pub lex_k_procedure : String → Option Lexed
lex_k_procedure = lex_word 365 "PROCEDURE"

abbrev pub lex_k_profile : String → Option Lexed
lex_k_profile = lex_word 506 "PROFILE"

abbrev pub lex_k_public : String → Option Lexed
lex_k_public = lex_word 394 "PUBLIC"

abbrev pub lex_t_599 : String → Option Lexed
lex_t_599 = lex_word 599 "QUARTER"

abbrev pub lex_k_quota : String → Option Lexed
lex_k_quota = lex_word 507 "QUOTA"

abbrev pub words_p : List Keyword
words_p =
    keyword 499 "PACKAGE" lex_k_package refl
    ∷ keyword 589 "PACK_KEYS" lex_t_589 refl
    ∷ keyword 500 "PARALLEL" lex_k_parallel refl
    ∷ keyword 572 "PARTIAL" lex_t_572 refl
    ∷ keyword 245 "PARTITION" lex_k_partition refl
    ∷ keyword 590 "PASSWORD" lex_t_590 refl
    ∷ keyword 392 "PCTFREE" lex_k_pctfree refl
    ∷ keyword 501 "PCTINCREASE" lex_k_pctincrease refl
    ∷ keyword 502 "PCTUSED" lex_k_pctused refl
    ∷ keyword 330 "PERCENTILE_CONT" lex_k_percentile_cont refl
    ∷ keyword 331 "PERCENTILE_DISC" lex_k_percentile_disc refl
    ∷ keyword 329 "PERCENT_RANK" lex_k_percent_rank refl
    ∷ keyword 366 "PIVOT" lex_k_pivot refl
    ∷ keyword 503 "PLAN" lex_k_plan refl
    ∷ keyword 504 "PLI" lex_k_pli refl
    ∷ keyword 198 "PLS_INTEGER" lex_k_pls_integer refl
    ∷ keyword 167 "POSITIVE" lex_k_positive refl
    ∷ keyword 354 "PRECEDING" lex_k_preceding refl
    ∷ keyword k_precision "PRECISION" lex_k_precision refl
    ∷ keyword 279 "PRESENT" lex_k_present refl
    ∷ keyword 63 "PRIMARY" lex_k_primary refl
    ∷ keyword 139 "PRIOR" lex_k_prior refl
    ∷ keyword 505 "PRIVATE" lex_k_private refl
    ∷ keyword 393 "PRIVILEGES" lex_k_privileges refl
    ∷ keyword 365 "PROCEDURE" lex_k_procedure refl
    ∷ keyword 506 "PROFILE" lex_k_profile refl
    ∷ keyword 394 "PUBLIC" lex_k_public refl
    ∷ []

abbrev pub words_q : List Keyword
words_q = keyword 599 "QUARTER" lex_t_599 refl ∷ keyword 507 "QUOTA" lex_k_quota refl ∷ []
