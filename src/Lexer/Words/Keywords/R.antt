-- ===== src/Lexer/Words/Keywords/R.antt =====
-- The rules for the keywords that begin with R. A type that has no name in TokenTypes is
-- written as the number of mysqlLexer.h.
use pgify.Base.{String, refl, Option, List, [], ◌∷◌}
use pgify.Lexer.{Lexed}
use pgify.Lexer.Words.{lex_word}
use pgify.Lexer.Words.Keyword.{Keyword, keyword}

abbrev pub lex_k_range : String → Option Lexed
lex_k_range = lex_word 358 "RANGE"

abbrev pub lex_k_rank : String → Option Lexed
lex_k_rank = lex_word 332 "RANK"

abbrev pub lex_k_ratio_to_report : String → Option Lexed
lex_k_ratio_to_report = lex_word 333 "RATIO_TO_REPORT"

abbrev pub lex_k_raw : String → Option Lexed
lex_k_raw = lex_word 173 "RAW"

abbrev pub lex_k_read : String → Option Lexed
lex_k_read = lex_word 35 "READ"

abbrev pub lex_k_real : String → Option Lexed
lex_k_real = lex_word 181 "REAL"

abbrev pub lex_k_recover : String → Option Lexed
lex_k_recover = lex_word 508 "RECOVER"

abbrev pub lex_t_593 : String → Option Lexed
lex_t_593 = lex_word 593 "REDUNDANT"

abbrev pub lex_k_reference : String → Option Lexed
lex_k_reference = lex_word 295 "REFERENCE"

abbrev pub lex_k_references : String → Option Lexed
lex_k_references = lex_word 79 "REFERENCES"

abbrev pub lex_k_referencing : String → Option Lexed
lex_k_referencing = lex_word 509 "REFERENCING"

abbrev pub lex_k_regexp_like : String → Option Lexed
lex_k_regexp_like = lex_word 285 "REGEXP_LIKE"

abbrev pub lex_k_regr_avgx : String → Option Lexed
lex_k_regr_avgx = lex_word 338 "REGR_AVGX"

abbrev pub lex_k_regr_avgy : String → Option Lexed
lex_k_regr_avgy = lex_word 339 "REGR_AVGY"

abbrev pub lex_k_regr_count : String → Option Lexed
lex_k_regr_count = lex_word 336 "REGR_COUNT"

abbrev pub lex_k_regr_intercept : String → Option Lexed
lex_k_regr_intercept = lex_word 335 "REGR_INTERCEPT"

abbrev pub lex_k_regr_r2 : String → Option Lexed
lex_k_regr_r2 = lex_word 337 "REGR_R2"

abbrev pub lex_k_regr_slope : String → Option Lexed
lex_k_regr_slope = lex_word 334 "REGR_SLOPE"

abbrev pub lex_k_regr_sxx : String → Option Lexed
lex_k_regr_sxx = lex_word 340 "REGR_SXX"

abbrev pub lex_k_regr_sxy : String → Option Lexed
lex_k_regr_sxy = lex_word 342 "REGR_SXY"

abbrev pub lex_k_regr_syy : String → Option Lexed
lex_k_regr_syy = lex_word 341 "REGR_SYY"

abbrev pub lex_k_reject : String → Option Lexed
lex_k_reject = lex_word 107 "REJECT"

abbrev pub lex_k_rename : String → Option Lexed
lex_k_rename = lex_word 395 "RENAME"

abbrev pub lex_k_resetlogs : String → Option Lexed
lex_k_resetlogs = lex_word 510 "RESETLOGS"

abbrev pub lex_k_resource : String → Option Lexed
lex_k_resource = lex_word 396 "RESOURCE"

abbrev pub lex_k_respect : String → Option Lexed
lex_k_respect = lex_word 351 "RESPECT"

abbrev pub lex_k_restrict : String → Option Lexed
lex_k_restrict = lex_word 81 "RESTRICT"

abbrev pub lex_k_restricted : String → Option Lexed
lex_k_restricted = lex_word 511 "RESTRICTED"

abbrev pub lex_k_return : String → Option Lexed
lex_k_return = lex_word 99 "RETURN"

abbrev pub lex_k_returning : String → Option Lexed
lex_k_returning = lex_word 100 "RETURNING"

abbrev pub lex_k_reuse : String → Option Lexed
lex_k_reuse = lex_word 512 "REUSE"

abbrev pub lex_k_revoke : String → Option Lexed
lex_k_revoke = lex_word 397 "REVOKE"

abbrev pub lex_k_right : String → Option Lexed
lex_k_right = lex_word 254 "RIGHT"

abbrev pub lex_k_role : String → Option Lexed
lex_k_role = lex_word 513 "ROLE"

abbrev pub lex_k_roles : String → Option Lexed
lex_k_roles = lex_word 514 "ROLES"

abbrev pub lex_k_rollback : String → Option Lexed
lex_k_rollback = lex_word 515 "ROLLBACK"

abbrev pub lex_k_rollup : String → Option Lexed
lex_k_rollup = lex_word 261 "ROLLUP"

abbrev pub lex_k_row : String → Option Lexed
lex_k_row = lex_word 357 "ROW"

abbrev pub lex_k_rowid : String → Option Lexed
lex_k_rowid = lex_word 206 "ROWID"

abbrev pub lex_k_rowlabel : String → Option Lexed
lex_k_rowlabel = lex_word 398 "ROWLABEL"

abbrev pub lex_k_rownum : String → Option Lexed
lex_k_rownum = lex_word 219 "ROWNUM"

abbrev pub lex_k_rows : String → Option Lexed
lex_k_rows = lex_word 297 "ROWS"

abbrev pub lex_t_591 : String → Option Lexed
lex_t_591 = lex_word 591 "ROW_FORMAT"

abbrev pub lex_k_row_number : String → Option Lexed
lex_k_row_number = lex_word 343 "ROW_NUMBER"

abbrev pub lex_k_rules : String → Option Lexed
lex_k_rules = lex_word 300 "RULES"

abbrev pub words_r : List Keyword
words_r =
    keyword 358 "RANGE" lex_k_range refl
    ∷ keyword 332 "RANK" lex_k_rank refl
    ∷ keyword 333 "RATIO_TO_REPORT" lex_k_ratio_to_report refl
    ∷ keyword 173 "RAW" lex_k_raw refl
    ∷ keyword 35 "READ" lex_k_read refl
    ∷ keyword 181 "REAL" lex_k_real refl
    ∷ keyword 508 "RECOVER" lex_k_recover refl
    ∷ keyword 593 "REDUNDANT" lex_t_593 refl
    ∷ keyword 295 "REFERENCE" lex_k_reference refl
    ∷ keyword 79 "REFERENCES" lex_k_references refl
    ∷ keyword 509 "REFERENCING" lex_k_referencing refl
    ∷ keyword 285 "REGEXP_LIKE" lex_k_regexp_like refl
    ∷ keyword 338 "REGR_AVGX" lex_k_regr_avgx refl
    ∷ keyword 339 "REGR_AVGY" lex_k_regr_avgy refl
    ∷ keyword 336 "REGR_COUNT" lex_k_regr_count refl
    ∷ keyword 335 "REGR_INTERCEPT" lex_k_regr_intercept refl
    ∷ keyword 337 "REGR_R2" lex_k_regr_r2 refl
    ∷ keyword 334 "REGR_SLOPE" lex_k_regr_slope refl
    ∷ keyword 340 "REGR_SXX" lex_k_regr_sxx refl
    ∷ keyword 342 "REGR_SXY" lex_k_regr_sxy refl
    ∷ keyword 341 "REGR_SYY" lex_k_regr_syy refl
    ∷ keyword 107 "REJECT" lex_k_reject refl
    ∷ keyword 395 "RENAME" lex_k_rename refl
    ∷ keyword 510 "RESETLOGS" lex_k_resetlogs refl
    ∷ keyword 396 "RESOURCE" lex_k_resource refl
    ∷ keyword 351 "RESPECT" lex_k_respect refl
    ∷ keyword 81 "RESTRICT" lex_k_restrict refl
    ∷ keyword 511 "RESTRICTED" lex_k_restricted refl
    ∷ keyword 99 "RETURN" lex_k_return refl
    ∷ keyword 100 "RETURNING" lex_k_returning refl
    ∷ keyword 512 "REUSE" lex_k_reuse refl
    ∷ keyword 397 "REVOKE" lex_k_revoke refl
    ∷ keyword 254 "RIGHT" lex_k_right refl
    ∷ keyword 513 "ROLE" lex_k_role refl
    ∷ keyword 514 "ROLES" lex_k_roles refl
    ∷ keyword 515 "ROLLBACK" lex_k_rollback refl
    ∷ keyword 261 "ROLLUP" lex_k_rollup refl
    ∷ keyword 357 "ROW" lex_k_row refl
    ∷ keyword 206 "ROWID" lex_k_rowid refl
    ∷ keyword 398 "ROWLABEL" lex_k_rowlabel refl
    ∷ keyword 219 "ROWNUM" lex_k_rownum refl
    ∷ keyword 297 "ROWS" lex_k_rows refl
    ∷ keyword 591 "ROW_FORMAT" lex_t_591 refl
    ∷ keyword 343 "ROW_NUMBER" lex_k_row_number refl
    ∷ keyword 300 "RULES" lex_k_rules refl
    ∷ []
