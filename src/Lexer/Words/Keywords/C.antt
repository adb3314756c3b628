-- ===== src/Lexer/Words/Keywords/C.antt =====
-- The rules for the keywords that begin with C. A type that has no name in TokenTypes is
-- written as the number of mysqlLexer.h.
use pgify.Base.{String, refl, Option, List, [], ◌∷◌}
use pgify.Lexer.{Lexed}
use pgify.Lexer.Words.{lex_word}
use pgify.Lexer.Words.Keyword.{Keyword, keyword}

abbrev pub lex_k_cache : String → Option Lexed
lex_k_cache = lex_word 422 "CACHE"

abbrev pub lex_k_cancel : String → Option Lexed
lex_k_cancel = lex_word 423 "CANCEL"

abbrev pub lex_k_cascade : String → Option Lexed
lex_k_cascade = lex_word 82 "CASCADE"

abbrev pub lex_k_case : String → Option Lexed
lex_k_case = lex_word 151 "CASE"

abbrev pub lex_k_cast : String → Option Lexed
lex_k_cast = lex_word 161 "CAST"

abbrev pub lex_k_change : String → Option Lexed
lex_k_change = lex_word 424 "CHANGE"

abbrev pub lex_k_char : String → Option Lexed
lex_k_char = lex_word 188 "CHAR"

abbrev pub lex_k_character : String → Option Lexed
lex_k_character = lex_word 48 "CHARACTER"

abbrev pub lex_k_charset : String → Option Lexed
lex_k_charset = lex_word 50 "CHARSET"

abbrev pub lex_k_check : String → Option Lexed
lex_k_check = lex_word 248 "CHECK"

abbrev pub lex_k_checkpoint : String → Option Lexed
lex_k_checkpoint = lex_word 425 "CHECKPOINT"

abbrev pub lex_t_581 : String → Option Lexed
lex_t_581 = lex_word 581 "CHECKSUM"

abbrev pub lex_k_clob : String → Option Lexed
lex_k_clob = lex_word 203 "CLOB"

abbrev pub lex_k_close : String → Option Lexed
lex_k_close = lex_word 426 "CLOSE"

abbrev pub lex_k_cluster : String → Option Lexed
lex_k_cluster = lex_word 376 "CLUSTER"

abbrev pub lex_k_cluster_set : String → Option Lexed
lex_k_cluster_set = lex_word 160 "CLUSTER_SET"

abbrev pub lex_k_cobol : String → Option Lexed
lex_k_cobol = lex_word 427 "COBOL"

abbrev pub lex_k_collate : String → Option Lexed
lex_k_collate = lex_word 52 "COLLATE"

abbrev pub lex_k_column : String → Option Lexed
lex_k_column = lex_word 377 "COLUMN"

abbrev pub lex_t_567 : String → Option Lexed
lex_t_567 = lex_word 567 "COLUMNS"

abbrev pub lex_k_column_format : String → Option Lexed
lex_k_column_format = lex_word 67 "COLUMN_FORMAT"

abbrev pub lex_k_column_value : String → Option Lexed
lex_k_column_value = lex_word 229 "COLUMN_VALUE"

abbrev pub lex_k_comment : String → Option Lexed
lex_k_comment = lex_word 65 "COMMENT"

abbrev pub lex_k_commit : String → Option Lexed
lex_k_commit = lex_word 428 "COMMIT"

abbrev pub lex_t_594 : String → Option Lexed
lex_t_594 = lex_word 594 "COMPACT"

abbrev pub lex_k_compile : String → Option Lexed
lex_k_compile = lex_word 429 "COMPILE"

abbrev pub lex_k_compress : String → Option Lexed
lex_k_compress = lex_word 378 "COMPRESS"

abbrev pub lex_t_592 : String → Option Lexed
lex_t_592 = lex_word 592 "COMPRESSED"

abbrev pub lex_k_concat : String → Option Lexed
lex_k_concat = lex_word 149 "CONCAT"

abbrev pub lex_k_concat_ws : String → Option Lexed
lex_k_concat_ws = lex_word 150 "CONCAT_WS"

abbrev pub lex_k_connect : String → Option Lexed
lex_k_connect = lex_word 257 "CONNECT"

abbrev pub lex_t_582 : String → Option Lexed
lex_t_582 = lex_word 582 "CONNECTION"

abbrev pub lex_k_connect_by_iscycle : String → Option Lexed
lex_k_connect_by_iscycle = lex_word 222 "CONNECT_BY_ISCYCLE"

abbrev pub lex_k_connect_by_isleaf : String → Option Lexed
lex_k_connect_by_isleaf = lex_word 221 "CONNECT_BY_ISLEAF"

abbrev pub lex_k_connect_by_root : String → Option Lexed
lex_k_connect_by_root = lex_word 140 "CONNECT_BY_ROOT"

abbrev pub lex_k_constraint : String → Option Lexed
lex_k_constraint = lex_word 83 "CONSTRAINT"

abbrev pub lex_k_constraints : String → Option Lexed
lex_k_constraints = lex_word 430 "CONSTRAINTS"

abbrev pub lex_k_contents : String → Option Lexed
lex_k_contents = lex_word 431 "CONTENTS"

abbrev pub lex_k_continue : String → Option Lexed
lex_k_continue = lex_word 432 "CONTINUE"

abbrev pub lex_k_controlfile : String → Option Lexed
lex_k_controlfile = lex_word 433 "CONTROLFILE"

abbrev pub lex_k_corr : String → Option Lexed
lex_k_corr = lex_word 316 "CORR"

abbrev pub lex_k_count : String → Option Lexed
lex_k_count = lex_word 319 "COUNT"

abbrev pub lex_k_covar_pop : String → Option Lexed
lex_k_covar_pop = lex_word 317 "COVAR_POP"

abbrev pub lex_k_covar_samp : String → Option Lexed
lex_k_covar_samp = lex_word 318 "COVAR_SAMP"

abbrev pub lex_k_create : String → Option Lexed
lex_k_create = lex_word 45 "CREATE"

abbrev pub lex_k_cross : String → Option Lexed
lex_k_cross = lex_word 252 "CROSS"

abbrev pub lex_k_cube : String → Option Lexed
lex_k_cube = lex_word 262 "CUBE"

abbrev pub lex_k_cume_dist : String → Option Lexed
lex_k_cume_dist = lex_word 320 "CUME_DIST"

abbrev pub lex_k_current : String → Option Lexed
lex_k_current = lex_word 356 "CURRENT"

abbrev pub lex_k_cursor : String → Option Lexed
lex_k_cursor = lex_word 434 "CURSOR"

abbrev pub lex_k_cycle : String → Option Lexed
lex_k_cycle = lex_word 123 "CYCLE"

abbrev pub words_c : List Keyword
words_c =
    keyword 422 "CACHE" lex_k_cache refl
    ∷ keyword 423 "CANCEL" lex_k_cancel refl
    ∷ keyword 82 "CASCADE" lex_k_cascade refl
    ∷ keyword 151 "CASE" lex_k_case refl
    ∷ keyword 161 "CAST" lex_k_cast refl
    ∷ keyword 424 "CHANGE" lex_k_change refl
    ∷ keyword 188 "CHAR" lex_k_char refl
    ∷ keyword 48 "CHARACTER" lex_k_character refl
    ∷ keyword 50 "CHARSET" lex_k_charset refl
    ∷ keyword 248 "CHECK" lex_k_check refl
    ∷ keyword 425 "CHECKPOINT" lex_k_checkpoint refl
    ∷ keyword 581 "CHECKSUM" lex_t_581 refl
    ∷ keyword 203 "CLOB" lex_k_clob refl
    ∷ keyword 426 "CLOSE" lex_k_close refl
    ∷ keyword 376 "CLUSTER" lex_k_cluster refl
    ∷ keyword 160 "CLUSTER_SET" lex_k_cluster_set refl
    ∷ keyword 427 "COBOL" lex_k_cobol refl
    ∷ keyword 52 "COLLATE" lex_k_collate refl
    ∷ keyword 377 "COLUMN" lex_k_column refl
    ∷ keyword 567 "COLUMNS" lex_t_567 refl
    ∷ keyword 67 "COLUMN_FORMAT" lex_k_column_format refl
    ∷ keyword 229 "COLUMN_VALUE" lex_k_column_value refl
    ∷ keyword 65 "COMMENT" lex_k_comment refl
    ∷ keyword 428 "COMMIT" lex_k_commit refl
    ∷ keyword 594 "COMPACT" lex_t_594 refl
    ∷ keyword 429 "COMPILE" lex_k_compile refl
    ∷ keyword 378 "COMPRESS" lex_k_compress refl
    ∷ keyword 592 "COMPRESSED" lex_t_592 refl
    ∷ keyword 149 "CONCAT" lex_k_concat refl
    ∷ keyword 150 "CONCAT_WS" lex_k_concat_ws refl
    ∷ keyword 257 "CONNECT" lex_k_connect refl
    ∷ keyword 582 "CONNECTION" lex_t_582 refl
    ∷ keyword 222 "CONNECT_BY_ISCYCLE" lex_k_connect_by_iscycle refl
    ∷ keyword 221 "CONNECT_BY_ISLEAF" lex_k_connect_by_isleaf refl
    ∷ keyword 140 "CONNECT_BY_ROOT" lex_k_connect_by_root refl
    ∷ keyword 83 "CONSTRAINT" lex_k_constraint refl
    ∷ keyword 430 "CONSTRAINTS" lex_k_constraints refl
    ∷ keyword 431 "CONTENTS" lex_k_contents refl
    ∷ keyword 432 "CONTINUE" lex_k_continue refl
    ∷ keyword 433 "CONTROLFILE" lex_k_controlfile refl
    ∷ keyword 316 "CORR" lex_k_corr refl
    ∷ keyword 319 "COUNT" lex_k_count refl
    ∷ keyword 317 "COVAR_POP" lex_k_covar_pop refl
    ∷ keyword 318 "COVAR_SAMP" lex_k_covar_samp refl
    ∷ keyword 45 "CREATE" lex_k_create refl
    ∷ keyword 252 "CROSS" lex_k_cross refl
    ∷ keyword 262 "CUBE" lex_k_cube refl
    ∷ keyword 320 "CUME_DIST" lex_k_cume_dist refl
    ∷ keyword 356 "CURRENT" lex_k_current refl
    ∷ keyword 434 "CURSOR" lex_k_cursor refl
    ∷ keyword 123 "CYCLE" lex_k_cycle refl
    ∷ []
