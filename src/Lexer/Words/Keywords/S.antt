-- ===== src/Lexer/Words/Keywords/S.antt =====
-- The rules for the keywords that begin with S. A type that has no name in TokenTypes is
-- written as the number of mysqlLexer.h.
use pgify.Base.{String, refl, Option, List, [], ◌∷◌}
use pgify.Lexer.{Lexed}
use pgify.Lexer.Words.{lex_word}
use pgify.Lexer.Words.Keyword.{Keyword, keyword}
use pgify.TokenTypes.{k_set, k_show}

abbrev pub lex_k_sample : String → Option Lexed
lex_k_sample = lex_word 242 "SAMPLE"

abbrev pub lex_k_savepoint : String → Option Lexed
lex_k_savepoint = lex_word 516 "SAVEPOINT"

abbrev pub lex_k_schema : String → Option Lexed
lex_k_schema = lex_word 517 "SCHEMA"

abbrev pub lex_k_scn : String → Option Lexed
lex_k_scn = lex_word 237 "SCN"

abbrev pub lex_k_search : String → Option Lexed
lex_k_search = lex_word 117 "SEARCH"

abbrev pub lex_k_second : String → Option Lexed
lex_k_second = lex_word 178 "SECOND"

abbrev pub lex_k_section : String → Option Lexed
lex_k_section = lex_word 518 "SECTION"

abbrev pub lex_k_seed : String → Option Lexed
lex_k_seed = lex_word 244 "SEED"

abbrev pub lex_k_segment : String → Option Lexed
lex_k_segment = lex_word 519 "SEGMENT"

abbrev pub lex_k_select : String → Option Lexed
lex_k_select = lex_word 111 "SELECT"

abbrev pub lex_k_sequence : String → Option Lexed
lex_k_sequence = lex_word 520 "SEQUENCE"

abbrev pub lex_k_sequential : String → Option Lexed
lex_k_sequential = lex_word 303 "SEQUENTIAL"

abbrev pub lex_k_session : String → Option Lexed
lex_k_session = lex_word 399 "SESSION"

abbrev pub lex_k_sessiontimezone : String → Option Lexed
lex_k_sessiontimezone = lex_word 158 "SESSIONTIMEZONE"

abbrev pub lex_k_set : String → Option Lexed
lex_k_set = lex_word k_set "SET"

abbrev pub lex_k_sets : String → Option Lexed
lex_k_sets = lex_word 264 "SETS"

abbrev pub lex_k_share : String → Option Lexed
lex_k_share = lex_word 363 "SHARE"

abbrev pub lex_k_shared : String → Option Lexed
lex_k_shared = lex_word 521 "SHARED"

abbrev pub lex_k_show : String → Option Lexed
lex_k_show = lex_word k_show "SHOW"

abbrev pub lex_k_siblings : String → Option Lexed
lex_k_siblings = lex_word 313 "SIBLINGS"

abbrev pub lex_t_573 : String → Option Lexed
lex_t_573 = lex_word 573 "SIMPLE"

abbrev pub lex_k_single : String → Option Lexed
lex_k_single = lex_word 294 "SINGLE"

abbrev pub lex_k_size : String → Option Lexed
lex_k_size = lex_word 400 "SIZE"

abbrev pub lex_k_skip : String → Option Lexed
lex_k_skip = lex_word 361 "SKIP"

abbrev pub lex_k_smallint : String → Option Lexed
lex_k_smallint = lex_word 213 "SMALLINT"

abbrev pub lex_k_snapshot : String → Option Lexed
lex_k_snapshot = lex_word 522 "SNAPSHOT"

abbrev pub lex_k_some : String → Option Lexed
lex_k_some = lex_word 275 "SOME"

abbrev pub lex_k_sort : String → Option Lexed
lex_k_sort = lex_word 523 "SORT"

abbrev pub lex_k_sql : String → Option Lexed
lex_k_sql = lex_word 153 "SQL"

abbrev pub lex_k_sqlbuf : String → Option Lexed
lex_k_sqlbuf = lex_word 401 "SQLBUF"

abbrev pub lex_k_sqlcode : String → Option Lexed
lex_k_sqlcode = lex_word 524 "SQLCODE"

abbrev pub lex_k_sqlerror : String → Option Lexed
lex_k_sqlerror = lex_word 525 "SQLERROR"

abbrev pub lex_k_sqlstate : String → Option Lexed
lex_k_sqlstate = lex_word 526 "SQLSTATE"

abbrev pub lex_k_sql_big_result : String → Option Lexed
lex_k_sql_big_result = lex_word 128 "SQL_BIG_RESULT"

abbrev pub lex_k_sql_buffer_result : String → Option Lexed
lex_k_sql_buffer_result = lex_word 129 "SQL_BUFFER_RESULT"

abbrev pub lex_k_sql_cache : String → Option Lexed
lex_k_sql_cache = lex_word 130 "SQL_CACHE"

abbrev pub lex_k_sql_calc_found_rows : String → Option Lexed
lex_k_sql_calc_found_rows = lex_word 132 "SQL_CALC_FOUND_ROWS"

abbrev pub lex_k_sql_no_cache : String → Option Lexed
lex_k_sql_no_cache = lex_word 131 "SQL_NO_CACHE"

abbrev pub lex_k_sql_small_result : String → Option Lexed
lex_k_sql_small_result = lex_word 127 "SQL_SMALL_RESULT"

abbrev pub lex_k_start : String → Option Lexed
lex_k_start = lex_word 259 "START"

abbrev pub lex_k_statement_id : String → Option Lexed
lex_k_statement_id = lex_word 527 "STATEMENT"

abbrev pub lex_t_606 : String → Option Lexed
lex_t_606 = lex_word 606 "STATEMENT_ID"

abbrev pub lex_k_statistics : String → Option Lexed
lex_k_statistics = lex_word 528 "STATISTICS"

abbrev pub lex_k_stddev : String → Option Lexed
lex_k_stddev = lex_word 344 "STDDEV"

abbrev pub lex_k_stddev_pop : String → Option Lexed
lex_k_stddev_pop = lex_word 345 "STDDEV_POP"

abbrev pub lex_k_stddev_samp : String → Option Lexed
lex_k_stddev_samp = lex_word 346 "STDDEV_SAMP"

abbrev pub lex_k_stop : String → Option Lexed
lex_k_stop = lex_word 529 "STOP"

abbrev pub lex_k_storage : String → Option Lexed
lex_k_storage = lex_word 70 "STORAGE"

abbrev pub lex_k_straight_join : String → Option Lexed
lex_k_straight_join = lex_word 126 "STRAIGHT_JOIN"

abbrev pub lex_k_submultiset : String → Option Lexed
lex_k_submultiset = lex_word 286 "SUBMULTISET"

abbrev pub lex_k_subpartition : String → Option Lexed
lex_k_subpartition = lex_word 247 "SUBPARTITION"

abbrev pub lex_k_successful : String → Option Lexed
lex_k_successful = lex_word 402 "SUCCESSFUL"

abbrev pub lex_k_sum : String → Option Lexed
lex_k_sum = lex_word 347 "SUM"

abbrev pub lex_k_switch : String → Option Lexed
lex_k_switch = lex_word 530 "SWITCH"

abbrev pub lex_k_synonym : String → Option Lexed
lex_k_synonym = lex_word 403 "SYNONYM"

abbrev pub lex_k_sysdate : String → Option Lexed
lex_k_sysdate = lex_word 218 "SYSDATE"

abbrev pub lex_k_system : String → Option Lexed
lex_k_system = lex_word 531 "SYSTEM"

abbrev pub words_s : List Keyword
words_s =
    keyword 242 "SAMPLE" lex_k_sample refl
    ∷ keyword 516 "SAVEPOINT" lex_k_savepoint refl
    ∷ keyword 517 "SCHEMA" lex_k_schema refl
    ∷ keyword 237 "SCN" lex_k_scn refl
    ∷ keyword 117 "SEARCH" lex_k_search refl
    ∷ keyword 178 "SECOND" lex_k_second refl
    ∷ keyword 518 "SECTION" lex_k_section refl
    ∷ keyword 244 "SEED" lex_k_seed refl
    ∷ keyword 519 "SEGMENT" lex_k_segment refl
    ∷ keyword 111 "SELECT" lex_k_select refl
    ∷ keyword 520 "SEQUENCE" lex_k_sequence refl
    ∷ keyword 303 "SEQUENTIAL" lex_k_sequential refl
    ∷ keyword 399 "SESSION" lex_k_session refl
    ∷ keyword 158 "SESSIONTIMEZONE" lex_k_sessiontimezone refl
    ∷ keyword k_set "SET" lex_k_set refl
    ∷ keyword 264 "SETS" lex_k_sets refl
    ∷ keyword 363 "SHARE" lex_k_share refl
    ∷ keyword 521 "SHARED" lex_k_shared refl
    ∷ keyword k_show "SHOW" lex_k_show refl
    ∷ keyword 313 "SIBLINGS" lex_k_siblings refl
    ∷ keyword 573 "SIMPLE" lex_t_573 refl
    ∷ keyword 294 "SINGLE" lex_k_single refl
    ∷ keyword 400 "SIZE" lex_k_size refl
    ∷ keyword 361 "SKIP" lex_k_skip refl
    ∷ keyword 213 "SMALLINT" lex_k_smallint refl
    ∷ keyword 522 "SNAPSHOT" lex_k_snapshot refl
    ∷ keyword 275 "SOME" lex_k_some refl
    ∷ keyword 523 "SORT" lex_k_sort refl
    ∷ keyword 153 "SQL" lex_k_sql refl
    ∷ keyword 401 "SQLBUF" lex_k_sqlbuf refl
    ∷ keyword 524 "SQLCODE" lex_k_sqlcode refl
    ∷ keyword 525 "SQLERROR" lex_k_sqlerror refl
    ∷ keyword 526 "SQLSTATE" lex_k_sqlstate refl
    ∷ keyword 128 "SQL_BIG_RESULT" lex_k_sql_big_result refl
    ∷ keyword 129 "SQL_BUFFER_RESULT" lex_k_sql_buffer_result refl
    ∷ keyword 130 "SQL_CACHE" lex_k_sql_cache refl
    ∷ keyword 132 "SQL_CALC_FOUND_ROWS" lex_k_sql_calc_found_rows refl
    ∷ keyword 131 "SQL_NO_CACHE" lex_k_sql_no_cache refl
    ∷ keyword 127 "SQL_SMALL_RESULT" lex_k_sql_small_result refl
    ∷ keyword 259 "START" lex_k_start refl
    ∷ keyword 527 "STATEMENT" lex_k_statement_id refl
    ∷ keyword 606 "STATEMENT_ID" lex_t_606 refl
    ∷ keyword 528 "STATISTICS" lex_k_statistics refl
    ∷ keyword 344 "STDDEV" lex_k_stddev refl
    ∷ keyword 345 "STDDEV_POP" lex_k_stddev_pop refl
    ∷ keyword 346 "STDDEV_SAMP" lex_k_stddev_samp refl
    ∷ keyword 529 "STOP" lex_k_stop refl
    ∷ keyword 70 "STORAGE" lex_k_storage refl
    ∷ keyword 126 "STRAIGHT_JOIN" lex_k_straight_join refl
    ∷ keyword 286 "SUBMULTISET" lex_k_submultiset refl
    ∷ keyword 247 "SUBPARTITION" lex_k_subpartition refl
    ∷ keyword 402 "SUCCESSFUL" lex_k_successful refl
    ∷ keyword 347 "SUM" lex_k_sum refl
    ∷ keyword 530 "SWITCH" lex_k_switch refl
    ∷ keyword 403 "SYNONYM" lex_k_synonym refl
    ∷ keyword 218 "SYSDATE" lex_k_sysdate refl
    ∷ keyword 531 "SYSTEM" lex_k_system refl
    ∷ []
