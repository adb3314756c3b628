-- ===== src/Lexer/Words/Keywords/M.antt =====
-- The rules for the keywords that begin with M. A type that has no name in TokenTypes is
-- written as the number of mysqlLexer.h.
use pgify.Base.{String, refl, Option, List, [], ◌∷◌}
use pgify.Lexer.{Lexed}
use pgify.Lexer.Words.{lex_word}
use pgify.Lexer.Words.Keyword.{Keyword, keyword}

abbrev pub lex_k_main : String → Option Lexed
lex_k_main = lex_word 298 "MAIN"

abbrev pub lex_k_manage : String → Option Lexed
lex_k_manage = lex_word 471 "MANAGE"

abbrev pub lex_k_manual : String → Option Lexed
lex_k_manual = lex_word 472 "MANUAL"

abbrev pub lex_t_571 : String → Option Lexed
lex_t_571 = lex_word 571 "MATCH"

abbrev pub lex_k_matched : String → Option Lexed
lex_k_matched = lex_word 93 "MATCHED"

abbrev pub lex_k_max : String → Option Lexed
lex_k_max = lex_word 326 "MAX"

abbrev pub lex_k_maxdatafiles : String → Option Lexed
lex_k_maxdatafiles = lex_word 473 "MAXDATAFILES"

abbrev pub lex_k_maxextents : String → Option Lexed
lex_k_maxextents = lex_word 385 "MAXEXTENTS"

abbrev pub lex_k_maxinstances : String → Option Lexed
lex_k_maxinstances = lex_word 474 "MAXINSTANCES"

abbrev pub lex_k_maxlogfiles : String → Option Lexed
lex_k_maxlogfiles = lex_word 475 "MAXLOGFILES"

abbrev pub lex_k_maxloghistory : String → Option Lexed
lex_k_maxloghistory = lex_word 476 "MAXLOGHISTORY"

abbrev pub lex_k_maxlogmembers : String → Option Lexed
lex_k_maxlogmembers = lex_word 477 "MAXLOGMEMBERS"

abbrev pub lex_k_maxtrans : String → Option Lexed
lex_k_maxtrans = lex_word 478 "MAXTRANS"

abbrev pub lex_k_maxvalue : String → Option Lexed
lex_k_maxvalue = lex_word 240 "MAXVALUE"

abbrev pub lex_t_587 : String → Option Lexed
lex_t_587 = lex_word 587 "MAX_ROWS"

abbrev pub lex_k_measures : String → Option Lexed
lex_k_measures = lex_word 299 "MEASURES"

abbrev pub lex_k_member : String → Option Lexed
lex_k_member = lex_word 284 "MEMBER"

abbrev pub lex_t_570 : String → Option Lexed
lex_t_570 = lex_word 570 "MEMORY"

abbrev pub lex_k_merge : String → Option Lexed
lex_k_merge = lex_word 90 "MERGE"

abbrev pub lex_t_595 : String → Option Lexed
lex_t_595 = lex_word 595 "MICROSECOND"

abbrev pub lex_k_min : String → Option Lexed
lex_k_min = lex_word 327 "MIN"

abbrev pub lex_k_minextents : String → Option Lexed
lex_k_minextents = lex_word 479 "MINEXTENTS"

abbrev pub lex_k_minus : String → Option Lexed
lex_k_minus = lex_word 312 "MINUS"

abbrev pub lex_t_596 : String → Option Lexed
lex_t_596 = lex_word 596 "MINUTE"

abbrev pub lex_k_minvalue : String → Option Lexed
lex_k_minvalue = lex_word 480 "MINVALUE"

abbrev pub lex_t_588 : String → Option Lexed
lex_t_588 = lex_word 588 "MIN_ROWS"

abbrev pub lex_k_mivalue : String → Option Lexed
lex_k_mivalue = lex_word 238 "MIVALUE"

abbrev pub lex_k_mlslabel : String → Option Lexed
lex_k_mlslabel = lex_word 197 "MLSLABEL"

abbrev pub lex_k_mode : String → Option Lexed
lex_k_mode = lex_word 364 "MODE"

abbrev pub lex_k_model : String → Option Lexed
lex_k_model = lex_word 289 "MODEL"

abbrev pub lex_k_modify : String → Option Lexed
lex_k_modify = lex_word 386 "MODIFY"

abbrev pub lex_k_module : String → Option Lexed
lex_k_module = lex_word 481 "MODULE"

abbrev pub lex_k_month : String → Option Lexed
lex_k_month = lex_word 145 "MONTH"

abbrev pub lex_k_mount : String → Option Lexed
lex_k_mount = lex_word 482 "MOUNT"

abbrev pub lex_k_multiset : String → Option Lexed
lex_k_multiset = lex_word 162 "MULTISET"

abbrev pub lex_k_myisam : String → Option Lexed
lex_k_myisam = lex_word 86 "MYISAM"

abbrev pub words_m : List Keyword
words_m =
    keyword 298 "MAIN" lex_k_main refl
    ∷ keyword 471 "MANAGE" lex_k_manage refl
    ∷ keyword 472 "MANUAL" lex_k_manual refl
    ∷ keyword 571 "MATCH" lex_t_571 refl
    ∷ keyword 93 "MATCHED" lex_k_matched refl
    ∷ keyword 326 "MAX" lex_k_max refl
    ∷ keyword 473 "MAXDATAFILES" lex_k_maxdatafiles refl
    ∷ keyword 385 "MAXEXTENTS" lex_k_maxextents refl
    ∷ keyword 474 "MAXINSTANCES" lex_k_maxinstances refl
    ∷ keyword 475 "MAXLOGFILES" lex_k_maxlogfiles refl
    ∷ keyword 476 "MAXLOGHISTORY" lex_k_maxloghistory refl
    ∷ keyword 477 "MAXLOGMEMBERS" lex_k_maxlogmembers refl
    ∷ keyword 478 "MAXTRANS" lex_k_maxtrans refl
    ∷ keyword 240 "MAXVALUE" lex_k_maxvalue refl
    ∷ keyword 587 "MAX_ROWS" lex_t_587 refl
    ∷ keyword 299 "MEASURES" lex_k_measures refl
    ∷ keyword 284 "MEMBER" lex_k_member refl
    ∷ keyword 570 "MEMORY" lex_t_570 refl
    ∷ keyword 90 "MERGE" lex_k_merge refl
    ∷ keyword 595 "MICROSECOND" lex_t_595 refl
    ∷ keyword 327 "MIN" lex_k_min refl
    ∷ keyword 479 "MINEXTENTS" lex_k_minextents refl
    ∷ keyword 312 "MINUS" lex_k_minus refl
    ∷ keyword 596 "MINUTE" lex_t_596 refl
    ∷ keyword 480 "MINVALUE" lex_k_minvalue refl
    ∷ keyword 588 "MIN_ROWS" lex_t_588 refl
    ∷ keyword 238 "MIVALUE" lex_k_mivalue refl
    ∷ keyword 197 "MLSLABEL" lex_k_mlslabel refl
    ∷ keyword 364 "MODE" lex_k_mode refl
    ∷ keyword 289 "MODEL" lex_k_model refl
    ∷ keyword 386 "MODIFY" lex_k_modify refl
    ∷ keyword 481 "MODULE" lex_k_module refl
    ∷ keyword 145 "MONTH" lex_k_month refl
    ∷ keyword 482 "MOUNT" lex_k_mount refl
    ∷ keyword 162 "MULTISET" lex_k_multiset refl
    ∷ keyword 86 "MYISAM" lex_k_myisam refl
    ∷ []
