-- ===== src/Lexer/Words/Keywords/N.antt =====
-- The rules for the keywords that begin with N. A type that has no name in TokenTypes is
-- written as the number of mysqlLexer.h.
use pgify.Base.{String, refl, Option, List, [], ◌∷◌}
use pgify.Lexer.{Lexed}
use pgify.Lexer.Words.{lex_word}
use pgify.Lexer.Words.Keyword.{Keyword, keyword}
use pgify.TokenTypes.{k_not, k_null}

abbrev pub lex_k_nan : String → Option Lexed
lex_k_nan = lex_word 267 "NAN"

abbrev pub lex_k_national : String → Option Lexed
lex_k_national = lex_word 196 "NATIONAL"

abbrev pub lex_k_natural : String → Option Lexed
lex_k_natural = lex_word 166 "NATURAL"

abbrev pub lex_k_nav : String → Option Lexed
lex_k_nav = lex_word 292 "NAV"

abbrev pub lex_k_nchar : String → Option Lexed
lex_k_nchar = lex_word 193 "NCHAR"

abbrev pub lex_k_nclob : String → Option Lexed
lex_k_nclob = lex_word 204 "NCLOB"

abbrev pub lex_k_new : String → Option Lexed
lex_k_new = lex_word 483 "NEW"

abbrev pub lex_k_next : String → Option Lexed
lex_k_next = lex_word 484 "NEXT"

abbrev pub lex_t_574 : String → Option Lexed
lex_t_574 = lex_word 574 "NO"

abbrev pub lex_k_noarchivelog : String → Option Lexed
lex_k_noarchivelog = lex_word 485 "NOARCHIVELOG"

abbrev pub lex_k_noaudit : String → Option Lexed
lex_k_noaudit = lex_word 387 "NOAUDIT"

abbrev pub lex_k_nocache : String → Option Lexed
lex_k_nocache = lex_word 486 "NOCACHE"

abbrev pub lex_k_nocompress : String → Option Lexed
lex_k_nocompress = lex_word 388 "NOCOMPRESS"

abbrev pub lex_k_nocycle : String → Option Lexed
lex_k_nocycle = lex_word 258 "NOCYCLE"

abbrev pub lex_k_nomaxvalue : String → Option Lexed
lex_k_nomaxvalue = lex_word 487 "NOMAXVALUE"

abbrev pub lex_k_nominvalue : String → Option Lexed
lex_k_nominvalue = lex_word 488 "NOMINVALUE"

abbrev pub lex_k_none : String → Option Lexed
lex_k_none = lex_word 489 "NONE"

abbrev pub lex_k_noorder : String → Option Lexed
lex_k_noorder = lex_word 490 "NOORDER"

abbrev pub lex_k_noresetlogs : String → Option Lexed
lex_k_noresetlogs = lex_word 491 "NORESETLOGS"

abbrev pub lex_k_normal : String → Option Lexed
lex_k_normal = lex_word 492 "NORMAL"

abbrev pub lex_k_nosort : String → Option Lexed
lex_k_nosort = lex_word 493 "NOSORT"

abbrev pub lex_k_not : String → Option Lexed
lex_k_not = lex_word k_not "NOT"

abbrev pub lex_k_notfound : String → Option Lexed
lex_k_notfound = lex_word 389 "NOTFOUND"

abbrev pub lex_k_nowait : String → Option Lexed
lex_k_nowait = lex_word 359 "NOWAIT"

abbrev pub lex_k_ntile : String → Option Lexed
lex_k_ntile = lex_word 328 "NTILE"

abbrev pub lex_k_null : String → Option Lexed
lex_k_null = lex_word k_null "NULL"

abbrev pub lex_k_nullif : String → Option Lexed
lex_k_nullif = lex_word 147 "NULLIF"

abbrev pub lex_k_nulls : String → Option Lexed
lex_k_nulls = lex_word 121 "NULLS"

abbrev pub lex_k_number : String → Option Lexed
lex_k_number = lex_word 168 "NUMBER"

abbrev pub lex_k_numeric : String → Option Lexed
lex_k_numeric = lex_word 169 "NUMERIC"

abbrev pub lex_k_nvarchar : String → Option Lexed
lex_k_nvarchar = lex_word 194 "NVARCHAR"

abbrev pub lex_k_nvarchar2 : String → Option Lexed
lex_k_nvarchar2 = lex_word 195 "NVARCHAR2"

abbrev pub words_n : List Keyword
words_n =
    keyword 267 "NAN" lex_k_nan refl
    ∷ keyword 196 "NATIONAL" lex_k_national refl
    ∷ keyword 166 "NATURAL" lex_k_natural refl
    ∷ keyword 292 "NAV" lex_k_nav refl
    ∷ keyword 193 "NCHAR" lex_k_nchar refl
    ∷ keyword 204 "NCLOB" lex_k_nclob refl
    ∷ keyword 483 "NEW" lex_k_new refl
    ∷ keyword 484 "NEXT" lex_k_next refl
    ∷ keyword 574 "NO" lex_t_574 refl
    ∷ keyword 485 "NOARCHIVELOG" lex_k_noarchivelog refl
    ∷ keyword 387 "NOAUDIT" lex_k_noaudit refl
    ∷ keyword 486 "NOCACHE" lex_k_nocache refl
    ∷ keyword 388 "NOCOMPRESS" lex_k_nocompress refl
    ∷ keyword 258 "NOCYCLE" lex_k_nocycle refl
    ∷ keyword 487 "NOMAXVALUE" lex_k_nomaxvalue refl
    ∷ keyword 488 "NOMINVALUE" lex_k_nominvalue refl
    ∷ keyword 489 "NONE" lex_k_none refl
    ∷ keyword 490 "NOORDER" lex_k_noorder refl
    ∷ keyword 491 "NORESETLOGS" lex_k_noresetlogs refl
    ∷ keyword 492 "NORMAL" lex_k_normal refl
    ∷ keyword 493 "NOSORT" lex_k_nosort refl
    ∷ keyword k_not "NOT" lex_k_not refl
    ∷ keyword 389 "NOTFOUND" lex_k_notfound refl
    ∷ keyword 359 "NOWAIT" lex_k_nowait refl
    ∷ keyword 328 "NTILE" lex_k_ntile refl
    ∷ keyword k_null "NULL" lex_k_null refl
    ∷ keyword 147 "NULLIF" lex_k_nullif refl
    ∷ keyword 121 "NULLS" lex_k_nulls refl
    ∷ keyword 168 "NUMBER" lex_k_number refl
    ∷ keyword 169 "NUMERIC" lex_k_numeric refl
    ∷ keyword 194 "NVARCHAR" lex_k_nvarchar refl
    ∷ keyword 195 "NVARCHAR2" lex_k_nvarchar2 refl
    ∷ []
