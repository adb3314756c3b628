-- ===== src/Lexer/Words/Keywords/U.antt =====
-- The rules for the keywords that begin with U. A type that has no name in TokenTypes is
-- written as the number of mysqlLexer.h.
use pgify.Base.{String, refl, Option, List, [], ◌∷◌}
use pgify.Lexer.{Lexed}
use pgify.Lexer.Words.{lex_word}
use pgify.Lexer.Words.Keyword.{Keyword, keyword}
use pgify.TokenTypes.{k_update, k_use, k_using}

abbrev pub lex_k_uid : String → Option Lexed
lex_k_uid = lex_word 405 "UID"

abbrev pub lex_k_unbounded : String → Option Lexed
lex_k_unbounded = lex_word 353 "UNBOUNDED"

abbrev pub lex_k_under : String → Option Lexed
lex_k_under = lex_word 538 "UNDER"

abbrev pub lex_k_under_path : String → Option Lexed
lex_k_under_path = lex_word 288 "UNDER_PATH"

abbrev pub lex_k_union : String → Option Lexed
lex_k_union = lex_word 114 "UNION"

abbrev pub lex_k_unique : String → Option Lexed
lex_k_unique = lex_word 62 "UNIQUE"

abbrev pub lex_k_unlimited : String → Option Lexed
lex_k_unlimited = lex_word 109 "UNLIMITED"

abbrev pub lex_t_565 : String → Option Lexed
lex_t_565 = lex_word 565 "UNLOCK"

abbrev pub lex_k_unpivot : String → Option Lexed
lex_k_unpivot = lex_word 368 "UNPIVOT"

abbrev pub lex_k_unsigned : String → Option Lexed
lex_k_unsigned = lex_word 215 "UNSIGNED"

abbrev pub lex_k_until : String → Option Lexed
lex_k_until = lex_word 306 "UNTIL"

abbrev pub lex_k_update : String → Option Lexed
lex_k_update = lex_word k_update "UPDATE"

abbrev pub lex_k_updated : String → Option Lexed
lex_k_updated = lex_word 296 "UPDATED"

abbrev pub lex_k_upsert : String → Option Lexed
lex_k_upsert = lex_word 301 "UPSERT"

abbrev pub lex_k_urowid : String → Option Lexed
lex_k_urowid = lex_word 207 "UROWID"

abbrev pub lex_k_use : String → Option Lexed
lex_k_use = lex_word k_use "USE"

abbrev pub lex_k_user : String → Option Lexed
lex_k_user = lex_word 406 "USER"

abbrev pub lex_k_using : String → Option Lexed
lex_k_using = lex_word k_using "USING"

abbrev pub words_u : List Keyword
words_u =
    keyword 405 "UID" lex_k_uid refl
    ∷ keyword 353 "UNBOUNDED" lex_k_unbounded refl
    ∷ keyword 538 "UNDER" lex_k_under refl
    ∷ keyword 288 "UNDER_PATH" lex_k_under_path refl
    ∷ keyword 114 "UNION" lex_k_union refl
    ∷ keyword 62 "UNIQUE" lex_k_unique refl
    ∷ keyword 109 "UNLIMITED" lex_k_unlimited refl
    ∷ keyword 565 "UNLOCK" lex_t_565 refl
    ∷ keyword 368 "UNPIVOT" lex_k_unpivot refl
    ∷ keyword 215 "UNSIGNED" lex_k_unsigned refl
    ∷ keyword 306 "UNTIL" lex_k_until refl
    ∷ keyword k_update "UPDATE" lex_k_update refl
    ∷ keyword 296 "UPDATED" lex_k_updated refl
    ∷ keyword 301 "UPSERT" lex_k_upsert refl
    ∷ keyword 207 "UROWID" lex_k_urowid refl
    ∷ keyword k_use "USE" lex_k_use refl
    ∷ keyword 406 "USER" lex_k_user refl
    ∷ keyword k_using "USING" lex_k_using refl
    ∷ []
