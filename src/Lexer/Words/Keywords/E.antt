-- ===== src/Lexer/Words/Keywords/E.antt =====
-- The rules for the keywords that begin with E. A type that has no name in TokenTypes is
-- written as the number of mysqlLexer.h.
use pgify.Base.{String, refl, Option, List, [], ◌∷◌}
use pgify.Lexer.{Lexed}
use pgify.Lexer.Words.{lex_word}
use pgify.Lexer.Words.Keyword.{Keyword, keyword}
use pgify.TokenTypes.{k_enum}

abbrev pub lex_k_each : String → Option Lexed
lex_k_each = lex_word 441 "EACH"

abbrev pub lex_k_else : String → Option Lexed
lex_k_else = lex_word 103 "ELSE"

abbrev pub lex_k_empty : String → Option Lexed
lex_k_empty = lex_word 277 "EMPTY"

abbrev pub lex_k_enable : String → Option Lexed
lex_k_enable = lex_word 442 "ENABLE"

abbrev pub lex_t_603 : String → Option Lexed
lex_t_603 = lex_word 603 "ENCLOSED"

abbrev pub lex_k_end : String → Option Lexed
lex_k_end = lex_word 152 "END"

abbrev pub lex_k_engine : String → Option Lexed
lex_k_engine = lex_word 85 "ENGINE"

abbrev pub lex_k_enum : String → Option Lexed
lex_k_enum = lex_word k_enum "ENUM"

abbrev pub lex_k_equals_path : String → Option Lexed
lex_k_equals_path = lex_word 287 "EQUALS_PATH"

abbrev pub lex_k_errors : String → Option Lexed
lex_k_errors = lex_word 106 "ERRORS"

abbrev pub lex_k_escape : String → Option Lexed
lex_k_escape = lex_word 283 "ESCAPE"

abbrev pub lex_k_events : String → Option Lexed
lex_k_events = lex_word 443 "EVENTS"

abbrev pub lex_k_except : String → Option Lexed
lex_k_except = lex_word 444 "EXCEPT"

abbrev pub lex_k_exceptions : String → Option Lexed
lex_k_exceptions = lex_word 445 "EXCEPTIONS"

abbrev pub lex_k_exclude : String → Option Lexed
lex_k_exclude = lex_word 369 "EXCLUDE"

abbrev pub lex_k_exclusive : String → Option Lexed
lex_k_exclusive = lex_word 379 "EXCLUSIVE"

abbrev pub lex_k_exec : String → Option Lexed
lex_k_exec = lex_word 446 "EXEC"

abbrev pub lex_k_execute : String → Option Lexed
lex_k_execute = lex_word 447 "EXECUTE"

abbrev pub lex_k_exists : String → Option Lexed
lex_k_exists = lex_word 57 "EXISTS"

abbrev pub lex_k_explain : String → Option Lexed
lex_k_explain = lex_word 448 "EXPLAIN"

abbrev pub lex_k_extent : String → Option Lexed
lex_k_extent = lex_word 449 "EXTENT"

abbrev pub lex_k_externally : String → Option Lexed
lex_k_externally = lex_word 450 "EXTERNALLY"

abbrev pub words_e : List Keyword
words_e =
    keyword 441 "EACH" lex_k_each refl
    ∷ keyword 103 "ELSE" lex_k_else refl
    ∷ keyword 277 "EMPTY" lex_k_empty refl
    ∷ keyword 442 "ENABLE" lex_k_enable refl
    ∷ keyword 603 "ENCLOSED" lex_t_603 refl
    ∷ keyword 152 "END" lex_k_end refl
    ∷ keyword 85 "ENGINE" lex_k_engine refl
    ∷ keyword k_enum "ENUM" lex_k_enum refl
    ∷ keyword 287 "EQUALS_PATH" lex_k_equals_path refl
    ∷ keyword 106 "ERRORS" lex_k_errors refl
    ∷ keyword 283 "ESCAPE" lex_k_escape refl
    ∷ keyword 443 "EVENTS" lex_k_events refl
    ∷ keyword 444 "EXCEPT" lex_k_except refl
    ∷ keyword 445 "EXCEPTIONS" lex_k_exceptions refl
    ∷ keyword 369 "EXCLUDE" lex_k_exclude refl
    ∷ keyword 379 "EXCLUSIVE" lex_k_exclusive refl
    ∷ keyword 446 "EXEC" lex_k_exec refl
    ∷ keyword 447 "EXECUTE" lex_k_execute refl
    ∷ keyword 57 "EXISTS" lex_k_exists refl
    ∷ keyword 448 "EXPLAIN" lex_k_explain refl
    ∷ keyword 449 "EXTENT" lex_k_extent refl
    ∷ keyword 450 "EXTERNALLY" lex_k_externally refl
    ∷ []
