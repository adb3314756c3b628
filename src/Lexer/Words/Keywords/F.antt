-- ===== src/Lexer/Words/Keywords/F.antt =====
-- The rules for the keywords that begin with F. A type that has no name in TokenTypes is
-- written as the number of mysqlLexer.h.
use pgify.Base.{String, refl, Option, List, [], ◌∷◌}
use pgify.Lexer.{Lexed}
use pgify.Lexer.Words.{lex_word}
use pgify.Lexer.Words.Keyword.{Keyword, keyword}
use pgify.TokenTypes.{k_found_rows, k_full}

abbrev pub lex_k_false : String → Option Lexed
lex_k_false = lex_word 217 "FALSE"

abbrev pub lex_k_fetch : String → Option Lexed
lex_k_fetch = lex_word 451 "FETCH"

abbrev pub lex_t_568 : String → Option Lexed
lex_t_568 = lex_word 568 "FIELDS"

abbrev pub lex_k_file : String → Option Lexed
lex_k_file = lex_word 380 "FILE"

abbrev pub lex_k_first : String → Option Lexed
lex_k_first = lex_word 102 "FIRST"

abbrev pub lex_k_first_value : String → Option Lexed
lex_k_first_value = lex_word 322 "FIRST_VALUE"

abbrev pub lex_k_fixed : String → Option Lexed
lex_k_fixed = lex_word 68 "FIXED"

abbrev pub lex_k_float : String → Option Lexed
lex_k_float = lex_word 180 "FLOAT"

abbrev pub lex_k_flush : String → Option Lexed
lex_k_flush = lex_word 452 "FLUSH"

abbrev pub lex_k_following : String → Option Lexed
lex_k_following = lex_word 355 "FOLLOWING"

abbrev pub lex_k_for : String → Option Lexed
lex_k_for = lex_word 246 "FOR"

abbrev pub lex_k_force : String → Option Lexed
lex_k_force = lex_word 453 "FORCE"

abbrev pub lex_k_foreign : String → Option Lexed
lex_k_foreign = lex_word 78 "FOREIGN"

abbrev pub lex_k_fortran : String → Option Lexed
lex_k_fortran = lex_word 454 "FORTRAN"

abbrev pub lex_k_found : String → Option Lexed
lex_k_found = lex_word 455 "FOUND"

abbrev pub lex_k_found_rows : String → Option Lexed
lex_k_found_rows = lex_word k_found_rows "FOUND_ROWS"

abbrev pub lex_k_freelist : String → Option Lexed
lex_k_freelist = lex_word 456 "FREELIST"

abbrev pub lex_k_freelists : String → Option Lexed
lex_k_freelists = lex_word 457 "FREELISTS"

abbrev pub lex_k_from : String → Option Lexed
lex_k_from = lex_word 42 "FROM"

abbrev pub lex_k_full : String → Option Lexed
lex_k_full = lex_word k_full "FULL"

abbrev pub lex_k_fulltext : String → Option Lexed
lex_k_fulltext = lex_word 77 "FULLTEXT"

abbrev pub lex_k_function : String → Option Lexed
lex_k_function = lex_word 458 "FUNCTION"

abbrev pub words_f : List Keyword
words_f =
    keyword 217 "FALSE" lex_k_false refl
    ∷ keyword 451 "FETCH" lex_k_fetch refl
    ∷ keyword 568 "FIELDS" lex_t_568 refl
    ∷ keyword 380 "FILE" lex_k_file refl
    ∷ keyword 102 "FIRST" lex_k_first refl
    ∷ keyword 322 "FIRST_VALUE" lex_k_first_value refl
    ∷ keyword 68 "FIXED" lex_k_fixed refl
    ∷ keyword 180 "FLOAT" lex_k_float refl
    ∷ keyword 452 "FLUSH" lex_k_flush refl
    ∷ keyword 355 "FOLLOWING" lex_k_following refl
    ∷ keyword 246 "FOR" lex_k_for refl
    ∷ keyword 453 "FORCE" lex_k_force refl
    ∷ keyword 78 "FOREIGN" lex_k_foreign refl
    ∷ keyword 454 "FORTRAN" lex_k_fortran refl
    ∷ keyword 455 "FOUND" lex_k_found refl
    ∷ keyword k_found_rows "FOUND_ROWS" lex_k_found_rows refl
    ∷ keyword 456 "FREELIST" lex_k_freelist refl
    ∷ keyword 457 "FREELISTS" lex_k_freelists refl
    ∷ keyword 42 "FROM" lex_k_from refl
    ∷ keyword k_full "FULL" lex_k_full refl
    ∷ keyword 77 "FULLTEXT" lex_k_fulltext refl
    ∷ keyword 458 "FUNCTION" lex_k_function refl
    ∷ []
