-- ===== src/Lexer/Words/Keywords/B.antt =====
-- The rules for the keywords that begin with B. A type that has no name in TokenTypes is
-- written as the number of mysqlLexer.h.
use pgify.Base.{String, refl, Option, List, [], ◌∷◌}
use pgify.Lexer.{Lexed}
use pgify.Lexer.Words.{lex_word}
use pgify.Lexer.Words.Keyword.{Keyword, keyword}

abbrev pub lex_k_backup : String → Option Lexed
lex_k_backup = lex_word 417 "BACKUP"

abbrev pub lex_k_become : String → Option Lexed
lex_k_become = lex_word 418 "BECOME"

abbrev pub lex_k_before : String → Option Lexed
lex_k_before = lex_word 419 "BEFORE"

abbrev pub lex_k_begin : String → Option Lexed
lex_k_begin = lex_word 420 "BEGIN"

abbrev pub lex_k_between : String → Option Lexed
lex_k_between = lex_word 236 "BETWEEN"

abbrev pub lex_k_bfile : String → Option Lexed
lex_k_bfile = lex_word 205 "BFILE"

abbrev pub lex_k_bigint : String → Option Lexed
lex_k_bigint = lex_word 214 "BIGINT"

abbrev pub lex_k_binary_double : String → Option Lexed
lex_k_binary_double = lex_word 165 "BINARY_DOUBLE"

abbrev pub lex_k_binary_float : String → Option Lexed
lex_k_binary_float = lex_word 164 "BINARY_FLOAT"

abbrev pub lex_k_binary_integer : String → Option Lexed
lex_k_binary_integer = lex_word 163 "BINARY_INTEGER"

abbrev pub lex_k_block : String → Option Lexed
lex_k_block = lex_word 243 "BLOCK"

abbrev pub lex_k_body : String → Option Lexed
lex_k_body = lex_word 421 "BODY"

abbrev pub lex_k_boolean : String → Option Lexed
lex_k_boolean = lex_word 174 "BOOLEAN"

abbrev pub lex_k_breadth : String → Option Lexed
lex_k_breadth = lex_word 119 "BREADTH"

abbrev pub lex_t_576 : String → Option Lexed
lex_t_576 = lex_word 576 "BTREE"

abbrev pub lex_k_by : String → Option Lexed
lex_k_by = lex_word 120 "BY"

abbrev pub lex_k_byte : String → Option Lexed
lex_k_byte = lex_word 190 "BYTE"

abbrev pub words_b : List Keyword
words_b =
    keyword 417 "BACKUP" lex_k_backup refl
    ∷ keyword 418 "BECOME" lex_k_become refl
    ∷ keyword 419 "BEFORE" lex_k_before refl
    ∷ keyword 420 "BEGIN" lex_k_begin refl
    ∷ keyword 236 "BETWEEN" lex_k_between refl
    ∷ keyword 205 "BFILE" lex_k_bfile refl
    ∷ keyword 214 "BIGINT" lex_k_bigint refl
    ∷ keyword 165 "BINARY_DOUBLE" lex_k_binary_double refl
    ∷ keyword 164 "BINARY_FLOAT" lex_k_binary_float refl
    ∷ keyword 163 "BINARY_INTEGER" lex_k_binary_integer refl
    ∷ keyword 243 "BLOCK" lex_k_block refl
    ∷ keyword 421 "BODY" lex_k_body refl
    ∷ keyword 174 "BOOLEAN" lex_k_boolean refl
    ∷ keyword 119 "BREADTH" lex_k_breadth refl
    ∷ keyword 576 "BTREE" lex_t_576 refl
    ∷ keyword 120 "BY" lex_k_by refl
    ∷ keyword 190 "BYTE" lex_k_byte refl
    ∷ []
