-- ===== src/Lexer/Words/Keyword.antt =====
-- A keyword: the type of its token, its word in capitals, and the rule that reads it.
use pgify.Base.{ℕ, String, ◌≡◌, Option}
use pgify.Lexer.{Lexed}
use pgify.Lexer.Words.{lex_word}

pub data Keyword : Type 0 where
  keyword :
      (kind : ℕ) (word : String) (rule : String → Option Lexed)
      → rule ≡ lex_word kind word
      → Keyword

abbrev pub type_of : Keyword → ℕ
type_of (keyword kind word rule e) = kind

abbrev pub word_of : Keyword → String
word_of (keyword kind word rule e) = word

abbrev pub rule_of : Keyword → String → Option Lexed
rule_of (keyword kind word rule e) = rule
