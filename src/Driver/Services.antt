-- ===== src/Driver/Services.antt =====
-- The lexer and parser that ANTLR generates from mysql.g, and `malloc`: a parameter of the driver.
use pgify.Base.{ℕ, String, Bool, Option, List}
use pgify.Printer.{Token}

-- The first four fields tell whether an allocation succeeds. What the lexer and the parser answer
-- depends on the options, which their actions read.
pub record Frontend (T Input : Type 0) : Type 0 where
  pub lexer_new : Input → Bool
  pub tstream_new : Input → Bool
  pub parser_new : Input → Bool
  pub malloc_tree : Input → Bool
  pub get_tokens : ℕ → Input → List Token
  pub start_rule : ℕ → Input → Option T
  pub parser_errors : ℕ → Input → ℕ
  pub lexer_errors : ℕ → Input → ℕ
  pub string_copy_stream : String → Input
