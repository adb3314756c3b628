-- ===== src/Lexer/Words.antt =====
-- What the rules for words and signs share. The input stream reads letters in upper case
-- (`setUcaseLA` in `pgify_string_stream`), and keeps their case in the text of a token.
pub mod Keyword
pub mod Keywords
pub mod Types
pub mod Signs
pub mod Names
pub mod Laws
pub mod Vocabulary
use Prim.Native.Char.{Char, code}
use Prim.Native.String.{[], ◌∷◌}
use pgify.Base.{
  ℕ, ◌-◌, String, Bool, true, false, ◌&&◌, leb, ◌==◌, if◌then◌else◌, Option, none, some,
}
use pgify.Lexer.{Lexed, Match, join, match_char}

-- `LA(1)` at a character: a letter from a to z is read as a capital.
abbrev pub upper : ℕ → ℕ
upper k = if leb 97 k && leb k 122 then k - 32 else k

-- MATCHS: the characters of a literal, one after another.
unfoldable pub match_string : String → String → Match
match_string [] s = some ([], s)
match_string (l ∷ ls) [] = none
match_string (l ∷ ls) (c ∷ s) =
    let later = join (c ∷ []) (match_string ls s) in
    if upper (code c) == code l then later else none

abbrev pub visible_token : ℕ → Match → Option Lexed
visible_token kind none = none
visible_token kind (some (x, rest)) =
    some (record { kind = kind; hidden = false; text = x; rest = rest })

-- The action `SETTEXT(…)`.
abbrev pub replaced_token : ℕ → String → Match → Option Lexed
replaced_token kind text none = none
replaced_token kind text (some (x, rest)) =
    some (record { kind = kind; hidden = false; text = text; rest = rest })

unfoldable pub lex_word : ℕ → String → String → Option Lexed
lex_word kind literal s = visible_token kind (match_string literal s)

unfoldable pub lex_replaced : ℕ → String → String → String → Option Lexed
lex_replaced kind literal text s = replaced_token kind text (match_string literal s)

unfoldable pub lex_sign : ℕ → ℕ → String → Option Lexed
lex_sign kind sign s = visible_token kind (match_char sign s)
