-- ===== src/Lexer/Perl.antt =====
-- The rules for Perl-style quoted texts in brackets, q'<…>' and its like: QS_ANGLE, QS_BRACE, QS_BRACK
-- and QS_PAREN, fragments of QSTRING. They differ in the two brackets only.
pub mod Laws
use Prim.Native.Char.{Char, code}
use Prim.Native.String.{[], ◌∷◌}
use pgify.Base.{ℕ, String, Bool, not, ◌&&◌, leb, ◌==◌, if◌then◌else◌, some}
use pgify.Lexer.{Match, followed_by, extend, match_char}

-- Whether the loop goes on, at a character with what is behind it: not at the closing bracket with a
-- quote behind it, nor at one that is the last character.
abbrev pub is_inside : ℕ → Char → String → Bool
is_inside close c [] = not (code c == close) && leb (code c) 65535
is_inside close c (d ∷ s) =
    if code c == close then not (code d == b'\'') && leb (code d) 65535 else leb (code c) 65535

unfoldable pub match_inside : ℕ → String → String × String
match_inside close [] = ([], [])
match_inside close (c ∷ s) =
    let later = extend c (match_inside close s) in
    if is_inside close c s then later else ([], c ∷ s)

unfoldable pub match_bracketed : ℕ → ℕ → String → Match
match_bracketed bracket close s = followed_by (match_char b'\'' s) (λ r₁.
    followed_by (match_char bracket r₁) (λ r₂.
      followed_by (some (match_inside close r₂))
        (λ r₃. followed_by (match_char close r₃) (match_char b'\''))))

-- QS_ANGLE
abbrev pub match_qs_angle : String → Match
match_qs_angle = match_bracketed b'<' b'>'

-- QS_BRACE
abbrev pub match_qs_brace : String → Match
match_qs_brace = match_bracketed b'{' b'}'

-- QS_BRACK
abbrev pub match_qs_brack : String → Match
match_qs_brack = match_bracketed b'[' b']'

-- QS_PAREN
abbrev pub match_qs_paren : String → Match
match_qs_paren = match_bracketed b'(' b')'
