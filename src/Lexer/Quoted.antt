-- ===== src/Lexer/Quoted.antt =====
-- The rules for quoted texts and for names in backticks.
use Prim.Native.Char.{Char, code}
use Prim.Native.String.{[], ◌∷◌, ◌++◌}
use text.Mathlib.TextLemmas.{nil-append, cons-append}
use pgify.Base.{
  ℕ, String, ◌≡◌, refl, ap, ◌∙◌, Bool, true, false, ◌&&◌, leb, ◌==◌, if◌then◌else◌, some, arith,
}
use pgify.Glib.{Glib}
use pgify.Lexer.{
  match_char, match_while, is_unescaped, is_ahead, match_quoted, lex_quoted_string, is_not_backtick,
  extend, drop_last, inner, requote, match_backquoted_string,
}
use pgify.TokenTypes.{quoted_string}
use pgify.Walker.{is_escape, is_lowerid}

-- Every character of a text passes a test.
abbrev pub AllOf : (Char → Bool) → String → Type 0
AllOf test [] = Unit {0}
AllOf test (c ∷ s) = (test c ≡ true) × AllOf test s

pub match_while-AllOf :
    (test : Char → Bool) (body : String) (d : Char) (rest : String)
    → AllOf test body
    → test d ≡ false
    → match_while test (body ++ (d ∷ rest)) ≡ (body, d ∷ rest)
unfolding match_while
match_while-AllOf test [] d rest h e = rw (nil-append (d ∷ rest), e) refl
match_while-AllOf test (c ∷ body) d rest h e =
    rw (cons-append c body (d ∷ rest), h.0, match_while-AllOf test body d rest h.1 e) refl

no_backslash : (c : Char) → is_unescaped c ≡ true → (code c == b'\\') ≡ false
no_backslash c h = ground arith

match_quoted-step :
    (c d : Char) (s : String)
    → is_unescaped c ≡ true
    → match_quoted (c ∷ d ∷ s) ≡ extend c (match_quoted (d ∷ s))
unfolding match_quoted
match_quoted-step c d s h = rw (match_quoted, no_backslash c h, h) refl

quote_stops : (d : Char) → code d ≡ b'\'' → is_unescaped d ≡ false
quote_stops d e = ground arith

quote_no_backslash : (d : Char) → code d ≡ b'\'' → (code d == b'\\') ≡ false
quote_no_backslash d e = ground arith

match_quoted-stop :
    (d : Char) (rest : String) → code d ≡ b'\'' → match_quoted (d ∷ rest) ≡ ([], d ∷ rest)
unfolding match_quoted
match_quoted-stop d [] e = rw (match_quoted, quote_no_backslash d e, quote_stops d e) refl
match_quoted-stop d (r ∷ rest) e = rw (match_quoted, quote_no_backslash d e, quote_stops d e) refl

match_quoted-AllOf :
    (body : String) (d : Char) (rest : String)
    → AllOf is_unescaped body
    → code d ≡ b'\''
    → match_quoted (body ++ (d ∷ rest)) ≡ (body, d ∷ rest)
match_quoted-AllOf [] d rest h e = rw (nil-append (d ∷ rest)) (match_quoted-stop d rest e)
match_quoted-AllOf (c ∷ []) d rest h e =
    rw (cons-append c [] (d ∷ rest), nil-append (d ∷ rest))
      (match_quoted-step c d rest h.0 ∙ ap (extend c) (match_quoted-stop d rest e))
match_quoted-AllOf (c ∷ b ∷ body) d rest h e =
    rw (cons-append c (b ∷ body) (d ∷ rest), cons-append b body (d ∷ rest))
      (match_quoted-step c b (body ++ (d ∷ rest)) h.0
        ∙ ap (extend c)
            (rw (cons-append b body (d ∷ rest)) at (match_quoted-AllOf (b ∷ body) d rest h.1 e)))

drop_last-append : (body : String) (d : Char) → drop_last (body ++ (d ∷ [])) ≡ body
unfolding drop_last
drop_last-append [] d = rw (nil-append (d ∷ [])) refl
drop_last-append (c ∷ []) d = rw (cons-append c [] (d ∷ []), nil-append (d ∷ [])) refl
drop_last-append (c ∷ e ∷ body) d =
    rw (cons-append c (e ∷ body) (d ∷ []), cons-append e body (d ∷ []))
      (ap (λ t. c ∷ t) (rw (cons-append e body (d ∷ [])) at (drop_last-append (e ∷ body) d)))

inner-quoted : (body : String) → inner ("`" ++ (body ++ "`")) ≡ body
unfolding inner
inner-quoted body =
    ap inner (cons-append "`" [] (body ++ "`") ∙ ap (λ t. "`" ∷ t) (nil-append (body ++ "`")))
    ∙ drop_last-append body "`"

module _ ⦃g : Glib⦄ where
  -- A name in backticks, which holds no backtick and no character beyond 65535, becomes the same
  -- text in double quotes, in lower case exactly if the flag for it is set, and the rule stops
  -- behind the second backtick.
  pub match_backquoted_string_lem :
      (options : ℕ) (body rest : String)
      → AllOf is_not_backtick body
      → match_backquoted_string options ("`" ∷ (body ++ ("`" ∷ rest)))
        ≡ some (
          if is_lowerid options
              then g.utf8_strdown ("\"" ++ body ++ "\"")
              else "\"" ++ body ++ "\"",
          rest,
        )
  unfolding match_backquoted_string match_char requote inner
  match_backquoted_string_lem options body rest h =
      rw (match_while-AllOf is_not_backtick body "`" rest h refl, requote, inner-quoted body) refl

-- A quoted text that holds no quote, no backslash and no character beyond 65535 is read up to its
-- second quote, and the token has an E in front of it exactly if the flag for escapes is set.
pub lex_quoted_string_lem :
    (options : ℕ) (body rest : String)
    → AllOf is_unescaped body
    → lex_quoted_string options ("'" ∷ (body ++ ("'" ∷ rest)))
      ≡ some (record {
        kind = quoted_string;
        hidden = false;
        text = if is_escape options then "E" ++ ("'" ++ (body ++ "'")) else "'" ++ (body ++ "'");
        rest = rest;
      })
unfolding lex_quoted_string match_char
lex_quoted_string_lem options body rest h = rw (match_quoted-AllOf body "'" rest h refl) refl

match_quoted-backslash :
    (c d : Char) (s : String)
    → (code c == b'\\') ≡ true
    → (code d == b'\'') ≡ false
    → match_quoted (c ∷ d ∷ s) ≡ extend c (match_quoted (d ∷ s))
unfolding match_quoted
match_quoted-backslash c d s h e = rw (match_quoted, h, e) refl

match_quoted-escaped :
    (c d : Char) (s : String)
    → (code c == b'\\') ≡ true
    → (code d == b'\'' && is_ahead s) ≡ true
    → match_quoted (c ∷ d ∷ s) ≡ extend c (extend d (match_quoted s))
unfolding match_quoted
match_quoted-escaped c d s h e = rw (match_quoted, h, e) refl

-- Behind two backslashes a quote with another character behind it is taken along, and the match goes
-- on behind the quote.
pub match_quoted-two_backslashes :
    (d : Char) (s : String)
    → leb (code d) 65535 ≡ true
    → match_quoted ("\\" ∷ "\\" ∷ "'" ∷ d ∷ s)
      ≡ ("\\" ∷ "\\" ∷ "'" ∷ (match_quoted (d ∷ s)).0, (match_quoted (d ∷ s)).1)
match_quoted-two_backslashes d s h =
    match_quoted-backslash "\\" "\\" ("'" ∷ d ∷ s) refl refl
    ∙ ap (extend "\\") (match_quoted-escaped "\\" "'" (d ∷ s) refl h)
