-- ===== src/Lexer/Perl/Laws.antt =====
-- A text in brackets is read up to the first closing bracket with a quote behind it.
use Prim.Native.Char.{Char, code}
use Prim.Native.String.{[], ◌∷◌, ◌++◌}
use text.Mathlib.TextLemmas.{nil-append, cons-append}
use pgify.Base.{
  ℕ, String, ◌≡◌, ◌≢◌, ◌≤◌, refl, sym, ap, ◌∙◌, true, leb, ◌==◌, some, arith, inl, inr, Bool-cases,
  test_of_eq, test_of_ne, eq_of_test,
}
use pgify.Lexer.{Match, extend, match_char}
use pgify.Lexer.Perl.{
  is_inside, match_inside, match_bracketed, match_qs_angle, match_qs_brace, match_qs_brack,
  match_qs_paren,
}

-- A text of characters up to 65535, in which no closing bracket has a quote behind it.
abbrev pub Unclosed : ℕ → String → Type 0
Unclosed close [] = Unit {0}
Unclosed close (c ∷ []) = code c ≤ 65535
Unclosed close (c ∷ d ∷ s) =
    (code c ≤ 65535) × (code c ≡ close → code d ≢ b'\'') × Unclosed close (d ∷ s)

Unclosed-first : (close : ℕ) (c : Char) (s : String) → Unclosed close (c ∷ s) → code c ≤ 65535
Unclosed-first close c [] u = u
Unclosed-first close c (d ∷ s) u = u.0

leb_lem : (n : ℕ) → n ≤ 65535 → leb n 65535 ≡ true
leb_lem n h = ground arith

inside-next :
    (close : ℕ) (c d : Char) (s : String)
    → code c ≤ 65535
    → code d ≤ 65535
    → (code c ≡ close → code d ≢ b'\'')
    → is_inside close c (d ∷ s) ≡ true
inside-next close c d s h h' n = elim (Bool-cases (code c == close)) [
  | inl e ↦ rw (e, test_of_ne _ _ (n (eq_of_test _ _ e))) (leb_lem (code d) h')
  | inr e ↦ rw e (leb_lem (code c) h)
]

-- One more character inside.
match_inside-cons :
    (close : ℕ) (c d : Char) (s : String)
    → is_inside close c (d ∷ s) ≡ true
    → match_inside close (c ∷ d ∷ s) ≡ extend c (match_inside close (d ∷ s))
unfolding match_inside
match_inside-cons close c d s h = rw (match_inside, h) refl

match_inside-Unclosed :
    (close : ℕ) (body : String) (e : Char) (rest : String)
    → code e ≡ close
    → close ≤ 65535
    → close ≢ b'\''
    → Unclosed close body
    → match_inside close (body ++ (e ∷ "'" ∷ rest)) ≡ (body, e ∷ "'" ∷ rest)
unfolding match_inside
match_inside-Unclosed close [] e rest k low apart u =
    rw (nil-append (e ∷ "'" ∷ rest), test_of_eq _ _ k) refl
match_inside-Unclosed close (c ∷ []) e rest k low apart u =
    rw (cons-append c [] (e ∷ "'" ∷ rest), nil-append (e ∷ "'" ∷ rest))
      (match_inside-cons close c e ("'" ∷ rest)
          (inside-next close c e ("'" ∷ rest) u (omega arith) (λ same q. apart (sym k ∙ q)))
        ∙ ap (extend c) (
            rw (nil-append (e ∷ "'" ∷ rest)) at
              (match_inside-Unclosed close [] e rest k low apart tt)))
match_inside-Unclosed close (c ∷ d ∷ body) e rest k low apart u =
    rw (cons-append c (d ∷ body) (e ∷ "'" ∷ rest), cons-append d body (e ∷ "'" ∷ rest))
      (match_inside-cons close c d (body ++ (e ∷ "'" ∷ rest)) (
          inside-next close c d (body ++ (e ∷ "'" ∷ rest)) u.0 (Unclosed-first close d body u.2)
            u.1)
        ∙ ap (extend c) (
            rw (cons-append d body (e ∷ "'" ∷ rest)) at
              (match_inside-Unclosed close (d ∷ body) e rest k low apart u.2)))

-- The brackets and the rule for them.
pub data Brackets : Char → Char → (String → Match) → Type 0 where
  angle : Brackets "<" ">" match_qs_angle
  brace : Brackets "{" "}" match_qs_brace
  brack : Brackets "[" "]" match_qs_brack
  paren : Brackets "(" ")" match_qs_paren

record IsBracketed (b e : Char) (rule : String → Match) : Type 0 where
  same : rule ≡ match_bracketed (code b) (code e)
  low : code e ≤ 65535
  apart : code e ≢ b'\''

Brackets-IsBracketed :
    {b e : Char} {rule : String → Match} → Brackets b e rule → IsBracketed b e rule
Brackets-IsBracketed angle = record { same = refl; low = omega arith; apart = omega arith }
Brackets-IsBracketed brace = record { same = refl; low = omega arith; apart = omega arith }
Brackets-IsBracketed brack = record { same = refl; low = omega arith; apart = omega arith }
Brackets-IsBracketed paren = record { same = refl; low = omega arith; apart = omega arith }

letter : (c : Char) (s : String) → (c ∷ []) ++ s ≡ c ∷ s
letter c s = cons-append c [] s ∙ ap (λ t. c ∷ t) (nil-append s)

-- A text in one of the four kinds of brackets, between quotes, in which no closing bracket has a quote
-- behind it and no character is beyond 65535, is read as a whole, up to its closing bracket and the
-- quote behind it, whatever follows.
pub match_bracketed_lem :
    {b e : Char} {rule : String → Match}
    → Brackets b e rule
    → (body rest : String) → Unclosed (code e) body
    → rule ("'" ∷ (b ∷ (body ++ (e ∷ ("'" ∷ rest))))) ≡ some ("'" ∷ (b ∷ (body ++ (e ∷ "'"))), rest)
unfolding match_bracketed match_char
match_bracketed_lem {b} {e} brackets body rest u =
    let r = Brackets-IsBracketed brackets in
    rw
      (
        r.same,
        test_of_eq (code b) (code b) refl,
        match_inside-Unclosed (code e) body e rest refl r.low r.apart u,
        test_of_eq (code e) (code e) refl,
      )
      (ap (λ t. some (t, rest))
        (letter "'" _ ∙ ap (λ t. "'" ∷ t) (letter b _ ∙ ap (λ t. b ∷ (body ++ t)) (letter e "'"))))
