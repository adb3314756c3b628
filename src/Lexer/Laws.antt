-- ===== src/Lexer/Laws.antt =====
-- The rules for blanks and comments.
use Prim.Native.Char.{Char, code}
use Prim.Native.String.{[], ◌∷◌, ◌++◌}
use text.Mathlib.TextLemmas.{append_assoc, nil-append, cons-append}
use pgify.Base.{
  ℕ, String, ◌≡◌, ◌⊎◌, inl, inr, sym, ap, ◌∙◌, Bool, true, ◌==◌, none, some, Bool-cases,
}
use pgify.Lexer.{
  Lexed, Match, join, followed_by, match_char, match_while, match_optional, is_blank, is_in_line,
  match_line, hidden_token, lex_ws, lex_sl_comment, lex_mysql_comment, goes_on, match_comment,
  lex_ml_comment,
}
use mathlib.Core.Option.{some-injective}
use pgify.TokenTypes.{ws, sl_comment, mysql_comment, ml_comment}

-- A match cuts a text in two.
abbrev pub Cuts : Match → String → Type 0
Cuts none s = Unit {0}
Cuts (some (x, rest)) s = x ++ rest ≡ s

Cuts-join : (x r s : String) (m : Match) → x ++ r ≡ s → Cuts m r → Cuts (join x m) s
Cuts-join x r s none h c = tt
Cuts-join x r s (some (y, rest)) h c = append_assoc x y rest ∙ ap (λ t. x ++ t) c ∙ h

Cuts-followed_by :
    (m : Match) (s : String) (later : String → Match)
    → Cuts m s
    → ((r : String) → Cuts (later r) r)
    → Cuts (followed_by m later) s
Cuts-followed_by none s later c h = tt
Cuts-followed_by (some (x, r)) s later c h = Cuts-join x r s (later r) c (h r)

one : (c : Char) (s : String) → (c ∷ []) ++ s ≡ c ∷ s
one c s = cons-append c [] s ∙ ap (λ t. c ∷ t) (nil-append s)

match_char-Cuts : (k : ℕ) (s : String) → Cuts (match_char k s) s
unfolding match_char
match_char-Cuts k [] = tt
match_char-Cuts k (c ∷ s) = elim (Bool-cases (code c == k)) [
  | inl e ↦ rw e (one c s)
  | inr e ↦ rw e tt
]

match_optional-Cuts : (k : ℕ) (s : String) → Cuts (match_optional k s) s
unfolding match_optional
match_optional-Cuts k [] = nil-append []
match_optional-Cuts k (c ∷ s) = elim (Bool-cases (code c == k)) [
  | inl e ↦ rw e (one c s)
  | inr e ↦ rw e (nil-append (c ∷ s))
]

match_while-cuts :
    (test : Char → Bool) (s : String) → (match_while test s).0 ++ (match_while test s).1 ≡ s
unfolding match_while
match_while-cuts test [] = nil-append []
match_while-cuts test (c ∷ s) = elim (Bool-cases (test c)) [
  | inl e ↦ rw e (cons-append c _ _ ∙ ap (λ t. c ∷ t) (match_while-cuts test s))
  | inr e ↦ rw e (nil-append (c ∷ s))
]

match_comment-cuts : (s : String) → (match_comment s).0 ++ (match_comment s).1 ≡ s
unfolding match_comment
match_comment-cuts [] = nil-append []
match_comment-cuts (c ∷ s) = elim (Bool-cases (goes_on c s)) [
  | inl e ↦ rw e (cons-append c _ _ ∙ ap (λ t. c ∷ t) (match_comment-cuts s))
  | inr e ↦ rw e (nil-append (c ∷ s))
]

match_line-Cuts : (s : String) → Cuts (match_line s) s
match_line-Cuts s =
    Cuts-followed_by (some (match_while is_in_line s)) s _ (match_while-cuts is_in_line s) (λ r.
      Cuts-followed_by (match_optional b'\r' r) r _ (match_optional-Cuts b'\r' r)
        (match_char-Cuts b'\n'))

hidden_token-Cuts :
    (k : ℕ) (m : Match) (s : String) (t : Lexed)
    → Cuts m s
    → hidden_token k m ≡ some t
    → (t.hidden ≡ true) × (t.text ++ t.rest ≡ s)
hidden_token-Cuts k none s t c h = cc
hidden_token-Cuts k (some (x, rest)) s t c h =
    let e : record { kind = k; hidden = true; text = x; rest = rest } ≡ t = some-injective _ _ h in
    (sym (ap (λ (l : Lexed). l.hidden) e), sym (ap (λ (l : Lexed). l.text ++ l.rest) e) ∙ c)

lex_ws-hidden :
    (s : String) (t : Lexed) → lex_ws s ≡ some t → (t.hidden ≡ true) × (t.text ++ t.rest ≡ s)
unfolding lex_ws
lex_ws-hidden [] t h = cc
lex_ws-hidden (c ∷ s) t h = elim (Bool-cases (is_blank c)) [
  | inl e ↦ hidden_token-Cuts ws (some (c ∷ [], s)) (c ∷ s) t (one c s) (rw e at h)
  | inr e ↦ cc (rw e at h)
]

-- A token for a blank or for a comment of one of the three kinds is hidden, and its text with the
-- characters behind it is the text that was read.
pub lex-hidden :
    (s : String) (t : Lexed)
    → ((lex_ws s ≡ some t) ⊎ (lex_sl_comment s ≡ some t))
      ⊎ ((lex_mysql_comment s ≡ some t) ⊎ (lex_ml_comment s ≡ some t))
    → (t.hidden ≡ true) × (t.text ++ t.rest ≡ s)
unfolding lex_sl_comment lex_mysql_comment lex_ml_comment
lex-hidden s t (inl (inl h)) = lex_ws-hidden s t h
lex-hidden s t (inl (inr h)) =
    hidden_token-Cuts sl_comment _ s t
      (Cuts-followed_by (match_char b'-' s) s _ (match_char-Cuts b'-' s)
        (λ r. Cuts-followed_by (match_char b'-' r) r _ (match_char-Cuts b'-' r) match_line-Cuts))
      h
lex-hidden s t (inr (inl h)) =
    hidden_token-Cuts mysql_comment _ s t
      (Cuts-followed_by (match_char b'#' s) s _ (match_char-Cuts b'#' s) match_line-Cuts) h
lex-hidden s t (inr (inr h)) =
    hidden_token-Cuts ml_comment _ s t
      (Cuts-followed_by (match_char b'/' s) s _ (match_char-Cuts b'/' s) (λ r₁.
        Cuts-followed_by (match_char b'*' r₁) r₁ _ (match_char-Cuts b'*' r₁) (λ r₂.
          Cuts-followed_by (some (match_comment r₂)) r₂ _ (match_comment-cuts r₂) (λ r₃.
            Cuts-followed_by (match_char b'*' r₃) r₃ _ (match_char-Cuts b'*' r₃)
              (match_char-Cuts b'/')))))
      h
