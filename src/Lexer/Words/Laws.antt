-- ===== src/Lexer/Words/Laws.antt =====
-- The rules for words read any spelling of their word and nothing else; a name is read to its end.
use Prim.Native.Char.{Char, code}
use Prim.Native.String.{[], ◌∷◌, ◌++◌}
use mathlib.Core.Option.{some-injective}
use mathlib.Core.Path.{subst}
use text.Mathlib.TextLemmas.{append_assoc, nil-append, cons-append}
use pgify.Base.{
  arith, ◌≤◌, ◌+◌, ◌&&◌, leb, ℕ, String, ◌≡◌, refl, sym, ap, ◌∙◌, true, false, inl, inr, ◌==◌,
  if◌then◌else◌, none, some, Bool-cases, Option-cases, ◌⊎◌, eq_of_test, test_of_eq,
}
use pgify.Glib.{Glib}
use pgify.Lexer.{
  Lexed, join, match_char, match_double_quoted_string, is_not_double_quote, is_not_backtick,
}
use pgify.Lexer.Quoted.{AllOf, match_while-AllOf, match_backquoted_string_lem}
use pgify.Lexer.Words.{upper, match_string, lex_word, lex_replaced}
use pgify.Lexer.Words.Names.{is_letter, is_name_part, lex_id}
use pgify.TokenTypes.{id}
use pgify.Walker.{is_lowerid}

-- A character that a capital, or another character that is no small letter, is written as.
pub data WrittenAs (l c : Char) : Type 0 where
  as_is : code c ≡ code l → (leb 97 (code l) && leb (code l) 122) ≡ false → WrittenAs l c
  small : 65 ≤ code l → code l ≤ 90 → code c ≡ code l + 32 → WrittenAs l c

-- A text spells a word in capitals, each letter in either case.
abbrev pub Spells : String → String → Type 0
Spells [] [] = Unit {0}
Spells [] (c ∷ s) = ⊥
Spells (l ∷ ls) [] = ⊥
Spells (l ∷ ls) (c ∷ s) = WrittenAs l c × Spells ls s

pub upper-WrittenAs : (l c : Char) → WrittenAs l c → upper (code c) ≡ code l
upper-WrittenAs l c (as_is e f) = rw e (ground arith)
upper-WrittenAs l c (small from to e) = ground arith

WrittenAs-upper : (l c : Char) → upper (code c) ≡ code l → WrittenAs l c
WrittenAs-upper l c h = elim (Bool-cases (leb 97 (code c) && leb (code c) 122)) [
  | inl e ↦ small (ground arith) (ground arith) (ground arith)
  | inr e ↦ as_is (ground arith) (ground arith)
]

letter_first : (c : Char) (body : String) → (c ∷ []) ++ body ≡ c ∷ body
letter_first c body = cons-append c [] body ∙ ap (λ t. c ∷ t) (nil-append body)

match_string-Spells : (w x rest : String) → Spells w x → match_string w (x ++ rest) ≡ some (x, rest)
unfolding match_string
match_string-Spells [] [] rest h = rw (nil-append rest) refl
match_string-Spells [] (c ∷ s) rest h = elim h [ ]
match_string-Spells (l ∷ ls) [] rest h = elim h [ ]
match_string-Spells (l ∷ ls) (c ∷ s) rest h =
    rw
      (
        cons-append c s rest,
        test_of_eq _ _ (upper-WrittenAs l c h.0),
        match_string-Spells ls s rest h.1,
      )
      (ap (λ t. some (t, rest)) (letter_first c s))

-- What is matched spells the word, and stands in front of the rest.
record Reads (w s : String) (m : String × String) : Type 0 where
  spells : Spells w m.0
  cuts : m.0 ++ m.1 ≡ s

Reads-cons :
    (l : Char) (ls : String) (c : Char) (s : String) (m : String × String)
    → upper (code c) ≡ code l
    → (match_string ls s ≡ none) ⊎ ((p : String × String) × (match_string ls s ≡ some p))
    → ((p : String × String) → match_string ls s ≡ some p → Reads ls s p)
    → join (c ∷ []) (match_string ls s) ≡ some m
    → Reads (l ∷ ls) (c ∷ s) m
Reads-cons l ls c s m k (inl e) later h = cc (rw e at h)
Reads-cons l ls c s m k (inr (p, e)) later h =
    let r = later p e in
    let first : ((c ∷ []) ++ p.0, p.1) ≡ m = some-injective _ _ (rw e at h) in
    subst (Reads (l ∷ ls) (c ∷ s)) (ap (λ t. (t, p.1)) (sym (letter_first c p.0)) ∙ first) (record {
      spells = (WrittenAs-upper l c k, r.spells);
      cuts = cons-append c p.0 p.1 ∙ ap (λ t. c ∷ t) r.cuts;
    })

match_string-Reads : (w s : String) (m : String × String) → match_string w s ≡ some m → Reads w s m
unfolding match_string
match_string-Reads [] s (x, rest) h =
    let e : ([], s) ≡ (x, rest) = some-injective _ _ h in
    record {
      spells = subst (λ (m : String × String). Spells [] m.0) e tt;
      cuts = subst (λ (m : String × String). m.0 ++ m.1 ≡ s) e (nil-append s);
    }
match_string-Reads (l ∷ ls) [] m h = cc
match_string-Reads (l ∷ ls) (c ∷ s) m h = elim (Bool-cases (upper (code c) == code l)) [
  | inr e ↦ cc (rw e at h)
  | inl e ↦
      Reads-cons l ls c s m (eq_of_test _ _ e) (Option-cases (match_string ls s))
        (match_string-Reads ls s) (rw e at h)
]

wrapped : (q : Char) (body s : String) → (q ∷ (body ++ (q ∷ []))) ++ s ≡ q ∷ (body ++ (q ∷ s))
wrapped q body s =
    cons-append q (body ++ (q ∷ [])) s
    ∙ ap (λ t. q ∷ t) (append_assoc body (q ∷ []) s ∙ ap (λ t. body ++ t) (letter_first q s))

module _ ⦃g : Glib⦄ (options : ℕ) where
  -- How a name is written and what its token holds, in front of a character: letters, digits and
  -- three signs, up to the first other character; a text in double quotes; or a text in backticks,
  -- which get double quotes, in lower case if the flag for it is set.
  pub data IsName (d : Char) : String → String → Type 0 where
    plain :
        (c : Char) (body : String)
        → is_letter c ≡ true
        → AllOf is_name_part body
        → is_name_part d ≡ false
        → IsName d (c ∷ body) (c ∷ body)
    double_quoted :
        (body : String)
        → AllOf is_not_double_quote body
        → IsName d ("\"" ∷ (body ++ "\"")) ("\"" ∷ (body ++ "\""))
    back_quoted :
        (body : String)
        → AllOf is_not_backtick body
        → IsName d ("`" ∷ (body ++ "`")) (
            if is_lowerid options
            then g.utf8_strdown ("\"" ++ body ++ "\"")
            else "\"" ++ body ++ "\"")

  -- A name in front of any character is read as a whole, and the token is an identifier that holds it
  -- as it is written, or, for a name in backticks, in double quotes and in the case that the flag
  -- asks for.
  pub lex_id_lem :
      (d : Char) (x y rest : String)
      → IsName d x y
      → lex_id options (x ++ (d ∷ rest))
        ≡ some (record { kind = id; hidden = false; text = y; rest = d ∷ rest })
  unfolding lex_id match_char match_double_quoted_string
  lex_id_lem d x y rest (plain c body letter parts ends) =
      rw
        (
          cons-append c body (d ∷ rest),
          letter,
          match_while-AllOf is_name_part body d rest parts ends,
        )
        (ap (λ t. some (record { kind = id; hidden = false; text = t; rest = d ∷ rest }))
          (letter_first c body))
  lex_id_lem d x y rest (double_quoted body h) = rw (wrapped "\"" body (d ∷ rest)) (
      rw (match_while-AllOf is_not_double_quote body "\"" (d ∷ rest) h refl) (
        ap (λ t. some (record { kind = id; hidden = false; text = t; rest = d ∷ rest }))
          (letter_first "\"" (body ++ "\""))))
  lex_id_lem d x y rest (back_quoted body h) =
      rw (wrapped "`" body (d ∷ rest))
        (rw (match_backquoted_string_lem options body (d ∷ rest) h) refl)

-- A rule that replaces its word reads any spelling of it, and nothing else, and its token holds the
-- other text.
pub lex_replaced-Spells :
    (kind : ℕ) (w text x rest : String)
    → Spells w x
    → lex_replaced kind w text (x ++ rest)
      ≡ some (record { kind = kind; hidden = false; text = text; rest = rest })
unfolding lex_replaced
lex_replaced-Spells kind w text x rest h = rw (match_string-Spells w x rest h) refl

-- What a token of such a rule comes from.
pub record Replaces (kind : ℕ) (w text s : String) (t : Lexed) : Type 0 where
  pub written : String
  pub spells : Spells w written
  pub cuts : written ++ t.rest ≡ s
  pub token : t ≡ record { kind = kind; hidden = false; text = text; rest = t.rest }

replaced_of :
    (kind : ℕ) (w text s : String) (t : Lexed) (m : String × String)
    → Reads w s m
    → some (record { kind = kind; hidden = false; text = text; rest = m.1 }) ≡ some t
    → Replaces kind w text s t
replaced_of kind w text s t m r h =
    let e = some-injective _ _ h in
    let rests : m.1 ≡ t.rest = ap (λ (l : Lexed). l.rest) e in
    record {
      written = m.0;
      spells = r.spells;
      cuts = ap (λ u. m.0 ++ u) (sym rests) ∙ r.cuts;
      token = sym e ∙ ap (λ u. record { kind = kind; hidden = false; text = text; rest = u }) rests;
    }

pub lex_replaced-Replaces :
    (kind : ℕ) (w text s : String) (t : Lexed)
    → lex_replaced kind w text s ≡ some t
    → Replaces kind w text s t
unfolding lex_replaced
lex_replaced-Replaces kind w text s t h = elim (Option-cases (match_string w s)) [
  | inl e ↦ cc (rw e at h)
  | inr (m, e) ↦ replaced_of kind w text s t m (match_string-Reads w s m e) (rw e at h)
]

-- What a token of a rule for a word comes from.
pub record SpelledBy (kind : ℕ) (w s : String) (t : Lexed) : Type 0 where
  pub has_kind : t.kind ≡ kind
  pub spells : Spells w t.text
  pub cuts : t.text ++ t.rest ≡ s

pub lex_word-SpelledBy :
    (kind : ℕ) (w s : String) (t : Lexed) → lex_word kind w s ≡ some t → SpelledBy kind w s t
unfolding lex_word
lex_word-SpelledBy kind w s t h = elim (Option-cases (match_string w s)) [
  | inl e ↦ cc (rw e at h)
  | inr (m, e) ↦
      let r = match_string-Reads w s m e in
      let token : record { kind = kind; hidden = false; text = m.0; rest = m.1 } ≡ t =
        some-injective _ _ (rw e at h) in
      subst (SpelledBy kind w s) token
        (record { has_kind = refl; spells = r.spells; cuts = r.cuts })
]

-- A rule for a word reads any spelling of the word in front of any text, and keeps the spelling.
pub lex_word-Spells :
    (kind : ℕ) (w x rest : String)
    → Spells w x
    → lex_word kind w (x ++ rest)
      ≡ some (record { kind = kind; hidden = false; text = x; rest = rest })
unfolding lex_word
lex_word-Spells kind w x rest h = rw (match_string-Spells w x rest h) refl
