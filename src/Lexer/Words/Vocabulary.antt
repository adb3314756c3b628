-- ===== src/Lexer/Words/Vocabulary.antt =====
-- The keywords together: what is read as a keyword has one token type.
use Prim.Native.Char.{code}
use Prim.Native.String.{[], ◌∷◌}
use mathlib.Core.Option.{some-injective}
use mathlib.Core.Path.{subst}
use text.Mathlib.Text.{◌==◌ as is_same}
use text.Mathlib.TextEquality.{Char-path}
use pgify.Base.{
  ℕ, String, ◌≡◌, refl, sym, ap, ◌∙◌, Bool, true, false, ◌&&◌, ◌⊎◌, inl, inr, List, Option, none,
  some, ◌==◌, if◌then◌else◌, eq_of_test, arith,
}
use pgify.Lexer.{Lexed}
use pgify.Lexer.Words.{upper}
use pgify.Lexer.Words.Keyword.{Keyword, keyword, type_of, word_of, rule_of}
use pgify.Lexer.Words.Keywords.{vocabulary}
use pgify.Lexer.Words.Laws.{Spells, upper-WrittenAs, SpelledBy, lex_word-SpelledBy}

-- The keyword is one of a list, or of one of some groups.
abbrev pub Listed : Keyword → List Keyword → Type 0
Listed k List.[] = ⊥
Listed k (List.◌∷◌ w ws) = (k ≡ w) ⊎ Listed k ws

abbrev pub IsKeyword : Keyword → List (ℕ × List Keyword) → Type 0
IsKeyword k List.[] = ⊥
IsKeyword k (List.◌∷◌ g gs) = Listed k g.1 ⊎ IsKeyword k gs

-- The token type of a word, looked up in the group of its first letter.
abbrev find_word : List Keyword → String → Option ℕ
find_word List.[] w = none
find_word (List.◌∷◌ k ks) w = if is_same (word_of k) w then some (type_of k) else find_word ks w

abbrev first_letter : String → ℕ
first_letter [] = 0
first_letter (c ∷ s) = code c

abbrev kind_in : List (ℕ × List Keyword) → String → Option ℕ
kind_in List.[] w = none
kind_in (List.◌∷◌ g gs) w = if g.0 == first_letter w then find_word g.1 w else kind_in gs w

abbrev is_kind : Option ℕ → ℕ → Bool
is_kind none k = false
is_kind (some n) k = n == k

-- Each keyword of a list is found under its word.
abbrev all_found : List Keyword → Bool
all_found List.[] = true
all_found (List.◌∷◌ k ks) = is_kind (kind_in vocabulary (word_of k)) (type_of k) && all_found ks

abbrev groups_found : List (ℕ × List Keyword) → Bool
groups_found List.[] = true
groups_found (List.◌∷◌ g gs) = all_found g.1 && groups_found gs

vocabulary_found : groups_found vocabulary ≡ true
vocabulary_found = refl

both_true : (a b : Bool) → (a && b) ≡ true → (a ≡ true) × (b ≡ true)
both_true a b h = ground arith

is_kind-true : (o : Option ℕ) (k : ℕ) → is_kind o k ≡ true → o ≡ some k
is_kind-true none k h = cc
is_kind-true (some n) k h = ap some (eq_of_test n k h)

Found : Keyword → Type 0
Found k = kind_in vocabulary (word_of k) ≡ some (type_of k)

Listed-Found : (k : Keyword) (ks : List Keyword) → all_found ks ≡ true → Listed k ks → Found k
unfolding Found
Listed-Found k List.[] h l = elim l [ ]
Listed-Found k (List.◌∷◌ w ws) h (inl e) =
    subst Found (sym e) (is_kind-true _ _ (both_true _ _ h).0)
Listed-Found k (List.◌∷◌ w ws) h (inr l) = Listed-Found k ws (both_true _ _ h).1 l

IsKeyword-Found :
    (k : Keyword) (gs : List (ℕ × List Keyword)) → groups_found gs ≡ true → IsKeyword k gs → Found k
IsKeyword-Found k List.[] h l = elim l [ ]
IsKeyword-Found k (List.◌∷◌ g gs) h (inl l) = Listed-Found k g.1 (both_true _ _ h).0 l
IsKeyword-Found k (List.◌∷◌ g gs) h (inr l) = IsKeyword-Found k gs (both_true _ _ h).1 l

-- Two texts of the same letters, in either case.
abbrev pub SameLetters : String → String → Type 0
SameLetters [] [] = Unit {0}
SameLetters [] (d ∷ t) = ⊥
SameLetters (c ∷ s) [] = ⊥
SameLetters (c ∷ s) (d ∷ t) = (upper (code c) ≡ upper (code d)) × SameLetters s t

-- Such texts spell one word.
Spells-unique : (w w' x x' : String) → Spells w x → Spells w' x' → SameLetters x x' → w ≡ w'
Spells-unique [] [] x x' h h' e = refl
Spells-unique [] (l' ∷ ls') [] [] h h' e = elim h' [ ]
Spells-unique [] (l' ∷ ls') [] (d ∷ t) h h' e = elim e [ ]
Spells-unique [] (l' ∷ ls') (c ∷ s) x' h h' e = elim h [ ]
Spells-unique (l ∷ ls) w' [] x' h h' e = elim h [ ]
Spells-unique (l ∷ ls) w' (c ∷ s) [] h h' e = elim e [ ]
Spells-unique (l ∷ ls) [] (c ∷ s) (d ∷ t) h h' e = elim h' [ ]
Spells-unique (l ∷ ls) (l' ∷ ls') (c ∷ s) (d ∷ t) h h' e =
    let first : l ≡ l' =
      Char-path l l' (sym (upper-WrittenAs l c h.0) ∙ e.0 ∙ upper-WrittenAs l' d h'.0) in
    λ i. first i ∷ Spells-unique ls ls' s t h.1 h'.1 e.1 i

keyword-SpelledBy :
    (k : Keyword) (s : String) (t : Lexed)
    → rule_of k s ≡ some t
    → SpelledBy (type_of k) (word_of k) s t
keyword-SpelledBy (keyword kind word rule e) s t h = lex_word-SpelledBy kind word s t (rw e at h)

-- Whichever keyword rules read them, and whatever is behind them: two texts of the same letters, in
-- either case, get the same token type.
pub keyword_type :
    (k k' : Keyword) (s s' : String) (t t' : Lexed)
    → IsKeyword k vocabulary
    → IsKeyword k' vocabulary
    → rule_of k s ≡ some t
    → rule_of k' s' ≡ some t'
    → SameLetters t.text t'.text
    → t.kind ≡ t'.kind
unfolding Found
keyword_type k k' s s' t t' listed listed' reads reads' letters =
    let r = keyword-SpelledBy k s t reads in
    let r' = keyword-SpelledBy k' s' t' reads' in
    let words : word_of k ≡ word_of k' =
      Spells-unique _ _ t.text t'.text r.spells r'.spells letters in
    let kinds : some (type_of k) ≡ some (type_of k') =
      sym (IsKeyword-Found k vocabulary vocabulary_found listed)
      ∙ ap (kind_in vocabulary) words
      ∙ IsKeyword-Found k' vocabulary vocabulary_found listed' in
    r.has_kind ∙ some-injective _ _ kinds ∙ sym r'.has_kind
