-- ===== src/Printer/Layout.antt =====
-- Where the tokens of a source text stand, and which leaf each visible one becomes.
use pgify.Base.{
  ℕ, ◌<◌, ◌≡◌, ◌⊎◌, inl, inr, ◌∙◌, Bool, true, false, ◌||◌, List, [], ◌∷◌, pos, lt_int, le_int, ltb,
  leb, arith,
}
use pgify.Antlr.{Antlr, get_text, get_line, get_char_position}
use pgify.Printer.{Token}

-- One position in front of another.
abbrev pub IsBefore : ℕ → ℕ → ℕ → ℕ → Type 0
IsBefore l c l' c' = (l < l') ⊎ ((l ≡ l') × (c < c'))

IsBefore-trans :
    (l c l' c' l'' c'' : ℕ) → IsBefore l c l' c' → IsBefore l' c' l'' c'' → IsBefore l c l'' c''
IsBefore-trans l c l' c' l'' c'' (inl p) (inl q) = inl (omega arith)
IsBefore-trans l c l' c' l'' c'' (inl p) (inr q) = inl (omega arith)
IsBefore-trans l c l' c' l'' c'' (inr p) (inl q) = inl (omega arith)
IsBefore-trans l c l' c' l'' c'' (inr p) (inr q) = inr (omega arith)

before_test : (l c l' c' : ℕ) → IsBefore l c l' c' → (ltb l l' || leb c c') ≡ true
before_test l c l' c' (inl p) = ground arith
before_test l c l' c' (inr p) = ground arith

module _ {T : Type 0} ⦃a : Antlr T⦄ where
  -- The leaf that the parser makes of a token.
  pub record Mirrors (t : Token) (x : T) : Type 0 where
    pub same_line : get_line x ≡ t.line
    pub same_position : get_char_position x ≡ t.char_position
    pub same_text : get_text x ≡ t.text

  -- The test of `advance` at a leaf.
  abbrev pub passes : T → Token → Bool
  passes x t = lt_int t.line (get_line x) || le_int t.char_position (get_char_position x)

  -- The tokens of a text, of which the first stands at a line and a column, and the leaves of the
  -- visible ones. Tokens follow each other; only a hidden token ends its line.
  pub data Layout : ℕ → ℕ → List Token → List T → Type 0 where
    stop : {l c : ℕ} → Layout l c [] []
    hidden :
        {l c l' c' : ℕ} {ts : List Token} {xs : List T} (t : Token)
        → t.hidden ≡ true
        → t.line ≡ pos l
        → t.char_position ≡ pos c
        → IsBefore l c l' c'
        → Layout l' c' ts xs
        → Layout l c (t ∷ ts) xs
    visible :
        {l c c' : ℕ} {ts : List Token} {xs : List T} (t : Token) (x : T)
        → t.hidden ≡ false
        → t.line ≡ pos l
        → t.char_position ≡ pos c
        → Mirrors t x
        → c < c'
        → Layout l c' ts xs
        → Layout l c (t ∷ ts) (x ∷ xs)

  -- The first leaf, if there is one, lets a hidden token pass.
  abbrev pub HeadPasses : Token → List T → Type 0
  HeadPasses t [] = Unit {0}
  HeadPasses t (x ∷ xs) = passes x t ≡ true

  -- The first hidden token, if there is one, stops at a leaf.
  abbrev pub FirstStops : T → List Token → Type 0
  FirstStops x [] = Unit {0}
  FirstStops x (t ∷ ts) =
      ((t.hidden ≡ true) × (passes x t ≡ false)) ⊎ ((t.hidden ≡ false) × FirstStops x ts)

  -- What the printer needs of a text: each hidden token stands in front of the next leaf, and behind
  -- the one before it.
  pub data Aligned : List Token → List T → Type 0 where
    stop : Aligned [] []
    hidden :
        {ts : List Token} {xs : List T} (t : Token)
        → t.hidden ≡ true
        → HeadPasses t xs
        → Aligned ts xs
        → Aligned (t ∷ ts) xs
    visible :
        {ts : List Token} {xs : List T} (t : Token) (x : T)
        → t.hidden ≡ false
        → get_text x ≡ t.text
        → FirstStops x ts
        → Aligned ts xs
        → Aligned (t ∷ ts) (x ∷ xs)

  passes-eq :
      (t : Token) (x : T) (l c l' c' : ℕ)
      → t.line ≡ pos l
      → t.char_position ≡ pos c
      → get_line x ≡ pos l'
      → get_char_position x ≡ pos c'
      → passes x t ≡ (ltb l l' || leb c c')
  passes-eq t x l c l' c' h₁ h₂ h₃ h₄ = simp (h₁, h₂, h₃, h₄)

  Layout-HeadPasses :
      (t : Token) (l c : ℕ) {l' c' : ℕ} {ts : List Token} {xs : List T}
      → t.line ≡ pos l
      → t.char_position ≡ pos c
      → IsBefore l c l' c'
      → Layout l' c' ts xs
      → HeadPasses t xs
  Layout-HeadPasses t l c h k b stop = tt
  Layout-HeadPasses t l c h k b
        (hidden {l = l'} {c = c'} {l' = l''} {c' = c''} t' e h' k' b' rest) =
      Layout-HeadPasses t l c h k (IsBefore-trans l c l' c' l'' c'' b b') rest
  Layout-HeadPasses t l c h k b (visible {l = l'} {c = c'} t' x e h' k' m lt rest) =
      passes-eq t x l c l' c' h k (m.same_line ∙ h') (m.same_position ∙ k')
      ∙ before_test l c l' c' b

  Layout-FirstStops :
      (x : T) (l c : ℕ) {c' : ℕ} {ts : List Token} {xs : List T}
      → get_line x ≡ pos l
      → get_char_position x ≡ pos c
      → c < c'
      → Layout l c' ts xs
      → FirstStops x ts
  Layout-FirstStops x l c h k lt stop = tt
  Layout-FirstStops x l c h k lt (hidden {c = c'} t e h' k' b rest) =
      inl (e, passes-eq t x l c' l c h' k' h k ∙ ground arith)
  Layout-FirstStops x l c h k lt (visible {c = c'} {c' = c''} t y e h' k' m lt' rest) =
      inr (e, Layout-FirstStops x l c h k (omega arith) rest)

  -- A text that is laid out is aligned.
  pub Layout-Aligned : {l c : ℕ} {ts : List Token} {xs : List T} → Layout l c ts xs → Aligned ts xs
  Layout-Aligned stop = stop
  Layout-Aligned (hidden {l} {c} t e h k b rest) =
      hidden t e (Layout-HeadPasses t l c h k b rest) (Layout-Aligned rest)
  Layout-Aligned (visible {l} {c} t x e h k m lt rest) =
      visible t x e m.same_text
        (Layout-FirstStops x l c (m.same_line ∙ h) (m.same_position ∙ k) lt rest)
        (Layout-Aligned rest)
