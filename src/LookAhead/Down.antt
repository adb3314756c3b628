-- ===== src/LookAhead/Down.antt =====
-- `look_ahead_down` decides whether a node of a type stands below a tree, and the depth of the tree
-- is enough fuel.
use pgify.Base.{
  length-drop, ℕ, zero, suc, ◌-◌, ◌≤◌, ◌≡◌, ◌≢◌, ◌⊎◌, inl, inr, refl, sym, ap, ◌∙◌, List, [], ◌∷◌,
  Option, none, some, ◌==◌, length, get_elem?, drop, lt_of_get_elem?, arith, Bool-cases, eq_of_test,
  ne_of_test, test_of_eq,
}
use mathlib.Core.Path.{subst}
use native.Mathlib.Nat.{sub-zero}
use mathlib.Core.Option.{some-injective}
use pgify.Antlr.{
  Antlr, get_type, get_child, get_child_count, children, height, get_child_lem, get_child_count_lem,
  height-child,
}
use pgify.Result.{ok}
use pgify.LookAhead.{scan_down, look_ahead_down}
use pgify.LookAhead.Laws.{drop-cons}

-- A node of the type stands somewhere below the tree.
pub data Occurs {T : Type 0} ⦃a : Antlr T⦄ (lookfor : ℕ) : T → Type 0 where
  child :
      {tree : T} (c : T) (i : ℕ)
      → get_elem? (children tree) i ≡ some c
      → get_type c ≡ lookfor
      → Occurs lookfor tree
  deeper :
      {tree : T} (c : T) (i : ℕ)
      → get_elem? (children tree) i ≡ some c
      → Occurs lookfor c
      → Occurs lookfor tree

-- What a search below a tree answers.
pub data IsAnswer {T : Type 0} ⦃a : Antlr T⦄ (lookfor : ℕ) (tree : T) : Option ℕ → Type 0 where
  nowhere : ¬ (Occurs lookfor tree) → IsAnswer lookfor tree none
  somewhere : (p : ℕ) → Occurs lookfor tree → IsAnswer lookfor tree (some p)

module _ {T : Type 0} ⦃a : Antlr T⦄ where
  -- What the loop has to answer on the children that are left.
  abbrev pub Answers : ℕ → List T → Option ℕ → Type 0
  Answers lookfor ys none =
      (i : ℕ) (c : T) → get_elem? ys i ≡ some c → (get_type c ≢ lookfor) × ¬ (Occurs lookfor c)
  Answers lookfor ys (some p) =
      (i : ℕ) × (c : T) × (get_elem? ys i ≡ some c) × ((get_type c ≡ lookfor) ⊎ Occurs lookfor c)

  Answers-cons_none :
      (lookfor : ℕ) (y : T) (ys : List T)
      → get_type y ≢ lookfor
      → ¬ (Occurs lookfor y)
      → Answers lookfor ys none
      → Answers lookfor (y ∷ ys) none
  Answers-cons_none lookfor y ys ne no_below rest zero c e = (
    λ s. ne (ap get_type (some-injective _ _ e) ∙ s),
    λ s. no_below (subst (Occurs lookfor) (sym (some-injective _ _ e)) s),
  )
  Answers-cons_none lookfor y ys ne no_below rest (suc i) c e = rest i c e

  Answers-cons :
      (lookfor : ℕ) (y : T) (ys : List T) (o : Option ℕ)
      → get_type y ≢ lookfor
      → ¬ (Occurs lookfor y)
      → Answers lookfor ys o
      → Answers lookfor (y ∷ ys) o
  Answers-cons lookfor y ys none ne no_below rest = Answers-cons_none lookfor y ys ne no_below rest
  Answers-cons lookfor y ys (some p) ne no_below (i, c, e, s) = (suc i, c, e, s)

  Occurs-of_answer :
      (lookfor : ℕ) (t : T) (p : ℕ) → Answers lookfor (children t) (some p) → Occurs lookfor t
  Occurs-of_answer lookfor t p (i, c, e, inl s) = child c i e s
  Occurs-of_answer lookfor t p (i, c, e, inr s) = deeper c i e s

  not-Occurs-of_answer :
      (lookfor : ℕ) (t : T) → Answers lookfor (children t) none → ¬ (Occurs lookfor t)
  not-Occurs-of_answer lookfor t h (child c i e s) = (h i c e).0 s
  not-Occurs-of_answer lookfor t h (deeper c i e s) = (h i c e).1 s

  abbrev Scans : ℕ → ℕ → T → ℕ → List T → Type 0
  Scans fuel lookfor t c ys =
      (o : Option ℕ) × (scan_down fuel t lookfor c (length ys) ≡ ok o) × Answers lookfor ys o

  -- One round of the loop, from the search below the child and the rounds that are left.
  scan_down_round :
      (fuel lookfor : ℕ) (t y : T) (c : ℕ) (ys : List T)
      → get_child t c ≡ some y
      → Scans fuel lookfor y 0 (children y)
      → Scans (suc fuel) lookfor t (suc c) ys
      → Scans (suc fuel) lookfor t c (y ∷ ys)
  unfolding scan_down
  scan_down_round fuel lookfor t y c ys at (none, below, no_below) (o, later, rest) =
      elim (Bool-cases (get_type y == lookfor)) [
        | inl e ↦ (some c, ground arith, (0, y, refl, inl (eq_of_test _ _ e)))
        | inr e ↦ (
          o,
          ground (arith, get_child_count_lem y),
          Answers-cons lookfor y ys o (ne_of_test _ _ e) (not-Occurs-of_answer lookfor y no_below)
              rest,
        )
      ]
  scan_down_round fuel lookfor t y c ys at (some d, below, (i, x, here, s)) (o, later, rest) =
      elim (Bool-cases (get_type y == lookfor)) [
        | inl e ↦ (some c, ground arith, (0, y, refl, inl (eq_of_test _ _ e)))
        | inr e ↦ (
          some d,
          ground (arith, get_child_count_lem y, lt_of_get_elem? (children y) i here),
          (0, y, refl, inr (Occurs-of_answer lookfor y d (i, x, here, s))),
        )
      ]

  scan_down_lem :
      (fuel lookfor : ℕ) (t : T) (c : ℕ) (ys : List T)
      → height t ≤ fuel
      → drop c (children t) ≡ ys
      → Scans fuel lookfor t c ys
  scan_down_lem zero lookfor t c [] h d = (none, unfold scan_down in refl, λ i x e. cc)
  scan_down_lem (suc fuel) lookfor t c [] h d = (none, unfold scan_down in refl, λ i x e. cc)
  scan_down_lem zero lookfor t c (y ∷ ys) h d =
      absurd (omega (arith, height-child t y c (drop-cons (children t) c d).0))
  scan_down_lem (suc fuel) lookfor t c (y ∷ ys) h d =
      let (here, next) = drop-cons (children t) c d in
      scan_down_round fuel lookfor t y c ys (get_child_lem t c ∙ here)
        (scan_down_lem fuel lookfor y 0 (children y) (omega (arith, height-child t y c here)) refl)
        (scan_down_lem (suc fuel) lookfor t (suc c) ys h next)

  IsAnswer-Answers :
      (lookfor : ℕ) (tree : T) (o : Option ℕ)
      → Answers lookfor (children tree) o
      → IsAnswer lookfor tree o
  IsAnswer-Answers lookfor tree none answers = nowhere (not-Occurs-of_answer lookfor tree answers)
  IsAnswer-Answers lookfor tree (some p) answers =
      somewhere p (Occurs-of_answer lookfor tree p answers)

  -- The search from the first child always ends without a fault; it answers a position if a node of
  -- the type stands below the tree, and none if there is no such node.
  pub look_ahead_down_lem :
      (tree : T) (lookfor : ℕ)
      → (o : Option ℕ) × (look_ahead_down tree 0 lookfor ≡ ok o) × IsAnswer lookfor tree o
  unfolding look_ahead_down
  look_ahead_down_lem tree lookfor =
      let (o, runs, answers) =
        scan_down_lem (height tree) lookfor tree 0 (children tree) (omega arith) refl in
      (o, rw (get_child_count_lem, sub-zero) runs, IsAnswer-Answers lookfor tree o answers)

  -- From whichever position it starts, the search ends without a fault.
  pub look_ahead_down-ends :
      (tree : T) (from lookfor : ℕ) → (o : Option ℕ) × (look_ahead_down tree from lookfor ≡ ok o)
  unfolding look_ahead_down
  look_ahead_down-ends tree from lookfor =
      let (o, runs, answers) =
        scan_down_lem (height tree) lookfor tree from (drop from (children tree)) (omega arith)
          refl in
      (o, rw (get_child_count_lem, ← length-drop from (children tree)) runs)

  scan_down_first :
      (fuel left lookfor : ℕ) (tree x : T)
      → get_child tree 0 ≡ some x
      → get_type x ≡ lookfor
      → scan_down (suc fuel) tree lookfor 0 (suc left) ≡ ok (some 0)
  unfolding scan_down
  scan_down_first fuel left lookfor tree x h k = rw (h, test_of_eq _ _ k) refl

  -- The first child has the type: the search ends there.
  pub look_ahead_down-first :
      (tree x : T) (xs : List T) (lookfor : ℕ)
      → children tree ≡ x ∷ xs
      → get_type x ≡ lookfor
      → look_ahead_down tree 0 lookfor ≡ ok (some 0)
  unfolding look_ahead_down
  look_ahead_down-first tree x xs lookfor h k =
      let fuel = height tree - 1 in
      let above : height tree ≡ suc fuel = omega (arith, height-child tree x 0 (rw h refl)) in
      let count : get_child_count tree - 0 ≡ suc (length xs) =
        sub-zero (get_child_count tree) ∙ get_child_count_lem tree ∙ ap length h in
      ap (λ n. scan_down n tree lookfor 0 (get_child_count tree - 0)) above
      ∙ ap (λ n. scan_down (suc fuel) tree lookfor 0 n) count
      ∙ scan_down_first fuel (length xs) lookfor tree x (get_child_lem tree 0 ∙ rw h refl) k
