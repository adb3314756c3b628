-- ===== src/LookAhead/Laws.antt =====
-- `look_ahead_index` finds the first child of a type at or behind a position, and never faults.
use pgify.Base.{
  ℕ, zero, suc, ◌+◌, ◌-◌, ◌<◌, ◌≤◌, ◌≡◌, ◌≢◌, inl, inr, refl, sym, ap, ◌∙◌, List, [], ◌∷◌, Option,
  none, some, ◌==◌, if◌then◌else◌, length, get_elem?, drop, length-drop, get_elem?-drop, arith,
  Bool-cases, eq_of_test, ne_of_test,
}
use pgify.Antlr.{Antlr, get_type, children, get_child_lem, get_child_count_lem}
use pgify.Result.{ok}
use pgify.LookAhead.{scan_index, look_ahead_index}

module _ {T : Type 0} ⦃a : Antlr T⦄ where
  -- The position of the first child of a type in a list whose head has the position `c`.
  abbrev pub find_type : ℕ → ℕ → List T → Option ℕ
  find_type lookfor c [] = none
  find_type lookfor c (x ∷ xs) =
      if get_type x == lookfor then some c else find_type lookfor (suc c) xs

  pub drop-cons :
      (xs : List T) (c : ℕ) {y : T} {ys : List T}
      → drop c xs ≡ y ∷ ys
      → (get_elem? xs c ≡ some y) × (drop (suc c) xs ≡ ys)
  drop-cons [] zero h = cc
  drop-cons [] (suc c) h = cc
  drop-cons (x ∷ xs) zero h = (cc, cc)
  drop-cons (x ∷ xs) (suc c) h = drop-cons xs c h

  scan_index-eq :
      (tree : T) (lookfor c : ℕ) (ys : List T)
      → drop c (children tree) ≡ ys
      → scan_index tree lookfor c (length ys) ≡ ok (find_type lookfor c ys)
  unfolding scan_index
  scan_index-eq tree lookfor c [] h = refl
  scan_index-eq tree lookfor c (y ∷ ys) h =
      let (here, next) = drop-cons (children tree) c h in
      ground (arith, get_child_lem tree c, here, scan_index-eq tree lookfor (suc c) ys next)

  -- The search is the first match in the children from the position on.
  pub look_ahead_index-eq :
      (tree : T) (from lookfor : ℕ)
      → look_ahead_index tree from lookfor ≡ ok (find_type lookfor from (drop from (children tree)))
  unfolding look_ahead_index
  look_ahead_index-eq tree from lookfor =
      rw (get_child_count_lem tree, ← length-drop from (children tree))
        (scan_index-eq tree lookfor from (drop from (children tree)) refl)

  find_type-none :
      (xs : List T) (lookfor c i : ℕ) {x : T}
      → find_type lookfor c xs ≡ none
      → get_elem? xs i ≡ some x
      → get_type x ≢ lookfor
  find_type-none [] lookfor c i h e = cc
  find_type-none (y ∷ xs) lookfor c zero {x} h e = ground (arith, ne_of_test (get_type x) lookfor)
  find_type-none (y ∷ xs) lookfor c (suc i) h e =
      find_type-none xs lookfor (suc c) i (ground arith) e

  find_type-some :
      (xs : List T) (lookfor c p : ℕ)
      → find_type lookfor c xs ≡ some p
      → (i : ℕ) × (p ≡ c + i) × (x : T) × (get_elem? xs i ≡ some x) × (get_type x ≡ lookfor)
  find_type-some [] lookfor c p h = cc
  find_type-some (x ∷ xs) lookfor c p h = elim (Bool-cases (get_type x == lookfor)) [
    | inl e ↦ (0, ground arith, x, refl, eq_of_test (get_type x) lookfor e)
    | inr e ↦
        let (i, pi, y, at, same) = find_type-some xs lookfor (suc c) p (ground arith) in
        (suc i, omega arith, y, at, same)
  ]

  find_type-before :
      (xs : List T) (lookfor c p : ℕ)
      → find_type lookfor c xs ≡ some p
      → (i : ℕ) {x : T} → c + i < p
      → get_elem? xs i ≡ some x
      → get_type x ≢ lookfor
  find_type-before [] lookfor c p h i lt e = cc
  find_type-before (y ∷ xs) lookfor c p h zero {x} lt e =
      ground (arith, ne_of_test (get_type x) lookfor)
  find_type-before (y ∷ xs) lookfor c p h (suc i) lt e = elim (Bool-cases (get_type y == lookfor)) [
    | inl same ↦ absurd (ground arith)
    | inr other ↦ find_type-before xs lookfor (suc c) p (ground arith) i (omega arith) e
  ]

-- What a search for the first child of a type, from a position on, has to answer.
pub data IsFirstFrom {T : Type 0} ⦃a : Antlr T⦄ (tree : T) (from lookfor : ℕ)
    : Option ℕ → Type 0 where
  absent :
      ((i : ℕ) (c : T) → from ≤ i → get_elem? (children tree) i ≡ some c → get_type c ≢ lookfor)
      → IsFirstFrom tree from lookfor none
  present :
      (p : ℕ) (x : T)
      → from ≤ p
      → get_elem? (children tree) p ≡ some x
      → get_type x ≡ lookfor
      → ((i : ℕ) (c : T)
          → from ≤ i
          → i < p
          → get_elem? (children tree) i ≡ some c
          → get_type c ≢ lookfor)
      → IsFirstFrom tree from lookfor (some p)

module _ {T : Type 0} ⦃a : Antlr T⦄ where
  behind :
      (xs : List T) (from i : ℕ) {c : T}
      → from ≤ i
      → get_elem? xs i ≡ some c
      → get_elem? (drop from xs) (i - from) ≡ some c
  behind xs from i le e =
      get_elem?-drop from xs (i - from)
      ∙ ap (get_elem? xs) {x = from + (i - from)} {y = i} (omega arith)
      ∙ e

  find_type-IsFirstFrom :
      (tree : T) (from lookfor : ℕ) (o : Option ℕ)
      → find_type lookfor from (drop from (children tree)) ≡ o
      → IsFirstFrom tree from lookfor o
  find_type-IsFirstFrom tree from lookfor none h =
      absent (λ i c le e.
        find_type-none _ lookfor from (i - from) h (behind (children tree) from i le e))
  find_type-IsFirstFrom tree from lookfor (some p) h =
      let (i, pi, x, at, same) = find_type-some _ lookfor from p h in
      present p x (omega arith)
        (ap (get_elem? (children tree)) {x = p} {y = from + i} (omega arith)
          ∙ sym (get_elem?-drop from (children tree) i)
          ∙ at)
        same
        (λ j c le lt e.
          find_type-before _ lookfor from p h (j - from) (omega arith)
            (behind (children tree) from j le e))

  -- The search never dereferences a missing child; it answers the position of the first child of
  -- the type at or behind `from`, and none exactly if there is no such child.
  pub look_ahead_index_lem :
      (tree : T) (from lookfor : ℕ)
      → (o : Option ℕ) × (look_ahead_index tree from lookfor ≡ ok o)
        × IsFirstFrom tree from lookfor o
  look_ahead_index_lem tree from lookfor =
      (_, look_ahead_index-eq tree from lookfor, find_type-IsFirstFrom tree from lookfor _ refl)
