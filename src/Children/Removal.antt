-- ===== src/Children/Removal.antt =====
-- The loop that removes each child of a type with the comma in front of it, against one pass over
-- the list of children.
mod Comma
pub use Comma.*
use pgify.Base.{
  ℕ, zero, suc, ◌<◌, ◌≤◌, ◌≡◌, ◌≢◌, inl, inr, refl, sym, ap, ◌∙◌, List, [], ◌∷◌, ◌++◌, none, some,
  length, length-append, get_elem?, get_elem?-append, remove_at, remove_at-append, ◌==◌,
  if◌then◌else◌, arith, Bool-cases, Option-cases, ne_of_test, test_of_ne, test_of_eq,
}
use mathlib.Core.List.{append_assoc, append-nil}
use pgify.Antlr.{
  Antlr, get_type, children, get_child_count, get_child, delete_child, get_child_lem,
  get_child_count_lem, children-delete_child, type-delete_child,
}
use pgify.LookAhead.Laws.{find_type, look_ahead_index-eq}
use pgify.Result.{bind-eq-ok, Result, ok}
use pgify.TokenTypes.{comma}
use pgify.Children.{delete_with_comma, each_with_comma_loop, each_with_comma}
use pgify.Children.Passes.{fold_result}
use pgify.Children.Split.{
  IsFree, IsFree-append, of_type, find_type-SplitsAt, find_type-IsFree, of_type-IsFree, Rewritten,
}

module _ {T : Type 0} ⦃a : Antlr T⦄ where
  abbrev Strips : {S : Type 0} → ℕ → (S → T → Result S) → ℕ → S → S → T → Type 0
  Strips kind body fuel s s' tree =
      (tree' : T) × (each_with_comma_loop kind body fuel s tree ≡ ok (s', tree'))
      × Rewritten tree tree' (strip kind [] (children tree))

  strip_front :
      (kind : ℕ) (xs ys : List T) (y : T)
      → IsFree kind xs
      → get_type y ≡ kind
      → strip kind [] (xs ++ y ∷ ys) ≡ strip kind [] (without_last_comma xs ++ ys)
  strip_front kind xs ys y f k =
      strip-IsFree kind [] xs (y ∷ ys) f
      ∙ rw (test_of_eq _ _ k, strip)
          (sym
            (strip-IsFree kind [] (without_last_comma xs) ys (IsFree-without_last_comma kind xs f)))

  -- One round, on the child that the search finds.
  each_with_comma_round :
      {S : Type 0} (kind : ℕ) (body : S → T → Result S) (fuel : ℕ) (s s' : S) (tree : T) (x : T)
      (xs : List T) (y : T) (ys : List T)
      → children tree ≡ (x ∷ xs) ++ y ∷ ys
      → IsFree kind (x ∷ xs)
      → get_type y ≡ kind
      → find_type kind 0 (children tree) ≡ some (length (x ∷ xs))
      → fold_result body s (y ∷ of_type kind ys) ≡ ok s'
      → ((s₁ : S) (t : T)
          → children t ≡ without_last_comma (x ∷ xs) ++ ys
          → fold_result body s₁ (of_type kind ys) ≡ ok s'
          → Strips kind body fuel s₁ s' t)
      → Strips kind body (suc fuel) s s' tree
  unfolding each_with_comma_loop
  each_with_comma_round kind body fuel s s' tree x xs y ys h f k at runs later =
      let (s₁, now, rest) =
        bind-eq-ok (body s y) (λ t. fold_result body t (of_type kind ys)) runs in
      let (t₁, deleted, shape) = delete_with_comma_lem tree x xs y ys h in
      let (t', loops, shape') = later s₁ t₁ shape.children_are rest in
      let here : get_child tree (length (x ∷ xs)) ≡ some y =
        get_child_lem tree (length (x ∷ xs)) ∙ rw h (get_elem?-append (x ∷ xs) y ys) in
      (
        t',
        rw (look_ahead_index-eq tree 0 kind, at, here, now, deleted) loops,
        record {
          type_kept = shape'.type_kept ∙ shape.type_kept;
          children_are =
              shape'.children_are
              ∙ ap (strip kind []) shape.children_are
              ∙ sym (ap (strip kind []) h ∙ strip_front kind (x ∷ xs) ys y f k);
        },
      )

  each_with_comma_end :
      {S : Type 0} (kind : ℕ) (body : S → T → Result S) (fuel : ℕ) (s s' : S) (tree : T)
      → find_type kind 0 (children tree) ≡ none
      → fold_result body s (of_type kind (children tree)) ≡ ok s'
      → Strips kind body (suc fuel) s s' tree
  unfolding each_with_comma_loop
  each_with_comma_end kind body fuel s s' tree e runs =
      let free = find_type-IsFree kind 0 (children tree) e in
      let none_left : of_type kind (children tree) ≡ [] =
        rw append-nil at (of_type-IsFree kind (children tree) [] free) in
      let same : strip kind [] (children tree) ≡ children tree =
        rw append-nil at (strip-IsFree kind [] (children tree) [] free) in
      let kept : ok s ≡ ok s' = rw none_left at runs in
      (
        tree,
        rw (look_ahead_index-eq tree 0 kind, e) (cc kept),
        record { type_kept = refl; children_are = sym same },
      )

  -- The child found is not the first one, since the list starts plain.
  each_with_comma_found :
      {S : Type 0} (kind : ℕ) (body : S → T → Result S) (fuel : ℕ) (s s' : S) (tree : T)
      (front : List T) (y : T) (ys : List T)
      → children tree ≡ front ++ y ∷ ys
      → IsFree kind front
      → get_type y ≡ kind
      → find_type kind 0 (children tree) ≡ some (length front)
      → StartsPlain kind (children tree)
      → fold_result body s (of_type kind (children tree)) ≡ ok s'
      → ((s₁ : S) (t : T)
          → length (children t) < length (children tree)
          → StartsPlain kind (children t)
          → fold_result body s₁ (of_type kind (children t)) ≡ ok s'
          → Strips kind body fuel s₁ s' t)
      → Strips kind body (suc fuel) s s' tree
  each_with_comma_found kind body fuel s s' tree [] y ys h f k at plain runs later =
      absurd ((rw h at plain).0 k)
  each_with_comma_found kind body fuel s s' tree (x ∷ xs) y ys h f k at plain runs later =
      let plain' : StartsPlain kind ((x ∷ xs) ++ y ∷ ys) = rw h at plain in
      let runs' : fold_result body s (y ∷ of_type kind ys) ≡ ok s' =
        rw (h, of_type-IsFree kind (x ∷ xs) (y ∷ ys) f, test_of_eq _ _ k, of_type) at runs in
      each_with_comma_round kind body fuel s s' tree x xs y ys h f k at runs' (λ s₁ t e r.
        later s₁ t
          (omega (
            arith,
            ap length e,
            ap length h,
            length-append {0} (without_last_comma (x ∷ xs)) ys,
            length-append {0} (x ∷ xs) (y ∷ ys),
            without_last_comma-le (x ∷ xs),
          ))
          (rw e (StartsPlain-without_last_comma kind x xs ys plain'))
          (rw
            (
              e,
              of_type-IsFree kind (without_last_comma (x ∷ xs)) ys
                  (IsFree-without_last_comma kind (x ∷ xs) f),
            )
            r))

  each_with_comma_loop_lem :
      {S : Type 0} (kind : ℕ) (body : S → T → Result S) (fuel : ℕ) (s s' : S) (tree : T)
      → length (children tree) < fuel
      → StartsPlain kind (children tree)
      → fold_result body s (of_type kind (children tree)) ≡ ok s'
      → Strips kind body fuel s s' tree
  each_with_comma_loop_lem kind body zero s s' tree h plain runs = absurd (omega arith)
  each_with_comma_loop_lem kind body (suc fuel) s s' tree h plain runs =
      elim (Option-cases (find_type kind 0 (children tree))) [
        | inl e ↦ each_with_comma_end kind body fuel s s' tree e runs
        | inr (p, e) ↦
            let f = find_type-SplitsAt kind 0 (children tree) p e in
            each_with_comma_found kind body fuel s s' tree f.front f.at f.rest f.splits f.free
              f.is_kind (e ∙ ap some {x = p} {y = length f.front} (omega (arith, f.position))) plain
              runs
              (λ s₁ t lt plain' runs'.
                each_with_comma_loop_lem kind body fuel s₁ s' t (omega arith) plain' runs')
      ]

  -- If the first child is neither of the type nor a comma, and the body runs on the children of the
  -- type from left to right without a fault, then the loop ends without a fault with the state that
  -- these runs leave, and what is left of the children is what one pass from left to right keeps,
  -- which takes the last comma kept along with each child of the type.
  pub each_with_comma_lem :
      {S : Type 0} (kind : ℕ) (body : S → T → Result S) (s s' : S) (tree : T)
      → StartsPlain kind (children tree)
      → fold_result body s (of_type kind (children tree)) ≡ ok s'
      → (tree' : T) × (each_with_comma kind body s tree ≡ ok (s', tree'))
        × Rewritten tree tree' (strip kind [] (children tree))
  unfolding each_with_comma
  each_with_comma_lem kind body s s' tree plain runs =
      each_with_comma_loop_lem kind body (suc (get_child_count tree)) s s' tree
        (omega (arith, get_child_count_lem tree)) plain runs

  strip_keeps_IsFree :
      (kind : ℕ) (kept xs : List T) → IsFree kind kept → IsFree kind (strip kind kept xs)
  strip_keeps_IsFree kind kept [] f = f
  strip_keeps_IsFree kind kept (x ∷ xs) f = elim (Bool-cases (get_type x == kind)) [
    | inl e ↦
        rw (e, strip)
          (strip_keeps_IsFree kind (without_last_comma kept) xs
            (IsFree-without_last_comma kind kept f))
    | inr e ↦
        rw (e, strip)
          (strip_keeps_IsFree kind (kept ++ x ∷ []) xs
            (IsFree-append kind kept (x ∷ []) f (ne_of_test _ _ e, tt)))
  ]

  -- What the pass keeps has no child of the type.
  pub IsFree-strip : (kind : ℕ) (xs : List T) → IsFree kind (strip kind [] xs)
  IsFree-strip kind xs = strip_keeps_IsFree kind [] xs tt
