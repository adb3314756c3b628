-- ===== src/Children/Passes.antt =====
-- The loop over the children is a fold over the vector of children.
use pgify.Base.{ℕ, suc, ◌≡◌, refl, List, [], ◌∷◌, drop, length}
use pgify.Antlr.{Antlr, children, get_child_lem, get_child_count_lem}
use pgify.Children.{children_from, for_children}
use pgify.LookAhead.Laws.{drop-cons}
use native.Mathlib.Numerals.{add-one}
use mathlib.Core.List.{foldl}
use pgify.Result.{bind-cong, Result, ok, ◌>>=◌}

-- A body run on the elements of a list in order, up to the first fault.
abbrev pub fold_result : {S A : Type 0} → (S → A → Result S) → S → List A → Result S
fold_result body s [] = ok s
fold_result body s (x ∷ xs) = body s x >>= λ s'. fold_result body s' xs

-- A body that never faults folds to a plain value.
pub fold_result-ok :
    {S A : Type 0} (body : S → A → Result S) (f : S → A → S)
    → ((s : S) (x : A) → body s x ≡ ok (f s x))
    → (s : S) (xs : List A) → fold_result body s xs ≡ ok (foldl f s xs)
fold_result-ok body f h s [] = refl
fold_result-ok body f h s (x ∷ xs) = rw (h s x) (fold_result-ok body f h (f s x) xs)

module _ {T : Type 0} ⦃a : Antlr T⦄ {S : Type 0} (tree : T) (body : S → T → Result S) where
  children_from-eq :
      (ys : List T) (c : ℕ) (s : S)
      → drop c (children tree) ≡ ys
      → children_from tree body c (length ys) s ≡ fold_result body s ys
  unfolding children_from
  children_from-eq [] c s d = refl
  children_from-eq (y ∷ ys) c s d =
      let (here, next) = drop-cons (children tree) c d in
      rw (get_child_lem tree c, here)
        (bind-cong (body s y) _ _ (λ s'. rw add-one (children_from-eq ys (suc c) s' next)))

  pub for_children-eq : (s : S) → for_children tree body s ≡ fold_result body s (children tree)
  unfolding for_children
  for_children-eq s = rw get_child_count_lem (children_from-eq (children tree) 0 s refl)
