-- ===== src/Children/Each.antt =====
-- The loop over the children of a type, against a pass over the list of children.
use mathlib.Core.List.{append_assoc, append-nil}
use pgify.Base.{
  ℕ, zero, suc, ◌+◌, ◌<◌, ◌≡◌, refl, sym, ap, ◌∙◌, List, [], ◌∷◌, ◌++◌, none, some, inl, inr,
  length, length-append, get_elem?-append, set-append, drop, drop-append, ◌==◌, if◌then◌else◌,
  arith, Option-cases, test_of_eq, test_of_ne,
}
use pgify.Antlr.{
  Antlr, get_type, children, get_child, get_child_count, get_child_lem, get_child_count_lem,
  set_child, children-set_child, type-set_child,
}
use pgify.Children.{each_of_type_loop, each_of_type}
use pgify.Children.Split.{IsFree, find_type-SplitsAt, find_type-IsFree, length-SplitsAt, Rewritten}
use pgify.LookAhead.Laws.{find_type, look_ahead_index-eq}
use pgify.Result.{Result, ok, ◌>>=◌, bind-eq-ok}

module _ {T S : Type 0} ⦃a : Antlr T⦄ (kind : ℕ) (step : S → T → Result (S × T)) where
  -- A step run on the nodes of the type, from left to right; the others stay.
  abbrev pub map_type : S → List T → Result (S × List T)
  map_type s [] = ok (s, [])
  map_type s (x ∷ xs) =
      if get_type x == kind
      then (step s x >>= λ r. map_type r.0 xs >>= λ q. ok (q.0, r.1 ∷ q.1))
      else (map_type s xs >>= λ q. ok (q.0, x ∷ q.1))

  map_type-IsFree :
      (xs ys : List T) (s s' : S) {cs : List T}
      → IsFree kind xs
      → map_type s (xs ++ ys) ≡ ok (s', cs)
      → (ds : List T) × (map_type s ys ≡ ok (s', ds)) × (cs ≡ xs ++ ds)
  map_type-IsFree [] ys s s' {cs} f h = (cs, h, refl)
  map_type-IsFree (x ∷ xs) ys s s' {cs} f h =
      let h' : (map_type s (xs ++ ys) >>= λ q. ok (q.0, x ∷ q.1)) ≡ ok (s', cs) =
        rw (test_of_ne _ _ f.0) at h in
      let (q, now, e) = bind-eq-ok (map_type s (xs ++ ys)) (λ q. ok (q.0, x ∷ q.1)) h' in
      let (ds, rest, cut) = map_type-IsFree xs ys s q.0 {cs = q.1} f.1 now in (ds, rest ∙ cc, cc)

  -- The step at the node found, and the pass over the rest.
  record StepsTo (s : S) (x : T) (xs : List T) (s' : S) (cs : List T) : Type 0 where
    state : S
    node : T
    tail : List T
    stepped : step s x ≡ ok (state, node)
    rest : map_type state xs ≡ ok (s', tail)
    result : cs ≡ node ∷ tail

  map_type-StepsTo :
      (x : T) (xs : List T) (s s' : S) {cs : List T}
      → get_type x ≡ kind
      → map_type s (x ∷ xs) ≡ ok (s', cs)
      → StepsTo s x xs s' cs
  map_type-StepsTo x xs s s' {cs} k h =
      let h' : (step s x >>= λ r. map_type r.0 xs >>= λ q. ok (q.0, r.1 ∷ q.1)) ≡ ok (s', cs) =
        rw (test_of_eq _ _ k) at h in
      let (r, now, e) =
        bind-eq-ok (step s x) (λ r. map_type r.0 xs >>= λ q. ok (q.0, r.1 ∷ q.1)) h' in
      let (q, later, e') = bind-eq-ok (map_type r.0 xs) (λ q. ok (q.0, r.1 ∷ q.1)) e in
      record { state = r.0; node = r.1; tail = q.1; stepped = now; rest = later ∙ cc; result = cc }

  module _ (body : S → T → T → Result (S × T))
      (plain : (s : S) (p x : T) → body s p x ≡ step s x) where
    abbrev Maps : ℕ → T → List T → S → S → List T → Type 0
    Maps fuel tree front s s' cs =
        (tree' : T) × (each_of_type_loop kind body fuel (length front) s tree ≡ ok (s', tree'))
        × Rewritten tree tree' (front ++ cs)

    Maps-end :
        (fuel : ℕ) (tree : T) (front ys : List T) (s s' : S) (cs : List T)
        → children tree ≡ front ++ ys
        → find_type kind (length front) ys ≡ none
        → map_type s ys ≡ ok (s', cs)
        → Maps (suc fuel) tree front s s' cs
    unfolding each_of_type_loop
    Maps-end fuel tree front ys s s' cs h e runs =
        let (ds, ended, all) =
          map_type-IsFree ys [] s s' {cs = cs} (find_type-IsFree kind (length front) ys e)
            (rw append-nil runs) in
        let same : ys ≡ cs = cc (append-nil ys, all, ended) in
        (
          tree,
          rw (look_ahead_index-eq tree (length front) kind, h, drop-append front ys, e) (cc ended),
          record { type_kept = refl; children_are = h ∙ ap (◌++◌ front) same },
        )

    -- One round, on the node found behind the children that are done.
    Maps-round :
        (fuel : ℕ) (tree : T) (front mid : List T) (x : T) (ys : List T) (s s' : S) (tail : List T)
        (t : StepsTo s x ys s' tail)
        → children tree ≡ (front ++ mid) ++ x ∷ ys
        → find_type kind (length front) (drop (length front) (children tree))
          ≡ some (length (front ++ mid))
        → ((tree₁ : T)
            → children tree₁ ≡ ((front ++ mid) ++ t.node ∷ []) ++ ys
            → Maps fuel tree₁ ((front ++ mid) ++ t.node ∷ []) t.state s' t.tail)
        → Maps (suc fuel) tree front s s' (mid ++ tail)
    unfolding each_of_type_loop
    Maps-round fuel tree front mid x ys s s' tail t h e later =
        let p = length (front ++ mid) in
        let at : get_child tree p ≡ some x =
          get_child_lem tree p ∙ rw h (get_elem?-append (front ++ mid) x ys) in
        let shape : children (set_child tree p t.node) ≡ (front ++ mid) ++ t.node ∷ ys =
          children-set_child tree p t.node ∙ rw h (set-append (front ++ mid) x t.node ys) in
        let (tree', runs, r) =
          later (set_child tree p t.node)
            (shape ∙ sym (append_assoc (front ++ mid) (t.node ∷ []) ys)) in
        let place : p + 1 ≡ length ((front ++ mid) ++ t.node ∷ []) =
          omega (arith, length-append {0} (front ++ mid) (t.node ∷ [])) in
        (
          tree',
          rw (look_ahead_index-eq tree (length front) kind, e, at, plain s tree x, t.stepped, place)
              runs,
          record {
            type_kept = r.type_kept ∙ type-set_child tree p t.node;
            children_are =
                r.children_are
                ∙ append_assoc (front ++ mid) (t.node ∷ []) t.tail
                ∙ append_assoc front mid (t.node ∷ t.tail)
                ∙ ap (λ l. front ++ (mid ++ l)) (sym t.result);
          },
        )

    Maps-loop :
        (fuel : ℕ) (tree : T) (front ys : List T) (s s' : S) (cs : List T)
        → length ys < fuel
        → children tree ≡ front ++ ys
        → map_type s ys ≡ ok (s', cs)
        → Maps fuel tree front s s' cs
    Maps-loop zero tree front ys s s' cs lt h runs = absurd (omega arith)
    Maps-loop (suc fuel) tree front ys s s' cs lt h runs =
        elim (Option-cases (find_type kind (length front) ys)) [
          | inl e ↦ Maps-end fuel tree front ys s s' cs h e runs
          | inr (p, e) ↦
              let f = find_type-SplitsAt kind (length front) ys p e in
              let (tail, steps, all) =
                map_type-IsFree f.front (f.at ∷ f.rest) s s' {cs = cs} f.free
                  (rw f.splits at runs) in
              let t = map_type-StepsTo f.at f.rest s s' {cs = tail} f.is_kind steps in
              let whole : children tree ≡ (front ++ f.front) ++ f.at ∷ f.rest =
                h ∙ ap (◌++◌ front) f.splits ∙ sym (append_assoc front f.front (f.at ∷ f.rest)) in
              let place : p ≡ length (front ++ f.front) =
                omega (arith, f.position, length-append {0} front f.front) in
              rw all (
                Maps-round fuel tree front f.front f.at f.rest s s' tail t whole
                  (rw (h, drop-append front ys) (e ∙ ap some place))
                  (λ tree₁ h₁.
                    Maps-loop fuel tree₁ ((front ++ f.front) ++ t.node ∷ []) f.rest t.state s'
                      t.tail (omega (arith, length-SplitsAt f)) h₁ t.rest))
        ]

    -- Where the body looks at the child alone, the loop is the pass, and its fuel is enough.
    pub each_of_type_lem :
        (s s' : S) (tree : T) (cs : List T)
        → map_type s (children tree) ≡ ok (s', cs)
        → (tree' : T) × (each_of_type kind body s tree ≡ ok (s', tree')) × Rewritten tree tree' cs
    unfolding each_of_type
    each_of_type_lem s s' tree cs runs =
        Maps-loop (suc (get_child_count tree)) tree [] (children tree) s s' cs
          (omega (arith, get_child_count_lem tree)) refl runs
