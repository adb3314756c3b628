-- ===== src/TreeWalk/Laws.antt =====
-- A tree without any node that the walk rewrites passes through unchanged.
use native.Mathlib.Numerals.{add-one}
use pgify.Base.{
  ℕ, zero, suc, ◌≤◌, ◌≡◌, refl, Bool, true, false, ◌||◌, inl, inr, List, [], ◌∷◌, some, length,
  drop, get_elem?, ltb, ◌==◌, arith, Bool-cases,
}
use pgify.Antlr.{
  Antlr, get_type, get_child_count, children, height, get_child_lem, get_child_count_lem,
  height-child, set_child-get_child,
}
use pgify.Glib.{Glib}
use pgify.LookAhead.Down.{Occurs, child, deeper}
use pgify.LookAhead.Laws.{drop-cons}
use pgify.Result.{ok}
use pgify.TokenTypes.{
  t_create_table, t_use_database, t_lock_table, t_server_variable, t_show_tables, t_show_columns,
  t_function_if, k_found_rows,
}
use pgify.TreeWalk.{rewrite_child, walk_from, tree_walk_worker}
use pgify.Walker.{WalkerState}

-- The token types that have a handler.
unfoldable pub is_rewritten : ℕ → Bool
is_rewritten k =
    k == t_create_table
    || k == t_use_database
    || k == t_lock_table
    || k == t_server_variable
    || k == t_show_tables
    || k == t_show_columns
    || k == t_function_if
    || k == k_found_rows

module _ {T : Type 0} ⦃a : Antlr T⦄ where
  abbrev pub IsPlain : T → Type 0
  IsPlain p = (k : ℕ) → is_rewritten k ≡ true → ¬ (Occurs k p)

  module _ ⦃g : Glib⦄ (uninit : ℕ) (ws : WalkerState) where
    rewrite_child-plain :
        (k : ℕ) (x : T) → is_rewritten k ≡ false → rewrite_child uninit k ws x ≡ ok (ws, x)
    unfolding rewrite_child is_rewritten
    rewrite_child-plain k x h = ground arith

    not-rewritten :
        (p y : T) (c : ℕ)
        → IsPlain p
        → get_elem? (children p) c ≡ some y
        → is_rewritten (get_type y) ≡ false
    not-rewritten p y c plain at = elim (Bool-cases (is_rewritten (get_type y))) [
      | inl e ↦ absurd (plain (get_type y) e (child y c at refl))
      | inr e ↦ e
    ]

    walk_round :
        (fuel c left : ℕ) (p y : T)
        → IsPlain p
        → get_elem? (children p) c ≡ some y
        → walk_from uninit fuel 0 (get_child_count y) ws y ≡ ok (ws, y)
        → walk_from uninit (suc fuel) (suc c) left ws p ≡ ok (ws, p)
        → walk_from uninit (suc fuel) c (suc left) ws p ≡ ok (ws, p)
    unfolding walk_from
    walk_round fuel c left p y plain at below later =
        elim (Bool-cases (ltb 0 (get_child_count y))) [
          | inl e ↦
              rw
                (
                  get_child_lem p c,
                  at,
                  e,
                  below,
                  rewrite_child-plain (get_type y) y (not-rewritten p y c plain at),
                  set_child-get_child p c y at,
                  add-one,
                )
                later
          | inr e ↦
              rw
                (
                  get_child_lem p c,
                  at,
                  e,
                  rewrite_child-plain (get_type y) y (not-rewritten p y c plain at),
                  set_child-get_child p c y at,
                  add-one,
                )
                later
        ]

    walk_end : (fuel c : ℕ) (p : T) → walk_from uninit fuel c 0 ws p ≡ ok (ws, p)
    unfolding walk_from
    walk_end zero c p = refl
    walk_end (suc fuel) c p = refl

    walk_from-plain :
        (fuel c : ℕ) (p : T) (ys : List T)
        → height p ≤ fuel
        → drop c (children p) ≡ ys
        → IsPlain p
        → walk_from uninit fuel c (length ys) ws p ≡ ok (ws, p)
    walk_from-plain fuel c p [] h d plain = walk_end fuel c p
    walk_from-plain zero c p (y ∷ ys) h d plain =
        absurd (omega (arith, height-child p y c (drop-cons (children p) c d).0))
    walk_from-plain (suc fuel) c p (y ∷ ys) h d plain =
        let (here, next) = drop-cons (children p) c d in
        walk_round fuel c (length ys) p y plain here
          (rw get_child_count_lem (
            walk_from-plain fuel 0 y (children y) (omega (arith, height-child p y c here)) refl
              (λ k r occurs. plain k r (deeper y c here occurs))))
          (walk_from-plain (suc fuel) (suc c) p ys h next plain)

    -- If no node below a tree has a type with a handler, the walk ends without a fault, and changes
    -- neither the tree nor the state.
    pub tree_walk_worker-plain : (p : T) → IsPlain p → tree_walk_worker uninit ws p ≡ ok (ws, p)
    unfolding tree_walk_worker
    tree_walk_worker-plain p plain =
        rw get_child_count_lem
          (walk_from-plain (height p) 0 p (children p) (omega arith) refl plain)
