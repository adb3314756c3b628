-- ===== src/CreateTable/Options/Laws.antt =====
-- The pass removes all nodes of table options and nothing else.
use mathlib.Core.List.{append_assoc, append-nil}
use pgify.Base.{
  ℕ, zero, suc, ◌<◌, ◌≡◌, refl, sym, ap, ◌∙◌, List, [], ◌∷◌, ◌++◌, none, some, inl, inr, length,
  length-append, drop-append, remove_at-append, arith, Option-cases,
}
use pgify.Antlr.{
  Antlr, children, get_child_count, get_child_count_lem, delete_child, children-delete_child,
  type-delete_child,
}
use pgify.Children.Split.{
  without_type, SplitsAt, find_type-SplitsAt, find_type-IsFree, without_type-IsFree,
  without_type-SplitsAt, length-SplitsAt, Rewritten,
}
use pgify.LookAhead.Laws.{find_type, look_ahead_index-eq}
use pgify.Result.{ok}
use pgify.TokenTypes.{t_create_table_options}
use pgify.CreateTable.Options.{remove_options_loop, create_table_remove_table_options}

module _ {T : Type 0} ⦃a : Antlr T⦄ where
  abbrev Removes : ℕ → T → List T → List T → Type 0
  Removes fuel base front ys =
      (base' : T) × (remove_options_loop fuel base (length front) ≡ ok base')
      × Rewritten base base' (front ++ without_type t_create_table_options ys)

  -- One round, on the node of options found behind the children that are done.
  remove_options_round :
      (fuel : ℕ) (base : T) (front : List T) {ys : List T} {p : ℕ}
      → children base ≡ front ++ ys
      → find_type t_create_table_options (length front) ys ≡ some p
      → (s : SplitsAt t_create_table_options (length front) ys p)
      → ((t : T)
          → children t ≡ (front ++ s.front) ++ s.rest
          → Removes fuel t (front ++ s.front) s.rest)
      → Removes (suc fuel) base front ys
  unfolding remove_options_loop
  remove_options_round fuel base front {ys} {p} h e s later =
      let place : p ≡ length (front ++ s.front) =
        omega (arith, s.position, length-append {0} front s.front) in
      let whole : children base ≡ (front ++ s.front) ++ s.at ∷ s.rest =
        h ∙ ap (◌++◌ front) s.splits ∙ sym (append_assoc front s.front (s.at ∷ s.rest)) in
      let shape : children (delete_child base p) ≡ (front ++ s.front) ++ s.rest =
        children-delete_child base p
        ∙ rw (whole, place) (remove_at-append (front ++ s.front) s.at s.rest) in
      let (base', runs, r) = later (delete_child base p) shape in
      (
        base',
        rw
            (
              look_ahead_index-eq base (length front) t_create_table_options,
              h,
              drop-append front ys,
              e,
              place,
            )
            (rw place at runs),
        record {
          type_kept = r.type_kept ∙ type-delete_child base p;
          children_are =
              r.children_are
              ∙ append_assoc front s.front (without_type t_create_table_options s.rest)
              ∙ ap (◌++◌ front) (sym (without_type-SplitsAt s));
        },
      )

  remove_options_end :
      (fuel : ℕ) (base : T) (front ys : List T)
      → children base ≡ front ++ ys
      → find_type t_create_table_options (length front) ys ≡ none
      → Removes (suc fuel) base front ys
  unfolding remove_options_loop
  remove_options_end fuel base front ys h e =
      let free = find_type-IsFree t_create_table_options (length front) ys e in
      let same : without_type t_create_table_options ys ≡ ys =
        rw append-nil at (without_type-IsFree t_create_table_options ys [] free) in
      (
        base,
        rw
            (
              look_ahead_index-eq base (length front) t_create_table_options,
              h,
              drop-append front ys,
              e,
            )
            refl,
        record { type_kept = refl; children_are = h ∙ ap (◌++◌ front) (sym same) },
      )

  remove_options_loop_lem :
      (fuel : ℕ) (base : T) (front ys : List T)
      → length ys < fuel
      → children base ≡ front ++ ys
      → Removes fuel base front ys
  remove_options_loop_lem zero base front ys h d = absurd (omega arith)
  remove_options_loop_lem (suc fuel) base front ys h d =
      elim (Option-cases (find_type t_create_table_options (length front) ys)) [
        | inl e ↦ remove_options_end fuel base front ys d e
        | inr (p, e) ↦
            let s = find_type-SplitsAt t_create_table_options (length front) ys p e in
            remove_options_round fuel base front d e s (λ t d'.
              remove_options_loop_lem fuel t (front ++ s.front) s.rest
                (omega (arith, length-SplitsAt s)) d')
      ]

  -- The pass ends without a fault; what is left of the children are those that are no table options,
  -- in their order.
  pub create_table_remove_table_options_lem :
      (base : T)
      → (base' : T) × (create_table_remove_table_options base ≡ ok base')
        × Rewritten base base' (without_type t_create_table_options (children base))
  unfolding create_table_remove_table_options
  create_table_remove_table_options_lem base =
      remove_options_loop_lem (suc (get_child_count base)) base [] (children base)
        (omega (arith, get_child_count_lem base)) refl
