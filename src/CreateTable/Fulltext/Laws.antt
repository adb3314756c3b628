-- ===== src/CreateTable/Fulltext/Laws.antt =====
-- A FULLTEXT index is dropped from its table.
use mathlib.Core.List.{append_assoc}
use pgify.Base.{
  suc, ◌+◌, ◌≡◌, refl, sym, ap, ◌∙◌, List, [], ◌∷◌, ◌++◌, some, length, length-append, drop,
  get_elem?-append, remove_at, remove_at-append, arith, test_of_eq,
}
use pgify.Antlr.{
  Antlr, get_type, get_child, get_child_count, children, delete_child, get_child_lem,
  get_child_count_lem, children-delete_child, type-delete_child,
}
use pgify.Children.Split.{
  IsFree, IsFree-append, IsFree-drop, IsFree-find_type, find_type-append, Rewritten,
}
use pgify.CreateTable.Fulltext.{create_table_fulltext_index, fulltext_loop, remove_comma_before}
use pgify.LookAhead.Laws.{find_type, look_ahead_index-eq}
use pgify.Result.{ok}
use pgify.TokenTypes.{t_create_table_fulltext_index, comma}

module _ {T : Type 0} ⦃a : Antlr T⦄ where
  -- The node found, and the comma in front of it, are deleted.
  remove_both :
      (base x k u : T) (front back : List T)
      → children base ≡ (x ∷ front ++ k ∷ []) ++ u ∷ back
      → get_type k ≡ comma
      → (base' : T) × (remove_comma_before
            (delete_child base (suc (suc (length front))))
            (suc (suc (length front)))
          ≡ ok base')
        × Rewritten base base' (x ∷ front ++ back)
  unfolding remove_comma_before
  remove_both base x k u front back h kk =
      let p = suc (suc (length front)) in
      let place : length (x ∷ front ++ k ∷ []) ≡ p =
        omega (arith, length-append {0} front (k ∷ [])) in
      let base₁ = delete_child base p in
      let c₁ : children base₁ ≡ (x ∷ front) ++ k ∷ back =
        children-delete_child base p
        ∙ ap (λ l. remove_at l p) h
        ∙ ap (remove_at ((x ∷ front ++ k ∷ []) ++ u ∷ back)) {x = p}
            {y = length (x ∷ front ++ k ∷ [])} (sym place)
        ∙ remove_at-append (x ∷ front ++ k ∷ []) u back
        ∙ append_assoc (x ∷ front) (k ∷ []) back in
      let there : get_child base₁ (suc (length front)) ≡ some k =
        get_child_lem base₁ (suc (length front)) ∙ rw c₁ (get_elem?-append (x ∷ front) k back) in
      (
        delete_child base₁ (suc (length front)),
        rw (there, test_of_eq _ _ kk) refl,
        record {
          type_kept = type-delete_child base₁ (suc (length front)) ∙ type-delete_child base p;
          children_are =
              children-delete_child base₁ (suc (length front))
              ∙ rw c₁ (remove_at-append (x ∷ front) k back);
        },
      )

  found_behind :
      (base x k u : T) (front back : List T)
      → children base ≡ (x ∷ front ++ k ∷ []) ++ u ∷ back
      → get_type k ≡ comma
      → IsFree t_create_table_fulltext_index (x ∷ front)
      → get_type u ≡ t_create_table_fulltext_index
      → find_type t_create_table_fulltext_index 0 (children base) ≡ some (suc (suc (length front)))
  found_behind base x k u front back h kk free ku =
      let sep : IsFree t_create_table_fulltext_index (k ∷ []) = (rw kk (omega arith), tt) in
      ap (find_type t_create_table_fulltext_index 0) h
      ∙ find_type-append t_create_table_fulltext_index 0 (x ∷ front ++ k ∷ []) u back
          (IsFree-append t_create_table_fulltext_index (x ∷ front) (k ∷ []) free sep) ku
      ∙ ap some {x = 0 + length (x ∷ front ++ k ∷ [])} {y = suc (suc (length front))}
          (omega (arith, length-append {0} front (k ∷ [])))

  -- A table with one FULLTEXT index, behind a comma that is not its first child, loses the index and
  -- the comma, and no other child; there is no fault.
  pub create_table_fulltext_index_lem :
      (base x k u : T) (front back : List T)
      → children base ≡ (x ∷ front ++ k ∷ []) ++ u ∷ back
      → get_type k ≡ comma
      → IsFree t_create_table_fulltext_index (x ∷ front)
      → get_type u ≡ t_create_table_fulltext_index
      → IsFree t_create_table_fulltext_index back
      → (base' : T) × (create_table_fulltext_index base ≡ ok base')
        × Rewritten base base' (x ∷ front ++ back)
  unfolding create_table_fulltext_index fulltext_loop
  create_table_fulltext_index_lem base x k u front back h kk free ku free' =
      let p = suc (suc (length front)) in
      let (base', both, r) = remove_both base x k u front back h kk in
      let some_left : get_child_count base ≡ suc (length (front ++ k ∷ []) + length (u ∷ back)) =
        omega (
          arith,
          get_child_count_lem base,
          ap length h,
          length-append {0} (x ∷ front ++ k ∷ []) (u ∷ back),
        ) in
      let none_left =
        IsFree-find_type t_create_table_fulltext_index p (drop p (x ∷ front ++ back)) (
          IsFree-drop t_create_table_fulltext_index p (x ∷ front ++ back)
            (IsFree-append t_create_table_fulltext_index (x ∷ front) back free free')) in
      (
        base',
        rw
            (
              look_ahead_index-eq base 0 t_create_table_fulltext_index,
              found_behind base x k u front back h kk free ku,
              both,
              some_left,
              look_ahead_index-eq base' p t_create_table_fulltext_index,
              r.children_are,
              none_left,
            )
            refl,
        r,
      )
