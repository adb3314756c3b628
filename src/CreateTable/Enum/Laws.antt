-- ===== src/CreateTable/Enum/Laws.antt =====
-- ENUM becomes a text column with a check of its values.
use Prim.Native.String.{◌++◌ as text_append}
use pgify.Base.{
  suc, ◌+◌, ◌≡◌, refl, ◌∙◌, String, List, [], ◌∷◌, ◌++◌, some, false, length, get_elem?,
  get_elem?-append, ◌==◌, arith, test_of_eq,
}
use pgify.Antlr.{
  Antlr, get_type, children, set_text, set_child, dup_tree, add_child, is_nil_node, get_child_lem,
  children-set_child, children-add_child, type-set_child, type-add_child, type-set_text,
  nil-dup_tree,
}
use pgify.Children.Split.{IsFree, find_type-append, Rewritten}
use pgify.CreateTable.Enum.{rewrite_enum}
use pgify.LookAhead.Laws.{look_ahead_index-eq}
use pgify.Result.{ok}
use pgify.TokenTypes.{k_enum, rparen}

module _ {T : Type 0} ⦃a : Antlr T⦄ where
  -- Where an ENUM starts with the word and has a closing parenthesis, which is not the nil node, the
  -- text of the word becomes the start of a check on the column, and a copy of the first closing
  -- parenthesis is added at the end.
  pub rewrite_enum_lem :
      (name : String) (tree e r : T) (front back : List T)
      → children tree ≡ e ∷ front ++ r ∷ back
      → get_type e ≡ k_enum
      → IsFree rparen front
      → get_type r ≡ rparen
      → is_nil_node r ≡ false
      → (tree' : T) × (rewrite_enum name tree ≡ ok tree')
        × Rewritten tree tree' (
            (set_text e (text_append "text CHECK ( " (text_append name " IN ")) ∷ front ++ r ∷ back)
            ++ dup_tree r ∷ [])
  unfolding rewrite_enum
  rewrite_enum_lem name tree e r front back h ke free kr solid =
      let e' = set_text e (text_append "text CHECK ( " (text_append name " IN ")) in
      let t₁ = set_child tree 0 e' in
      let c₁ : children t₁ ≡ e' ∷ front ++ r ∷ back = children-set_child tree 0 e' ∙ rw h refl in
      let ke' : (get_type e' == rparen) ≡ false = rw (type-set_text, ke) refl in
      let place : 1 + length front ≡ suc (length front) = omega arith in
      let there : get_elem? (children t₁) (suc (length front)) ≡ some r =
        rw c₁ (get_elem?-append (e' ∷ front) r back) in
      (
        add_child t₁ (dup_tree r),
        rw
            (
              look_ahead_index-eq tree 0 k_enum,
              h,
              test_of_eq _ _ ke,
              get_child_lem tree 0,
              h,
              look_ahead_index-eq t₁ 0 rparen,
              c₁,
              ke',
              find_type-append rparen 1 front r back free kr,
              place,
              get_child_lem t₁ (suc (length front)),
              there,
            )
            refl,
        record {
          type_kept = type-add_child t₁ (dup_tree r) ∙ type-set_child tree 0 e';
          children_are = children-add_child t₁ (dup_tree r) (nil-dup_tree r ∙ solid) ∙ rw c₁ refl;
        },
      )
