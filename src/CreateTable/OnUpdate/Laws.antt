-- ===== src/CreateTable/OnUpdate/Laws.antt =====
-- ON UPDATE becomes a function and a trigger.
use mathlib.Core.List.{foldl}
use Prim.Native.String.{◌++◌ as text_append}
use text.Mathlib.TextLemmas.{nil-append, append-nil, append_assoc}
use pgify.Base.{
  ℕ, true, false, suc, ◌+◌, ◌≡◌, refl, sym, ap, ◌∙◌, inl, inr, ◌==◌, Bool-cases, String, List, [],
  ◌∷◌, ◌++◌, some, length, drop, get_elem?-append, remove_at-append, arith, test_of_ne,
}
use pgify.Antlr.{
  Antlr, get_type, get_text, get_child, get_child_count, children, delete_child, get_child_lem,
  get_child_count_lem, children-delete_child, type-delete_child,
}
use pgify.Children.Passes.{fold_result-ok, for_children-eq}
use pgify.Children.Split.{
  IsFree, IsFree-append, IsFree-drop, IsFree-find_type, find_type-append, Rewritten, without_type,
}
use pgify.CreateTable.OnUpdate.{
  update_function, update_trigger, add_word, create_trigger, onupdate_loop, rewrite_onupdate_column,
}
use pgify.Glib.{Glib, without_quotes}
use pgify.LookAhead.Laws.{look_ahead_index-eq}
use pgify.Result.{ok}
use pgify.TokenTypes.{t_create_table_onupdate, k_on, k_update}
use pgify.Walker.{WalkerState, unquote}

-- The two statements for a column, behind those that were put off before: the function that the
-- first makes is the one that the second calls.
abbrev with_trigger : String → String → String → String → String → String → String → String
with_trigger before schema table utable name uname value =
    let update = text_append utable (text_append "_update_" uname) in
    let function = text_append schema update in
    text_append
      (text_append before (
        text_append "CREATE OR REPLACE FUNCTION " (
          text_append function (
            text_append "()\nRETURNS TRIGGER AS $$\nBEGIN\n   NEW." (
              text_append name (
                text_append " = "
                  (text_append value "; \n   RETURN NEW;\nEND;\n$$ language 'plpgsql';\n")))))))
      (text_append "CREATE TRIGGER " (
        text_append update (
          text_append "_trigger BEFORE UPDATE\n   ON " (
            text_append schema (
              text_append table
                (text_append " FOR EACH ROW EXECUTE PROCEDURE " (text_append function "();\n")))))))

with_trigger_lem :
    (before schema table utable name uname value : String)
    → text_append
        (text_append before (update_function schema utable uname name value))
        (update_trigger schema table utable uname)
      ≡ with_trigger before schema table utable name uname value
with_trigger_lem before schema table utable name uname value =
    simp (append_assoc, update_function, update_trigger)

update_not_on : (kind : ℕ) → (kind == k_update) ≡ true → (kind == k_on) ≡ false
update_not_on kind h = ground arith

module _ {T : Type 0} ⦃a : Antlr T⦄ where
  -- The texts of some nodes, each between blanks.
  abbrev pub spaced : List T → String
  spaced [] = ""
  spaced (x ∷ xs) = text_append " " (text_append (get_text x) (text_append " " (spaced xs)))

  -- The value that ON UPDATE states: what is neither ON nor UPDATE.
  abbrev pub stated_value : List T → String
  stated_value xs = spaced (without_type k_on (without_type k_update xs))

  foldl-add_word :
      (xs : List T) (expr : String) → foldl add_word expr xs ≡ text_append expr (stated_value xs)
  foldl-add_word [] expr = sym (append-nil expr)
  foldl-add_word (x ∷ xs) expr = elim (Bool-cases (get_type x == k_update)) [
    | inl u ↦ rw (u, update_not_on (get_type x) u) (foldl-add_word xs expr)
    | inr u ↦ elim (Bool-cases (get_type x == k_on)) [
      | inl o ↦ rw (u, o) (foldl-add_word xs expr)
      | inr o ↦
          rw (u, o)
            (foldl-add_word xs (text_append expr (text_append " " (text_append (get_text x) " ")))
              ∙ simp append_assoc)
    ]
  ]

module _ {T : Type 0} ⦃a : Antlr T⦄ ⦃g : Glib⦄ where
  -- The state with the two statements for a column and its ON UPDATE.
  abbrev pub triggered : String → String → WalkerState → String → T → WalkerState
  triggered table utable ws name u =
      let postbuf =
        with_trigger ws.postbuf ws.schema_name table utable name (without_quotes name)
          (stated_value (children u)) in
      record ws { postbuf = postbuf }

  pub create_trigger-eq :
      (table utable : String) (ws : WalkerState) (def n u : T)
      → get_child def 0 ≡ some n
      → create_trigger table utable ws def u ≡ ok (triggered table utable ws (get_text n) u)
  unfolding create_trigger unquote
  create_trigger-eq table utable ws def n u h =
      rw
        (
          h,
          for_children-eq u _ _,
          fold_result-ok _ add_word (λ s x. refl) _ (children u),
          foldl-add_word (children u) "",
          nil-append (stated_value (children u)),
          g.regex_replace_quotes,
        )
        (ap (λ p. ok (record ws { postbuf = p }))
          (with_trigger_lem ws.postbuf ws.schema_name table utable (get_text n)
            (without_quotes (get_text n)) (stated_value (children u))))

  -- A column with one ON UPDATE behind its name loses it, and two statements are put off behind those
  -- put off before, which are written out: one makes a function that sets the column to the texts
  -- behind ON UPDATE, without those two words and each between blanks, and one makes a trigger that
  -- calls the same function. Nothing else of the state changes, and the loop ends without a fault.
  pub rewrite_onupdate_column_lem :
      (table utable : String) (ws : WalkerState) (def n u : T) (front back : List T)
      → children def ≡ n ∷ front ++ u ∷ back
      → IsFree t_create_table_onupdate (n ∷ front)
      → get_type u ≡ t_create_table_onupdate
      → IsFree t_create_table_onupdate back
      → (def' : T) × (rewrite_onupdate_column table utable ws def
          ≡ ok (triggered table utable ws (get_text n) u, def'))
        × Rewritten def def' (n ∷ front ++ back)
  unfolding rewrite_onupdate_column onupdate_loop
  rewrite_onupdate_column_lem table utable ws def n u front back h free ku free' =
      let p = suc (length front) in
      let def' = delete_child def p in
      let place : 1 + length front ≡ p = omega arith in
      let some_left : get_child_count def ≡ suc (length (front ++ u ∷ back)) =
        get_child_count_lem def ∙ ap length h in
      let name : get_child def 0 ≡ some n = get_child_lem def 0 ∙ rw h refl in
      let there : get_child def p ≡ some u =
        get_child_lem def p ∙ rw h (get_elem?-append (n ∷ front) u back) in
      let left : children def' ≡ n ∷ front ++ back =
        children-delete_child def p ∙ rw h (remove_at-append (n ∷ front) u back) in
      let none_left =
        IsFree-find_type t_create_table_onupdate (p + 1) (drop (p + 1) (n ∷ front ++ back)) (
          IsFree-drop t_create_table_onupdate (p + 1) (n ∷ front ++ back)
            (IsFree-append t_create_table_onupdate (n ∷ front) back free free')) in
      (
        def',
        rw
            (
              look_ahead_index-eq def 0 t_create_table_onupdate,
              h,
              test_of_ne _ _ free.0,
              find_type-append t_create_table_onupdate 1 front u back free.1 ku,
              place,
              there,
              create_trigger-eq table utable ws def n u name,
              some_left,
              look_ahead_index-eq def' (p + 1) t_create_table_onupdate,
              left,
              none_left,
            )
            refl,
        record { type_kept = type-delete_child def p; children_are = left },
      )
