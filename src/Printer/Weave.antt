-- ===== src/Printer/Weave.antt =====
-- The printer weaves two sequences of texts: those of the hidden tokens, and those of the leaves of
-- the tree. Each text of both stands in the output once, and each sequence keeps its order.
mod Steps
pub use Steps.*
use Prim.Native.String.{◌++◌}
use mathlib.Core.List.{
  ◌++◌ as append, append_assoc as list_append_assoc, append-nil as list_append_nil,
}
use mathlib.Core.Path.{subst}
use native.Mathlib.Numerals.{add-one}
use text.Mathlib.TextLemmas.{append_assoc, nil-append, append-nil}
use pgify.Base.{
  ℕ, zero, suc, ◌≤◌, ◌≡◌, ◌≢◌, inl, inr, refl, sym, ap, ◌∙◌, Bool, true, false, not, ◌||◌, List, [],
  ◌∷◌, String, ℤ, lt_int, le_int, ◌==◌, if◌then◌else◌, some, length, drop, arith, Bool-cases,
  eq_of_test, ne_of_test, List-cases, ltb-zero_suc,
}
use pgify.Antlr.{
  Antlr, get_type, get_text, get_line, get_char_position, get_child, get_child_count, children,
  height, get_child_lem, get_child_count_lem, height-child,
}
use pgify.LookAhead.Laws.{drop-cons}
use pgify.Printer.{
  Token, token_eof, Output, advance_hidden, advance_all, advance, print_from, tree_walk_printer,
  pgify_string_tree, print_postbuf,
}
use pgify.Result.{ok}
use pgify.Walker.{WalkerState}

-- The texts of the leaves below a list of nodes, from left to right, but for the end of the input.
pub data Leaves {T : Type 0} ⦃a : Antlr T⦄ : List T → List String → Type 0 where
  nil : Leaves [] []
  leaf :
      {xs : List T} {ls : List String} (x : T)
      → children x ≡ []
      → get_type x ≢ token_eof
      → Leaves xs ls
      → Leaves (x ∷ xs) (get_text x ∷ ls)
  eof :
      {xs : List T} {ls : List String} (x : T)
      → children x ≡ []
      → get_type x ≡ token_eof
      → Leaves xs ls
      → Leaves (x ∷ xs) ls
  branch :
      {xs : List T} {ls ls' : List String} (x : T)
      → children x ≢ []
      → Leaves (children x) ls
      → Leaves xs ls'
      → Leaves (x ∷ xs) (append ls ls')

module _ {T : Type 0} ⦃a : Antlr T⦄ where
  advance-Prints : (out : Output) (x : T) → Prints out (get_text x ∷ []) (advance out x)
  unfolding advance
  advance-Prints (output, ts) x =
      Prints-trans (advance_hidden-Prints (get_line x) (get_char_position x) output ts)
        (Prints-leaf _ (get_text x) _)

  -- The loop ends, and has printed the leaves below the nodes that were left.
  abbrev PrintsAll : ℕ → ℕ → Output → T → List T → Type 0
  PrintsAll fuel c out p ys =
      (ls : List String) × (out' : Output) × Leaves ys ls
      × (print_from fuel c (length ys) out p ≡ ok out')
      × Prints out ls out'

  print_end : (fuel c : ℕ) (out : Output) (p : T) → PrintsAll fuel c out p []
  unfolding print_from
  print_end zero c out p = ([], out, nil, refl, Prints-none out)
  print_end (suc fuel) c out p = ([], out, nil, refl, Prints-none out)

  -- One round, at a leaf or at a node whose own children were printed.
  print_leaf :
      (fuel c : ℕ) (out : Output) (p y : T) (ys : List T)
      → get_child p c ≡ some y
      → children y ≡ []
      → ((out' : Output) → PrintsAll (suc fuel) (suc c) out' p ys)
      → PrintsAll (suc fuel) c out p (y ∷ ys)
  unfolding print_from
  print_leaf fuel c out p y ys at bare later = elim (Bool-cases (get_type y == token_eof)) [
    | inl e ↦
        let (ls, out', leaves, runs, prints) = later out in
        (
          ls,
          out',
          eof y bare (eq_of_test _ _ e) leaves,
          rw (at, get_child_count_lem y, bare, e, add-one) runs,
          Prints-trans (Prints-none out) prints,
        )
    | inr e ↦
        let (ls, out', leaves, runs, prints) = later (advance out y) in
        (
          get_text y ∷ ls,
          out',
          leaf y bare (ne_of_test _ _ e) leaves,
          rw (at, get_child_count_lem y, bare, e, add-one) runs,
          Prints-trans (advance-Prints out y) prints,
        )
  ]

  print_inner :
      (fuel c : ℕ) (out : Output) (p y z : T) (ys zs : List T)
      → get_child p c ≡ some y
      → children y ≡ z ∷ zs
      → PrintsAll fuel 0 out y (children y)
      → ((out' : Output) → PrintsAll (suc fuel) (suc c) out' p ys)
      → PrintsAll (suc fuel) c out p (y ∷ ys)
  unfolding print_from
  print_inner fuel c out p y z ys zs at some_below (ls, out', leaves, runs, prints) later =
      let (ls', out'', leaves', runs', prints') = later out' in
      let count : get_child_count y ≡ suc (length zs) =
        get_child_count_lem y ∙ ap length some_below in
      let below : print_from fuel 0 (suc (length zs)) out y ≡ ok out' = rw some_below at runs in
      (
        append ls ls',
        out'',
        branch y (λ e. cc) leaves leaves',
        rw (at, count, ltb-zero_suc (length zs), below, add-one) runs',
        Prints-trans prints prints',
      )

  print_from-PrintsAll :
      (fuel c : ℕ) (p : T) (ys : List T) (out : Output)
      → height p ≤ fuel
      → drop c (children p) ≡ ys
      → PrintsAll fuel c out p ys
  print_from-PrintsAll fuel c p [] out h d = print_end fuel c out p
  print_from-PrintsAll zero c p (y ∷ ys) out h d =
      absurd (omega (arith, height-child p y c (drop-cons (children p) c d).0))
  print_from-PrintsAll (suc fuel) c p (y ∷ ys) out h d =
      let (here, next) = drop-cons (children p) c d in
      let later = λ (o : Output). print_from-PrintsAll (suc fuel) (suc c) p ys o h next in
      let at : get_child p c ≡ some y = get_child_lem p c ∙ here in
      elim (List-cases (children y)) [
        | inl bare ↦ print_leaf fuel c out p y ys at bare later
        | inr (z, zs, e) ↦
            print_inner fuel c out p y z ys zs at e
              (print_from-PrintsAll fuel 0 y (children y) out
                (omega (arith, height-child p y c here)) refl)
              later
      ]

  -- The text of a tree is a weave of all hidden tokens and all leaves, and the statements that were
  -- put off follow it; the printer ends without a fault.
  pub pgify_string_tree_lem :
      (tree : T) (tokens : List Token) (ws : WalkerState)
      → (ls : List String) × (text : String) × Leaves (children tree) ls
        × Weave (hidden_texts tokens) ls text
        × (pgify_string_tree (some tree) tokens ws ≡ ok (print_postbuf text ws))
  unfolding pgify_string_tree tree_walk_printer
  pgify_string_tree_lem tree tokens ws =
      let (ls, out', leaves, runs, prints) =
        print_from-PrintsAll (height tree) 0 tree (children tree) ("", tokens) (omega arith) refl in
      let all : Prints ("", tokens) ls (advance_all out'.0 out'.1) =
        rw list_append_nil at (Prints-trans prints (advance_all-Prints out'.1 out'.0)) in
      (
        ls,
        (advance_all out'.0 out'.1).0,
        leaves,
        Prints-all all (advance_all-nil out'.1 out'.0),
        rw (get_child_count_lem, runs) refl,
      )
