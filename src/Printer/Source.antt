-- ===== src/Printer/Source.antt =====
-- A tree that holds the visible tokens of a text in their order prints as the text.
use Prim.Native.String.{◌++◌, len}
use mathlib.Core.List.{◌++◌ as append, foldl, foldl-append}
use native.Mathlib.Numerals.{add-one}
use text.Mathlib.TextLemmas.{append_assoc, append-nil, nil-append}
use pgify.Base.{
  ℕ, zero, suc, ◌≤◌, ◌≡◌, ◌≢◌, inl, inr, refl, sym, ap, ◌∙◌, true, false, List, [], ◌∷◌, String, ℤ,
  ltb, if◌then◌else◌, some, length, drop, arith, test_of_eq, test_of_ne, ltb-zero_suc,
}
use pgify.Antlr.{
  Antlr, get_type, get_text, get_line, get_char_position, children, height, get_child_lem,
  get_child_count_lem, height-child,
}
use pgify.LookAhead.Laws.{drop-cons}
use pgify.Printer.{
  Token, token_eof, Output, advance_hidden, advance_all, advance, print_from, tree_walk_printer,
  pgify_string_tree, print_postbuf,
}
use pgify.Printer.Layout.{Aligned, stop, hidden, visible, HeadPasses, FirstStops, passes}
use pgify.Result.{ok}
use pgify.Walker.{WalkerState}

-- The texts of all tokens, one behind the other.
abbrev pub all_text : List Token → String
all_text [] = ""
all_text (t ∷ ts) = t.text ++ all_text ts

-- The leaves below a list of nodes, from left to right, but for the end of the input.
pub data LeafNodes {T : Type 0} ⦃a : Antlr T⦄ : List T → List T → Type 0 where
  nil : LeafNodes [] []
  leaf :
      {xs ls : List T} (x : T)
      → children x ≡ []
      → get_type x ≢ token_eof
      → LeafNodes xs ls
      → LeafNodes (x ∷ xs) (x ∷ ls)
  eof :
      {xs ls : List T} (x : T)
      → children x ≡ []
      → get_type x ≡ token_eof
      → LeafNodes xs ls
      → LeafNodes (x ∷ xs) ls
  branch :
      {xs ys ls ls' : List T} (x y : T)
      → children x ≡ y ∷ ys
      → LeafNodes (y ∷ ys) ls
      → LeafNodes xs ls'
      → LeafNodes (x ∷ xs) (append ls ls')

-- The tokens from the first hidden one on.
abbrev pub skip : List Token → List Token
skip [] = []
skip (t ∷ ts) = if t.hidden then t ∷ ts else skip ts

advance_hidden-skip :
    (line position : ℤ) (output : String) (ts : List Token)
    → advance_hidden line position output (skip ts) ≡ advance_hidden line position output ts
unfolding advance_hidden
advance_hidden-skip line position output [] = refl
advance_hidden-skip line position output (t ∷ ts) =
    ground (arith, advance_hidden-skip line position output ts)

advance_all-skip :
    (output : String) (ts : List Token) → advance_all output (skip ts) ≡ advance_all output ts
unfolding advance_all
advance_all-skip output [] = refl
advance_all-skip output (t ∷ ts) = ground (arith, advance_all-skip output ts)

advance_all-hidden :
    (output : String) (t : Token) (ts : List Token)
    → t.hidden ≡ true
    → advance_all output (t ∷ ts) ≡ advance_all (output ++ t.text) ts
unfolding advance_all
advance_all-hidden output t ts h = ground arith

advance_hidden-visible :
    (line position : ℤ) (output : String) (t : Token) (ts : List Token)
    → t.hidden ≡ false
    → advance_hidden line position output (t ∷ ts) ≡ advance_hidden line position output ts
unfolding advance_hidden
advance_hidden-visible line position output t ts h = ground arith

pub print_postbuf-empty :
    (output : String) (ws : WalkerState) → ws.postbuf ≡ "" → print_postbuf output ws ≡ (output, ws)
unfolding print_postbuf
print_postbuf-empty output ws empty =
    let nothing : ltb 0 (len ws.postbuf) ≡ false = ap (λ s. ltb 0 (len s)) empty in rw nothing

module _ {T : Type 0} ⦃a : Antlr T⦄ where
  advance_hidden-passes :
      (x : T) (output : String) (t : Token) (ts : List Token)
      → t.hidden ≡ true
      → passes x t ≡ true
      → advance_hidden (get_line x) (get_char_position x) output (t ∷ ts)
        ≡ advance_hidden (get_line x) (get_char_position x) (output ++ t.text) ts
  unfolding advance_hidden
  advance_hidden-passes x output t ts h p = ground arith

  advance_hidden-FirstStops :
      (x : T) (output : String) (ts : List Token)
      → FirstStops x ts
      → advance_hidden (get_line x) (get_char_position x) output ts ≡ (output, skip ts)
  unfolding advance_hidden
  advance_hidden-FirstStops x output [] h = refl
  advance_hidden-FirstStops x output (t ∷ ts) (inl (h, p)) = ground arith
  advance_hidden-FirstStops x output (t ∷ ts) (inr (h, rest)) =
      ground (arith, advance_hidden-FirstStops x output ts rest)

  -- All that is printed from some leaves on.
  abbrev finish : Output → List T → String
  finish out xs = let end = foldl advance out xs in (advance_all end.0 end.1).0

  finish-skip :
      (output : String) (ts : List Token) (xs : List T)
      → finish (output, skip ts) xs ≡ finish (output, ts) xs
  unfolding advance
  finish-skip output ts [] = ap (λ (o : Output). o.0) (advance_all-skip output ts)
  finish-skip output ts (x ∷ xs) =
      ap (λ (o : Output). finish (o.0 ++ get_text x, o.1) xs)
        (advance_hidden-skip (get_line x) (get_char_position x) output ts)

  finish-hidden :
      (output : String) (t : Token) (ts : List Token) (xs : List T)
      → t.hidden ≡ true
      → HeadPasses t xs
      → finish (output, t ∷ ts) xs ≡ finish (output ++ t.text, ts) xs
  unfolding advance
  finish-hidden output t ts [] h p = ap (λ (o : Output). o.0) (advance_all-hidden output t ts h)
  finish-hidden output t ts (x ∷ xs) h p =
      ap (λ (o : Output). finish (o.0 ++ get_text x, o.1) xs)
        (advance_hidden-passes x output t ts h p)

  finish-visible :
      (output : String) (t : Token) (ts : List Token) (x : T) (xs : List T)
      → t.hidden ≡ false
      → FirstStops x ts
      → finish (output, t ∷ ts) (x ∷ xs) ≡ finish (output ++ get_text x, ts) xs
  unfolding advance
  finish-visible output t ts x xs h stops =
      ap (λ (o : Output). finish (o.0 ++ get_text x, o.1) xs)
        (advance_hidden-visible (get_line x) (get_char_position x) output t ts h
          ∙ advance_hidden-FirstStops x output ts stops)
      ∙ finish-skip (output ++ get_text x) ts xs

  -- What is printed of an aligned text is the text.
  finish-Aligned :
      {ts : List Token} {xs : List T} (output : String)
      → Aligned ts xs
      → finish (output, ts) xs ≡ output ++ all_text ts
  unfolding advance_all
  finish-Aligned output stop = sym (append-nil output)
  finish-Aligned output (hidden {ts} {xs} t h p rest) =
      finish-hidden output t ts xs h p
      ∙ finish-Aligned (output ++ t.text) rest
      ∙ append_assoc output t.text (all_text ts)
  finish-Aligned output (visible {ts} {xs} t x h same stops rest) =
      finish-visible output t ts x xs h stops
      ∙ finish-Aligned (output ++ get_text x) rest
      ∙ append_assoc output (get_text x) (all_text ts)
      ∙ ap (λ s. output ++ (s ++ all_text ts)) same

  -- The printer advances over the leaves in their order.
  print_from-LeafNodes :
      (fuel c : ℕ) (p : T) {ys ls : List T} (out : Output)
      → height p ≤ fuel
      → drop c (children p) ≡ ys
      → LeafNodes ys ls
      → print_from fuel c (length ys) out p ≡ ok (foldl advance out ls)
  unfolding print_from
  print_from-LeafNodes zero c p out h d nil = refl
  print_from-LeafNodes (suc fuel) c p out h d nil = refl
  print_from-LeafNodes zero c p out h d (leaf x e k rest) =
      absurd (omega (arith, height-child p x c (drop-cons (children p) c d).0))
  print_from-LeafNodes zero c p out h d (eof x e k rest) =
      absurd (omega (arith, height-child p x c (drop-cons (children p) c d).0))
  print_from-LeafNodes zero c p out h d (branch x y e below rest) =
      absurd (omega (arith, height-child p x c (drop-cons (children p) c d).0))
  print_from-LeafNodes (suc fuel) c p out h d (leaf {xs} {ls} x e k rest) =
      let (here, next) = drop-cons (children p) c d in
      rw (get_child_lem p c, here, get_child_count_lem x, e, test_of_ne _ _ k, add-one)
        (print_from-LeafNodes (suc fuel) (suc c) p (advance out x) h next rest)
  print_from-LeafNodes (suc fuel) c p out h d (eof {xs} {ls} x e k rest) =
      let (here, next) = drop-cons (children p) c d in
      rw (get_child_lem p c, here, get_child_count_lem x, e, test_of_eq _ _ k, add-one)
        (print_from-LeafNodes (suc fuel) (suc c) p out h next rest)
  print_from-LeafNodes (suc fuel) c p out h d (branch {xs} {ys} {ls} {ls'} x y e below rest) =
      let (here, next) = drop-cons (children p) c d in
      let inside : print_from fuel 0 (suc (length ys)) out x ≡ ok (foldl advance out ls) =
        print_from-LeafNodes fuel 0 x out (omega (arith, height-child p x c here)) e below in
      rw
        (
          get_child_lem p c,
          here,
          get_child_count_lem x,
          e,
          ltb-zero_suc (length ys),
          inside,
          add-one,
          foldl-append,
        )
        (print_from-LeafNodes (suc fuel) (suc c) p (foldl advance out ls) h next rest)

  -- If the leaves of a tree are the visible tokens of a text in their order, where they stand in it,
  -- and nothing is put off, then the printer prints the text, with its blanks and comments, and leaves
  -- the state as it was.
  pub pgify_string_tree-source :
      (tree : T) (tokens : List Token) (ws : WalkerState) (ls : List T)
      → LeafNodes (children tree) ls
      → Aligned tokens ls
      → ws.postbuf ≡ ""
      → pgify_string_tree (some tree) tokens ws ≡ ok (all_text tokens, ws)
  unfolding pgify_string_tree tree_walk_printer print_postbuf
  pgify_string_tree-source tree tokens ws ls leaves aligned empty =
      let runs = print_from-LeafNodes (height tree) 0 tree ("", tokens) (omega arith) refl leaves in
      rw (get_child_count_lem tree, runs)
        (ap (λ s. ok (print_postbuf s ws))
            (finish-Aligned "" aligned ∙ nil-append (all_text tokens))
          ∙ ap ok (print_postbuf-empty (all_text tokens) ws empty))
