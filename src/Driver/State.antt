-- ===== src/Driver/State.antt =====
-- What a call of the library leaves in the walker's state, on every path.
use Prim.Native.String.{len}
use text.Mathlib.TextPositions.{slice_all, slice-zero-zero}
use Prim.Native.String.{slice}
use pgify.Base.{
  ℕ, String, ◌≡◌, refl, sym, ap, ◌∙◌, ◌⊎◌, true, false, ltb, Option, none, some, List, zero, suc,
  inl, inr,
}
use pgify.Antlr.{Antlr}
use pgify.Driver.Services.{Frontend}
use pgify.Driver.{
  PgifyTree, Outcome, give_up, Resource, walk_tree, walk_and_wrap, pgify_tree, string_of,
  pgify_string, pgify_string_s,
}
use pgify.Base.{ltb-zero_suc}
use pgify.Glib.{Glib}
use pgify.Printer.{Token, tree_walk_printer, print_postbuf, advance_all, pgify_string_tree}
use pgify.Result.{Result, ok, fault}
use pgify.Result.Outcomes.{
  Ensures, returns, faults, Ensures-ok, Ensures-bind, Ensures-step, Ensures-choice,
}
use pgify.TreeWalk.{tree_walk_worker}
use pgify.TreeWalk.State.{tree_walk_worker-Grows}
use pgify.Walker.{WalkerState}
use pgify.Walker.Extends.{same, Grows, Extends-Grows}

-- A state that a call may leave. With a text as its answer, nothing is put off any more.
pub record Settled (ws ws' : WalkerState) (result : Option String) : Type 0 where
  pub options_kept : ws'.options ≡ ws.options
  pub found_rows_kept : ws'.found_rows ≡ ws.found_rows
  pub emptied : (text : String) → result ≡ some text → ws'.postbuf ≡ ""

len-zero : (s : String) → len s ≡ 0 → s ≡ ""
len-zero s h = sym (slice_all s) ∙ ap (λ n. slice s 0 n) h ∙ slice-zero-zero s

-- A buffer that is printed is empty behind it, and one that is not was empty before.
print_postbuf-Settled :
    (output : String) (ws : WalkerState) (r : Option String)
    → Settled ws (print_postbuf output ws).1 r
unfolding print_postbuf
print_postbuf-Settled output ws r = elim (compare_dec (len ws.postbuf)) [
  | inl h ↦ rw h (record { options_kept = refl; found_rows_kept = refl; emptied = λ text e. refl })
  | inr (h, e) ↦ rw h (record {
    options_kept = refl;
    found_rows_kept = refl;
    emptied = λ text _. len-zero ws.postbuf e;
  })
]
  where
    compare_dec : (n : ℕ) → (ltb 0 n ≡ true) ⊎ ((ltb 0 n ≡ false) × (n ≡ 0))
    compare_dec zero = inr (refl, refl)
    compare_dec (suc n) = inl (ltb-zero_suc n)

module _ {T Input : Type 0} ⦃a : Antlr T⦄ ⦃g : Glib⦄ (f : Frontend T Input) (uninit : ℕ) where
  -- Whatever the walk did, a tree or NULL goes on.
  walk_tree-Grows :
      (ws : WalkerState) (t : Option T) → Ensures (λ q. Grows ws q.0) (walk_tree uninit ws t)
  unfolding walk_tree
  walk_tree-Grows ws none = returns _ (Extends-Grows same)
  walk_tree-Grows ws (some t) =
      Ensures-bind _ (walks (tree_walk_worker uninit ws t) refl) (λ q grows. returns _ grows)
    where
      walks :
          (m : Result (WalkerState × T))
          → tree_walk_worker uninit ws t ≡ m
          → Ensures (λ q. Grows ws q.0) m
      walks (ok q) h = returns q (tree_walk_worker-Grows ws uninit t q.1 q.0 h)
      walks (fault e) h = faults e

  abbrev Left : WalkerState → Outcome (PgifyTree T) → Type 0
  Left ws o = Grows ws o.ws

  give_up-Grows :
      (ws ws' : WalkerState) (cleaned : Result (List Resource))
      → Grows ws ws'
      → Ensures (Left ws) (give_up ws' cleaned)
  give_up-Grows ws ws' cleaned grows = Ensures-step cleaned _ (λ freed. returns _ grows)

  walk_and_wrap-Grows :
      (input : Input) (ws : WalkerState) → Ensures (Left ws) (walk_and_wrap f uninit input ws)
  unfolding walk_and_wrap
  walk_and_wrap-Grows input ws =
      Ensures-bind _ (walk_tree-Grows ws (f.start_rule ws.options input)) (λ q grows.
        Ensures-choice (f.malloc_tree input) (returns _ grows) (give_up-Grows ws q.0 _ grows))

  pgify_tree-Grows :
      (input : Input) (ws : WalkerState) → Ensures (Left ws) (pgify_tree f uninit input ws)
  unfolding pgify_tree
  pgify_tree-Grows input ws =
      Ensures-choice (f.lexer_new input)
        (Ensures-choice (f.tstream_new input)
          (Ensures-choice (f.parser_new input) (walk_and_wrap-Grows input ws)
            (give_up-Grows ws ws _ start))
          (give_up-Grows ws ws _ start))
        (give_up-Grows ws ws _ start)
    where
      start : Grows ws ws
      start = Extends-Grows same

  abbrev Over : WalkerState → Outcome String → Type 0
  Over ws o = Settled ws o.ws o.result

  Settled-after :
      {ws ws' ws'' : WalkerState} {r : Option String}
      → Grows ws ws'
      → Settled ws' ws'' r
      → Settled ws ws'' r
  Settled-after grows s = record {
    options_kept = s.options_kept ∙ grows.options_kept;
    found_rows_kept = s.found_rows_kept ∙ grows.found_rows_kept;
    emptied = s.emptied;
  }

  pgify_string_tree-Settled :
      (tree : Option T) (tokens : List Token) (ws : WalkerState)
      → Ensures (λ p. Settled ws p.1 (some p.0)) (pgify_string_tree tree tokens ws)
  unfolding pgify_string_tree
  pgify_string_tree-Settled tree tokens ws =
      Ensures-step (tree_walk_printer ("", tokens) tree) _
        (λ (output, left). returns _ (print_postbuf-Settled (advance_all output left).0 ws _))

  string_of-Settled :
      (ws : WalkerState) (o : Outcome (PgifyTree T)) (r : Option (PgifyTree T))
      → Grows ws o.ws
      → Ensures (Over ws) (string_of f o r)
  unfolding string_of
  string_of-Settled ws o none grows = returns _ (record {
    options_kept = grows.options_kept;
    found_rows_kept = grows.found_rows_kept;
    emptied = λ text h. cc;
  })
  string_of-Settled ws o (some pt) grows =
      Ensures-bind _ (pgify_string_tree-Settled pt.lang_ast pt.tokens o.ws)
        (λ p settled. returns _ (Settled-after grows settled))

  -- Whatever the text is and however the call of `pgify_string_s` ends, if it ends, the options and
  -- the number of found rows are those from before; and if it answers a text, no statement is left
  -- in the buffer for the next call.
  pub pgify_string_s-Settled :
      (sql : String) (ws : WalkerState) (o : Outcome String)
      → pgify_string_s f uninit sql ws ≡ ok o
      → Settled ws o.ws o.result
  unfolding pgify_string_s pgify_string
  pgify_string_s-Settled sql ws o h =
      Ensures-ok {P = Over ws}
        (Ensures-bind _
          (Ensures-bind _ (pgify_tree-Grows (f.string_copy_stream sql) ws)
            (λ pt grows. string_of-Settled ws pt pt.result grows))
          (λ o settled. returns _ settled))
        h
