-- ===== src/Walker/Extends.antt =====
-- How a walk may change the walker's state.
use Prim.Native.String.{◌++◌}
use text.Mathlib.TextLemmas.{append_assoc, append-nil}
use pgify.Base.{String, ◌≡◌, refl, sym, ap, ◌∙◌}
use pgify.Walker.{WalkerState, append_postbuf}

-- From one state to a later one: texts are put off, and USE sets the schema.
pub data Extends (ws : WalkerState) : WalkerState → Type 0 where
  same : Extends ws ws
  put_off : {w : WalkerState} (s : String) → Extends ws w → Extends ws (append_postbuf w s)
  switch :
      {w : WalkerState} (schema : String)
      → Extends ws w
      → Extends ws (record w { schema_name = schema })

-- The options and the number of found rows stay, and what was put off stays in front of what is
-- put off later.
pub record Grows (ws ws' : WalkerState) : Type 0 where
  pub options_kept : ws'.options ≡ ws.options
  pub found_rows_kept : ws'.found_rows ≡ ws.found_rows
  pub added : String
  pub postbuf_is : ws'.postbuf ≡ ws.postbuf ++ added

pub Extends-Grows : {ws ws' : WalkerState} → Extends ws ws' → Grows ws ws'
Extends-Grows {ws} same = record {
  options_kept = refl;
  found_rows_kept = refl;
  added = "";
  postbuf_is = sym (append-nil ws.postbuf);
}
Extends-Grows {ws} (put_off s e) =
    let g = Extends-Grows e in
    record {
      options_kept = g.options_kept;
      found_rows_kept = g.found_rows_kept;
      added = g.added ++ s;
      postbuf_is = ap (λ t. t ++ s) g.postbuf_is ∙ append_assoc ws.postbuf g.added s;
    }
Extends-Grows (switch schema e) =
    let g = Extends-Grows e in
    record {
      options_kept = g.options_kept;
      found_rows_kept = g.found_rows_kept;
      added = g.added;
      postbuf_is = g.postbuf_is;
    }
