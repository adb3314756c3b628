-- ===== src/Printer/Column.antt =====
-- `advance` compares columns also of tokens on other lines.
use Prim.Native.String.{◌++◌}
use pgify.Base.{
  ◌≡◌, refl, Bool, true, false, not, ◌||◌, List, [], ◌∷◌, String, ℤ, lt_int, le_int, if◌then◌else◌,
}
use pgify.Printer.{Token, Output, advance_hidden, advance_all}

-- Every hidden token of the list stands at the column or in front of it, on whatever line.
abbrev pub WithinColumn : ℤ → List Token → Type 0
WithinColumn position [] = Unit {0}
WithinColumn position (t ∷ ts) =
    (t.hidden ≡ true → le_int t.char_position position ≡ true) × WithinColumn position ts

within_round :
    (output text : String) (is_hidden lower within : Bool) {skipped printed : Output}
    (stop : Output) (ts : List Token)
    → (is_hidden ≡ true → within ≡ true)
    → skipped ≡ advance_all output ts
    → printed ≡ advance_all (output ++ text) ts
    → (if not is_hidden then skipped else if lower || within then printed else stop)
      ≡ advance_all (if not is_hidden then output else output ++ text) ts
within_round output text false lower within stop ts h p q = p
within_round output text true true within stop ts h p q = q
within_round output text true false true stop ts h p q = q
within_round output text true false false stop ts h p q = cc (h refl)

-- If all hidden tokens that are left stand within the column of a leaf, on whatever lines, they are
-- all printed in front of the leaf.
pub advance_hidden-WithinColumn :
    (line position : ℤ) (ts : List Token) (output : String)
    → WithinColumn position ts
    → advance_hidden line position output ts ≡ advance_all output ts
unfolding advance_hidden advance_all
advance_hidden-WithinColumn line position [] output w = refl
advance_hidden-WithinColumn line position (t ∷ ts) output w =
    within_round output t.text t.hidden (lt_int t.line line) (le_int t.char_position position)
      (output, t ∷ ts) ts w.0 (advance_hidden-WithinColumn line position ts output w.1)
      (advance_hidden-WithinColumn line position ts (output ++ t.text) w.1)
