-- ===== src/CreateTable/Fulltext.antt =====
-- `create_table_fulltext_index` of pgify.c.
pub mod Laws
use pgify.Base.{ℕ, zero, suc, none, some, ◌==◌, if◌then◌else◌}
use pgify.Antlr.{Antlr, get_type, get_child, get_child_count, delete_child}
use pgify.LookAhead.{look_ahead_index}
use pgify.Result.{Result, ok, fault, out_of_fuel, deref, ◌>>=◌}
use pgify.TokenTypes.{t_create_table_fulltext_index, comma}

module _ {T : Type 0} ⦃a : Antlr T⦄ where
  -- The body of `if(pos - 1 > 0)`, which passes over a comma that is the first child.
  unfoldable pub remove_comma_before : T → ℕ → Result T
  remove_comma_before base (suc (suc p)) = do
    child ← deref (get_child base (suc p))
    ok (if get_type child == comma then delete_child base (suc p) else base)
  remove_comma_before base _ = ok base

  unfoldable pub fulltext_loop : ℕ → T → ℕ → Result T
  fulltext_loop zero base pos = fault out_of_fuel
  fulltext_loop (suc fuel) base pos = do
    found ← look_ahead_index base pos t_create_table_fulltext_index
    elim found [
      | none ↦ ok base
      | some p ↦ do base' ← remove_comma_before (delete_child base p) p; fulltext_loop fuel base' p
    ]

  -- Each round deletes a child, so the fuel is the number of children and one more.
  unfoldable pub create_table_fulltext_index : T → Result T
  unfolding fulltext_loop remove_comma_before
  create_table_fulltext_index base = fulltext_loop (suc (get_child_count base)) base 0
