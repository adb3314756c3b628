-- ===== src/CreateTable/Options.antt =====
-- `create_table_remove_table_options` of pgify.c.
pub mod Laws
use pgify.Base.{ℕ, zero, suc, none, some}
use pgify.Antlr.{Antlr, get_child_count, delete_child}
use pgify.LookAhead.{look_ahead_index}
use pgify.Result.{Result, ok, fault, out_of_fuel, ◌>>=◌}
use pgify.TokenTypes.{t_create_table_options}

module _ {T : Type 0} ⦃a : Antlr T⦄ where
  unfoldable pub remove_options_loop : ℕ → T → ℕ → Result T
  remove_options_loop zero base pos = fault out_of_fuel
  remove_options_loop (suc fuel) base pos = do
    found ← look_ahead_index base pos t_create_table_options
    elim found [ none ↦ ok base | some p ↦ remove_options_loop fuel (delete_child base p) p ]

  -- Each round deletes a child, so the fuel is the number of children and one more.
  unfoldable pub create_table_remove_table_options : T → Result T
  unfolding remove_options_loop
  create_table_remove_table_options base = remove_options_loop (suc (get_child_count base)) base 0
