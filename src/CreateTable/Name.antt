-- ===== src/CreateTable/Name.antt =====
-- `create_table_tablename` of pgify.c. NULL is `none`.
pub mod Laws
use pgify.Base.{ℕ, zero, suc, ◌+◌, String, Option, none, some, ◌==◌, if◌then◌else◌}
use pgify.Antlr.{Antlr, get_type, to_string, get_child, get_child_count}
use pgify.Result.{Result, ok, deref, ◌>>=◌}
use pgify.TokenTypes.{id}

module _ {T : Type 0} ⦃a : Antlr T⦄ where
  tablename_from : T → ℕ → ℕ → Result (Option String)
  tablename_from base c zero = ok none
  tablename_from base c (suc left) =
      let later = tablename_from base (c + 1) left in
      do
        child ← deref (get_child base c)
        if get_type child == id then ok (some (to_string child)) else later

  unfoldable pub create_table_tablename : T → Result (Option String)
  unfolding tablename_from
  create_table_tablename base = tablename_from base 0 (get_child_count base)
