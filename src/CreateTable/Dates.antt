-- ===== src/CreateTable/Dates.antt =====
-- `create_rewrite_stupid_date` of pgify.c.
pub mod Laws
pub mod Pass
use pgify.Base.{ℕ, zero, suc, ◌+◌, Option, none, some, ◌&&◌, ltb, ◌==◌, if◌then◌else◌}
use pgify.Antlr.{Antlr, get_type, get_child, get_child_count, delete_child}
use pgify.Children.{each_of_type}
use pgify.LookAhead.{look_ahead_down}
use pgify.Result.{Result, ok, deref, ◌>>=◌}
use pgify.TokenTypes.{
  t_create_table_column_def, stupid_mysql_date, stupid_mysql_timestamp, k_not, k_null,
}

module _ {T : Type 0} ⦃a : Antlr T⦄ where
  -- The loop over the children of a column definition, from child `c` of `n` on; it ends at the
  -- first NOT NULL, which it deletes.
  pub delete_not_null : ℕ → ℕ → ℕ → T → Result T
  delete_not_null n c zero def = ok def
  delete_not_null n c (suc left) def =
      let later = delete_not_null n (c + 1) left def in
      do
        child ← deref (get_child def c)
        if get_type child == k_not && ltb (c + 1) n
            then (do
              nextt ← deref (get_child def (c + 1))
              if get_type nextt == k_null
                  then ok (delete_child (delete_child def (c + 1)) c)
                  else later)
            else later

  -- `if(pos1 < 0 && pos2 < 0) continue;`
  unfoldable pub rewrite_date : Option ℕ → Option ℕ → T → Result T
  rewrite_date none none def = ok def
  rewrite_date _ _ def = delete_not_null (get_child_count def) 0 (get_child_count def) def

  unfoldable pub rewrite_date_column : T → Result T
  unfolding rewrite_date delete_not_null
  rewrite_date_column def = do
    pos1 ← look_ahead_down def 0 stupid_mysql_date
    pos2 ← look_ahead_down def 0 stupid_mysql_timestamp
    rewrite_date pos1 pos2 def

  unfoldable pub create_rewrite_stupid_date : T → Result T
  create_rewrite_stupid_date base = do
    (u, base') ←
        each_of_type t_create_table_column_def
          (λ u b def. rewrite_date_column def >>= λ def'. ok (u, def')) (tt {0}) base
    ok base'
