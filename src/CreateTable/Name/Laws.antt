-- ===== src/CreateTable/Name/Laws.antt =====
-- The name is the text of the first identifier among the children.
use pgify.Base.{
  ℕ, suc, ◌≡◌, refl, String, List, [], ◌∷◌, Option, none, some, length, drop, ◌==◌, if◌then◌else◌,
  arith,
}
use pgify.Antlr.{Antlr, get_type, to_string, children, get_child_lem, get_child_count_lem}
use pgify.LookAhead.Laws.{drop-cons}
use pgify.Result.{ok}
use pgify.TokenTypes.{id}
use pgify.CreateTable.Name.{tablename_from, create_table_tablename}

module _ {T : Type 0} ⦃a : Antlr T⦄ where
  abbrev pub first_name : List T → Option String
  first_name [] = none
  first_name (x ∷ xs) = if get_type x == id then some (to_string x) else first_name xs

  tablename_from-eq :
      (base : T) (c : ℕ) (ys : List T)
      → drop c (children base) ≡ ys
      → tablename_from base c (length ys) ≡ ok (first_name ys)
  unfolding tablename_from
  tablename_from-eq base c [] h = refl
  tablename_from-eq base c (y ∷ ys) h =
      let (here, next) = drop-cons (children base) c h in
      ground (arith, get_child_lem base c, here, tablename_from-eq base (suc c) ys next)

  -- The search for the name never faults; it answers the text of the first child that is an
  -- identifier, or NULL if there is none.
  pub create_table_tablename_lem :
      (base : T) → create_table_tablename base ≡ ok (first_name (children base))
  unfolding create_table_tablename
  create_table_tablename_lem base =
      rw get_child_count_lem (tablename_from-eq base 0 (children base) refl)
