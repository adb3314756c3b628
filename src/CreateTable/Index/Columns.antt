-- ===== src/CreateTable/Index/Columns.antt =====
-- How the identifiers of an index are shared out between its name and its columns.
use pgify.Base.{List, [], ◌∷◌}
use pgify.Antlr.{Antlr, to_string}
use pgify.CreateTable.Index.{IndexParts, add_column}

module _ {T : Type 0} ⦃a : Antlr T⦄ where
  -- The columns that some identifiers add.
  abbrev pub columns_onto : IndexParts → List T → IndexParts
  columns_onto p [] = p
  columns_onto p (x ∷ xs) = columns_onto (add_column p (to_string x)) xs
