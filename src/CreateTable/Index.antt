-- ===== src/CreateTable/Index.antt =====
-- `create_table_index` of pgify.c.
pub mod Laws
pub mod Columns
use Prim.Native.String.{◌++◌, len}
use pgify.Base.{
  ℕ, suc, ◌+◌, String, Option, none, some, Bool, not, ◌||◌, ◌&&◌, ltb, ◌==◌, if◌then◌else◌,
}
use pgify.Antlr.{Antlr, get_type, get_text, to_string, get_child}
use pgify.Children.{for_children, each_with_comma}
use pgify.Glib.{Glib}
use pgify.LookAhead.{look_ahead_index}
use pgify.Result.{Result, ok, deref, ◌>>=◌}
use pgify.TokenTypes.{t_create_table_index, k_using, k_asc, k_desc, id}
use pgify.Walker.{WalkerState, append_postbuf, unquote}
use pgify.CreateTable.Name.{create_table_tablename}

-- The variables `name`, `columns` and `firstcolumn` of the loop over the parts of an index.
pub record IndexParts : Type 0 where
  pub name : Option String
  pub columns : String
  pub firstcolumn : Option String

abbrev pub no_parts : IndexParts
no_parts = record { name = none; columns = ""; firstcolumn = none }

abbrev or_first : Option String → String → Option String
or_first none s = some s
or_first (some f) s = some f

-- An identifier in the list of columns.
abbrev pub add_column : IndexParts → String → IndexParts
add_column p s = record p {
  columns = (if ltb 0 (len p.columns) then p.columns ++ ", " else p.columns) ++ s;
  firstcolumn = or_first p.firstcolumn s;
}

-- An identifier: the name of the index if neither a name nor a column was read.
unfoldable pub add_identifier : IndexParts → Option String → String → IndexParts
add_identifier p none s =
    if ltb (len p.columns) 1 then record p { name = some s } else add_column p s
add_identifier p (some n) s = add_column p s

abbrev pub or_else : Option String → Option String → Option String
or_else none y = y
or_else (some x) y = some x

-- The part ` USING %s ` if an index type was read.
abbrev using_clause : Option String → String
using_clause none = ""
using_clause (some index_type) = " USING " ++ index_type ++ " "

module _ {T : Type 0} ⦃a : Antlr T⦄ where
  -- The body of the loop over the children of an index.
  unfoldable pub add_part : IndexParts → T → IndexParts
  unfolding add_identifier
  add_part p index =
      if get_type index == id
      then add_identifier p p.name (to_string index)
      else if get_type index == k_asc || get_type index == k_desc
      then record p { columns = p.columns ++ " " ++ get_text index }
      else p

  -- The word behind USING.
  unfoldable pub index_type : T → Result (Option String)
  index_type child = do
    p ← look_ahead_index child 0 k_using
    elim p [
      | none ↦ ok none
      | some u ↦ do index_child ← deref (get_child child (u + 1)); ok (some (to_string index_child))
    ]

  module _ ⦃g : Glib⦄ where
    -- The statement for one index, where `tablename` and `utablename` are set before the loop.
    unfoldable pub create_index : String → String → WalkerState → T → Result WalkerState
    unfolding index_type
    create_index tablename utablename ws child = do
      kind ← index_type child
      parts ← for_children child (λ p t. ok (add_part p t)) no_parts
      name ← unquote (or_else parts.name parts.firstcolumn)
      ok (
          append_postbuf ws (
            "CREATE INDEX "
            ++ utablename
            ++ "_"
            ++ name
            ++ "_index ON "
            ++ ws.schema_name
            ++ tablename
            ++ " "
            ++ using_clause kind
            ++ " ( "
            ++ parts.columns
            ++ " ) ;\n"))

    unfoldable pub create_table_index : WalkerState → T → Result (WalkerState × T)
    create_table_index ws base = do
      tablename ← create_table_tablename base
      utablename ← unquote tablename
      table ← deref tablename
      each_with_comma t_create_table_index (create_index table utablename) ws base
