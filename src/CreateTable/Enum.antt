-- ===== src/CreateTable/Enum.antt =====
-- `create_rewrite_enum` of pgify.c.
pub mod Laws
use Prim.Native.String.{◌++◌}
use pgify.Base.{ℕ, String, Option, none, some}
use pgify.Antlr.{Antlr, get_text, get_child, set_text, set_child, dup_tree, add_child}
use pgify.Children.{each_of_type}
use pgify.LookAhead.{look_ahead_index}
use pgify.Result.{Result, ok, deref, ◌>>=◌}
use pgify.TokenTypes.{t_create_table_column_def, t_create_table_enum, k_enum, k_set, rparen}

module _ {T : Type 0} ⦃a : Antlr T⦄ where
  -- The index is that of ENUM, or else that of SET.
  unfoldable pub enum_or_set : T → Option ℕ → Result (Option ℕ)
  enum_or_set tree none = look_ahead_index tree 0 k_set
  enum_or_set tree (some p) = ok (some p)

  -- The token at `enumpos` becomes a check, and the closing parenthesis is doubled. Both indices
  -- are used unchecked.
  unfoldable pub rewrite_enum : String → T → Result T
  unfolding enum_or_set
  rewrite_enum name tree = do
    enum ← look_ahead_index tree 0 k_enum
    found ← enum_or_set tree enum
    enumpos ← deref found
    enumtree ← deref (get_child tree enumpos)
    let tree' = set_child tree enumpos (set_text enumtree ("text CHECK ( " ++ name ++ " IN "))
    closing ← look_ahead_index tree' 0 rparen
    pos ← deref closing
    rtree ← deref (get_child tree' pos)
    ok (add_child tree' (dup_tree rtree))

  -- The name is the text of the first child of the column definition.
  unfoldable pub rewrite_enum_column : T → Result T
  rewrite_enum_column def = do
    (u, def') ←
        each_of_type t_create_table_enum
          (λ u d tree. do
            ntree ← deref (get_child d 0)
            tree' ← rewrite_enum (get_text ntree) tree
            ok (u, tree'))
          (tt {0}) def
    ok def'

  unfoldable pub create_rewrite_enum : T → Result T
  create_rewrite_enum base = do
    (u, base') ←
        each_of_type t_create_table_column_def
          (λ u b def. rewrite_enum_column def >>= λ def'. ok (u, def')) (tt {0}) base
    ok base'
