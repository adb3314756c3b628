-- ===== src/CreateTable/Fkey.antt =====
-- `create_table_rewrite_fkey` of pgify.c.
pub mod Laws
use Prim.Native.String.{◌++◌}
use pgify.Base.{String, Option}
use pgify.Antlr.{Antlr, get_text}
use pgify.Children.{for_children, each_with_comma}
use pgify.Result.{Result, ok, deref, ◌>>=◌}
use pgify.TokenTypes.{t_create_table_fkey}
use pgify.Walker.{WalkerState, append_postbuf}
use pgify.CreateTable.Name.{create_table_tablename}

module _ {T : Type 0} ⦃a : Antlr T⦄ where
  abbrev pub append_token : WalkerState → T → WalkerState
  append_token ws token_tree = append_postbuf ws (" " ++ get_text token_tree)

  -- The statement for one foreign key. Formatting a table name of NULL is a fault.
  abbrev pub alter_table_add : Option String → WalkerState → T → Result WalkerState
  alter_table_add tablename ws fkey = do
    table ← deref tablename
    ws' ←
        for_children fkey (λ w t. ok (append_token w t))
          (append_postbuf ws ("ALTER TABLE " ++ table ++ " ADD"))
    ok (append_postbuf ws' ";\n")

  unfoldable pub create_table_rewrite_fkey : WalkerState → T → Result (WalkerState × T)
  create_table_rewrite_fkey ws tree = do
    tablename ← create_table_tablename tree
    each_with_comma t_create_table_fkey (alter_table_add tablename) ws tree
