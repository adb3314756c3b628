-- ===== src/CreateTable/Fkey/Laws.antt =====
-- Each foreign key becomes a statement of its own behind the table, and leaves the table.
use Prim.Native.String.{◌++◌}
use mathlib.Core.List.{foldl}
use pgify.Base.{◌≡◌, refl, String, List, [], ◌∷◌, some}
use pgify.Antlr.{Antlr, children, get_text}
use pgify.Children.Passes.{fold_result, fold_result-ok, for_children-eq}
use pgify.Children.Removal.{strip, StartsPlain, each_with_comma_lem}
use pgify.Children.Split.{of_type, Rewritten}
use pgify.Result.{ok}
use pgify.TokenTypes.{t_create_table_fkey}
use pgify.Walker.{WalkerState}
use pgify.CreateTable.Name.Laws.{first_name, create_table_tablename_lem}
use pgify.CreateTable.Fkey.{append_token, alter_table_add, create_table_rewrite_fkey}

module _ {T : Type 0} ⦃a : Antlr T⦄ where
  -- The words of a foreign key, each behind a blank.
  abbrev pub words_onto : String → List T → String
  words_onto s [] = s
  words_onto s (x ∷ xs) = words_onto (s ++ (" " ++ get_text x)) xs

  -- The statements for some foreign keys of a table, behind a text.
  abbrev pub fkeys_onto : String → String → List T → String
  fkeys_onto table s [] = s
  fkeys_onto table s (k ∷ ks) =
      fkeys_onto table (words_onto (s ++ ("ALTER TABLE " ++ table ++ " ADD")) (children k) ++ ";\n")
        ks

  foldl-append_token :
      (xs : List T) (ws : WalkerState)
      → foldl append_token ws xs ≡ record ws { postbuf = words_onto ws.postbuf xs }
  foldl-append_token [] ws = refl
  foldl-append_token (x ∷ xs) ws = foldl-append_token xs (append_token ws x)

  alter_table_add-eq :
      (table : String) (ws : WalkerState) (k : T)
      → alter_table_add (some table) ws k
        ≡ ok (record ws {
          postbuf =
              words_onto (ws.postbuf ++ ("ALTER TABLE " ++ table ++ " ADD")) (children k) ++ ";\n";
        })
  alter_table_add-eq table ws k = rw (
    for_children-eq k _ _,
    fold_result-ok _ append_token (λ s x. refl) _ (children k),
    foldl-append_token (children k) _,
  )

  fold-alter_table_add :
      (table : String) (ks : List T) (ws : WalkerState)
      → fold_result (alter_table_add (some table)) ws ks
        ≡ ok (record ws { postbuf = fkeys_onto table ws.postbuf ks })
  fold-alter_table_add table [] ws = refl
  fold-alter_table_add table (k ∷ ks) ws =
      rw (alter_table_add-eq table ws k) (fold-alter_table_add table ks _)

  -- In a table that has a name and starts with neither a foreign key nor a comma, the pass ends
  -- without a fault. The statements for the foreign keys are added to the postponed text in order,
  -- nothing else of the state changes, and each foreign key is removed with the comma in front of it.
  pub create_table_rewrite_fkey_lem :
      (ws : WalkerState) (tree : T) (table : String)
      → first_name (children tree) ≡ some table
      → StartsPlain t_create_table_fkey (children tree)
      → (tree' : T) × (create_table_rewrite_fkey ws tree
          ≡ ok (
            record ws {
              postbuf = fkeys_onto table ws.postbuf (of_type t_create_table_fkey (children tree));
            },
            tree',
          ))
        × Rewritten tree tree' (strip t_create_table_fkey [] (children tree))
  unfolding create_table_rewrite_fkey
  create_table_rewrite_fkey_lem ws tree table named plain =
      rw (create_table_tablename_lem tree, named)
        (each_with_comma_lem t_create_table_fkey (alter_table_add (some table)) ws _ tree plain
          (fold-alter_table_add table (of_type t_create_table_fkey (children tree)) ws))
