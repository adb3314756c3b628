-- ===== src/Tests/Columns.antt =====
-- Passes over a column definition, and SHOW COLUMNS.
use pgify.Base.{String, ◌≡◌, refl, [], ◌∷◌, arith}
use pgify.Antlr.Concrete.{Tree, concrete}
use pgify.Children.Split.{Rewritten}
use pgify.CreateTable.AutoInc.{rewrite_auto_inc_column}
use pgify.CreateTable.AutoInc.Laws.{rewrite_auto_inc_column_lem}
use pgify.CreateTable.AutoInc.Start.{Starts, stated, other, passed}
use pgify.CreateTable.OnUpdate.{rewrite_onupdate_column}
use pgify.CreateTable.OnUpdate.Laws.{rewrite_onupdate_column_lem}
use pgify.CreateTable.Fulltext.{create_table_fulltext_index}
use pgify.CreateTable.Fulltext.Laws.{create_table_fulltext_index_lem}
use pgify.Tests.Samples.{plain_column}
use pgify.TokenTypes.{t_create_table_fulltext_index, comma, rparen}
use pgify.Glib.Concrete.{lower_case}
use pgify.Result.{ok}
use pgify.Statements.ShowColumns.{show_columns_rewrite}
use pgify.Statements.ShowColumns.Laws.{show_columns_rewrite_lem}
use pgify.Tests.Samples.{tree, word, start}
use pgify.TokenTypes.{
  t_create_table, t_create_table_column_def, t_create_table_options, t_create_table_onupdate,
  t_show_columns, t_show_from, k_show, id, k_auto_increment, eq, number, k_on, k_update,
}

abbrev engine_option : Tree
engine_option =
    tree t_create_table_options "" (word 503 "ENGINE" ∷ word eq "=" ∷ word id "innodb" ∷ [])

abbrev start_options : Tree
start_options =
    tree t_create_table_options ""
      (word k_auto_increment "AUTO_INCREMENT" ∷ word eq "=" ∷ word number "7" ∷ [])

abbrev counted : Tree
counted =
    tree t_create_table_column_def ""
      (word id "\"n\"" ∷ word 702 "int" ∷ word k_auto_increment "AUTO_INCREMENT" ∷ [])

abbrev counted_table : Tree
counted_table =
    tree t_create_table "" (word id "\"t\"" ∷ counted ∷ engine_option ∷ start_options ∷ [])

-- ENGINE=innodb AUTO_INCREMENT=7
counted_table-Starts : Starts (counted ∷ engine_option ∷ start_options ∷ []) "7"
counted_table-Starts = passed counted (omega arith) (
    other engine_option (word 503 "ENGINE") (word eq "=" ∷ word id "innodb" ∷ []) refl refl
      (omega arith)
      (stated start_options (word k_auto_increment "AUTO_INCREMENT") (word eq "=") (word number "7")
        [] refl refl refl refl refl))

rewrite_auto_inc_column_example :
    (child' : Tree) × (rewrite_auto_inc_column "\"t\"" "t" start counted_table counted
      ≡ ok (
        record start {
          postbuf =
              "CREATE SEQUENCE t_n_seq START 7 ;\nALTER TABLE \"t\" ALTER COLUMN \"n\" SET DEFAULT NEXTVAL ( 't_n_seq' ) ;\n";
        },
        child',
      ))
    × Rewritten counted child' (word id "\"n\"" ∷ word 702 "int" ∷ [])
rewrite_auto_inc_column_example =
    rewrite_auto_inc_column_lem "\"t\"" "t" "7" start counted_table (word id "\"t\"") counted
      (word id "\"n\"") (word k_auto_increment "AUTO_INCREMENT")
      (counted ∷ engine_option ∷ start_options ∷ []) (word 702 "int" ∷ []) [] refl (omega arith)
      counted_table-Starts refl (omega arith, (omega arith, tt)) refl

abbrev on_update : Tree
on_update =
    tree t_create_table_onupdate "" (word k_on "ON" ∷ word k_update "UPDATE" ∷ word id "now()" ∷ [])

abbrev stamped : Tree
stamped = tree t_create_table_column_def "" (word id "ts" ∷ word 702 "timestamp" ∷ on_update ∷ [])

rewrite_onupdate_column_example :
    (def' : Tree) × (rewrite_onupdate_column "\"t\"" "t" start stamped
      ≡ ok (
        record start {
          postbuf =
              "CREATE OR REPLACE FUNCTION t_update_ts()\nRETURNS TRIGGER AS $$\nBEGIN\n   NEW.ts =  now() ; \n   RETURN NEW;\nEND;\n$$ language 'plpgsql';\nCREATE TRIGGER t_update_ts_trigger BEFORE UPDATE\n   ON \"t\" FOR EACH ROW EXECUTE PROCEDURE t_update_ts();\n";
        },
        def',
      ))
    × Rewritten stamped def' (word id "ts" ∷ word 702 "timestamp" ∷ [])
rewrite_onupdate_column_example =
    rewrite_onupdate_column_lem "\"t\"" "t" start stamped (word id "ts") on_update
      (word 702 "timestamp" ∷ []) [] refl (omega arith, (omega arith, tt)) refl tt

abbrev from : String → Tree
from name = tree t_show_from "" (word id name ∷ [])

abbrev columns_of : Tree
columns_of = tree t_show_columns "" (word k_show "SHOW" ∷ from "\"t\"" ∷ from "shop" ∷ [])

show_columns_rewrite_example :
    (tree' : Tree) × (show_columns_rewrite columns_of ≡ ok tree')
    × Rewritten columns_of tree' (
        word k_show
          "SELECT field, type, \"null\", key, \"default\", extra FROM (\nSELECT c.column_name AS field,\n       udt_name || COALESCE ( '(' || character_maximum_length || ')', '' ) AS TYPE,\n       current_setting ( 'LC_COLLATE' ) AS collation,\n       is_nullable AS NULL,\n       ( SELECT CASE WHEN count ( * ) > 0 THEN 'PRI'\n\t\t     ELSE ''\n\t\tEND\n           FROM information_schema.key_column_usage u\n          WHERE c.table_catalog = u.table_catalog\n            AND c.table_schema = u.table_schema\n            AND c.column_name = u.column_name ) AS KEY,\n       column_default AS DEFAULT,\n       '' AS extra,\n       ( SELECT array_to_string ( array_agg ( cp.privilege_type::text ), ',' )\n           FROM information_schema.column_privileges cp\n          WHERE c.table_catalog = cp.table_catalog\n            AND c.table_schema = cp.table_schema\n            AND c.column_name = cp.column_name ) AS priv,\n       '' AS comment\n  FROM information_schema.COLUMNS c\n WHERE c.table_catalog = current_database ( )\n   AND c.table_name = 't'\n   AND c.table_schema = 'shop'\n ORDER BY c.ordinal_position ) SUB\n\n"
        ∷ [])
show_columns_rewrite_example =
    show_columns_rewrite_lem columns_of (word k_show "SHOW") (from "\"t\"") (from "shop")
      (word id "\"t\"") (word id "shop") [] [] refl refl refl refl refl refl

abbrev searched : Tree
searched = tree t_create_table "" (
    word id "\"t\""
    ∷ plain_column
    ∷ word comma ","
    ∷ word t_create_table_fulltext_index ""
    ∷ word rparen ")"
    ∷ [])

create_table_fulltext_index_example :
    (base' : Tree) × (create_table_fulltext_index searched ≡ ok base')
    × Rewritten searched base' (word id "\"t\"" ∷ plain_column ∷ word rparen ")" ∷ [])
create_table_fulltext_index_example =
    create_table_fulltext_index_lem searched (word id "\"t\"") (word comma ",")
      (word t_create_table_fulltext_index "") (plain_column ∷ []) (word rparen ")" ∷ []) refl refl
      (omega arith, (omega arith, tt)) refl (omega arith, tt)
