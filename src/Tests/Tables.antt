-- ===== src/Tests/Tables.antt =====
-- A table with an ENUM column, an index, a foreign key and table options.
use pgify.Base.{◌≡◌, ◌≢◌, refl, inl, none, [], ◌∷◌, arith}
use pgify.Antlr.{children, get_type}
use pgify.Antlr.Concrete.{Tree, concrete}
use pgify.CreateTable.{create_table_worker}
use pgify.CreateTable.AutoInc.{stated_start}
use pgify.CreateTable.Columns.{IsEnum, EnumsFrom}
use pgify.CreateTable.Frame.{Every-at}
use pgify.CreateTable.Index.{index_type, add_part, add_identifier}
use pgify.CreateTable.Sound.{Sound}
use pgify.CreateTable.Whole.{WellFormed, Translated, create_table_worker_lem}
use pgify.Glib.Concrete.{lower_case}
use pgify.LookAhead.{look_ahead_index}
use pgify.Result.{ok, fault, out_of_fuel}
use pgify.TreeWalk.{tree_walk_worker}
use pgify.TreeWalk.Stops.{tree_walk_worker-stops}
use pgify.Tests.Samples.{tree, word, start}
use pgify.TokenTypes.{
  t_create_table, t_create_table_column_def, t_create_table_enum, t_create_table_index,
  t_create_table_fkey, t_create_table_options, id, k_enum, comma, rparen,
}
use pgify.Walker.{WalkerState}
use pgify.Walker.Extends.{Grows}

-- ENUM ( 'a' )
abbrev choice : Tree
choice = tree t_create_table_enum "" (word k_enum "ENUM" ∷ word 700 "'a'" ∷ word rparen ")" ∷ [])

abbrev size_column : Tree
size_column = tree t_create_table_column_def "" (word id "\"size\"" ∷ choice ∷ [])

abbrev size_index : Tree
size_index = tree t_create_table_index "" (word id "\"size\"" ∷ [])

abbrev size_key : Tree
size_key = tree t_create_table_fkey "" (word 501 "FOREIGN" ∷ word 502 "KEY" ∷ [])

abbrev engine : Tree
engine = tree t_create_table_options "" (word 503 "ENGINE" ∷ [])

-- CREATE TABLE "t" ( "size" ENUM('a') , KEY ("size") , FOREIGN KEY ) ENGINE
abbrev sizes : Tree
sizes = tree t_create_table "" (
    word 500 "CREATE"
    ∷ word id "\"t\""
    ∷ size_column
    ∷ word comma ","
    ∷ size_index
    ∷ word comma ","
    ∷ size_key
    ∷ word rparen ")"
    ∷ engine
    ∷ [])

-- A child that is neither a column nor an index nor table options.
plain-Sound :
    (x : Tree)
    → get_type x ≢ t_create_table_column_def
    → get_type x ≢ t_create_table_index
    → get_type x ≢ t_create_table_options
    → Sound x
plain-Sound x c i o = record {
  column = λ h. absurd (c h);
  index = λ h. absurd (i h);
  options = λ h. absurd (o h);
}

size_column-Sound : Sound size_column
size_column-Sound = record {
  column = λ h. (word id "\"size\"", refl, refl);
  index = λ h. absurd (omega (arith, h));
  options = λ h. absurd (omega (arith, h));
}

size_index-Sound : Sound size_index
unfolding index_type look_ahead_index add_part add_identifier
size_index-Sound = record {
  column = λ h. absurd (omega (arith, h));
  index = λ h. record { kind = none; typed = refl; name = "\"size\""; names = refl };
  options = λ h. absurd (omega (arith, h));
}

engine-Sound : Sound engine
unfolding stated_start
engine-Sound = record {
  column = λ h. absurd (omega (arith, h));
  index = λ h. absurd (omega (arith, h));
  options = λ h. (none, refl, tt);
}

choice-IsEnum : IsEnum choice
choice-IsEnum = (inl (0, word k_enum "ENUM", refl, refl), (2, word rparen ")", refl, refl))

size_column-EnumsFrom : EnumsFrom 0 (children size_column)
size_column-EnumsFrom i x le at k =
    Every-at (λ x. get_type x ≡ t_create_table_enum → IsEnum x) (children size_column) i
      ((λ h. absurd (omega (arith, h))), ((λ h. choice-IsEnum), tt)) at k

sizes-WellFormed : WellFormed "\"t\"" sizes
sizes-WellFormed = record {
  whole = record {
    starts = refl;
    named = refl;
    every = (
      (plain-Sound _ (omega arith) (omega arith) (omega arith), tt),
      (
        (plain-Sound _ (omega arith) (omega arith) (omega arith), tt),
        (
          (size_column-Sound, tt),
          (
            (plain-Sound _ (omega arith) (omega arith) (omega arith), tt),
            (
              (size_index-Sound, tt),
              (
                (plain-Sound _ (omega arith) (omega arith) (omega arith), tt),
                (
                  (plain-Sound _ (omega arith) (omega arith) (omega arith), tt),
                  (
                    (plain-Sound _ (omega arith) (omega arith) (omega arith), tt),
                    ((engine-Sound, tt), tt),
                  ),
                ),
              ),
            ),
          ),
        ),
      ),
    );
  };
  enums = (
    (λ h. absurd (omega (arith, h))),
    (
      (λ h. absurd (omega (arith, h))),
      (
        (λ h. size_column-EnumsFrom),
        (
          (λ h. absurd (omega (arith, h))),
          (
            (λ h. absurd (omega (arith, h))),
            (
              (λ h. absurd (omega (arith, h))),
              (
                (λ h. absurd (omega (arith, h))),
                ((λ h. absurd (omega (arith, h))), ((λ h. absurd (omega (arith, h))), tt)),
              ),
            ),
          ),
        ),
      ),
    ),
  );
}

create_table_worker_example :
    (ws' : WalkerState) × (t' : Tree) × (create_table_worker start sizes ≡ ok (ws', t'))
    × Translated "\"t\"" t'
    × Grows start ws'
create_table_worker_example = create_table_worker_lem "\"t\"" start sizes sizes-WellFormed

tree_walk_worker-stops_example :
    tree_walk_worker 0 start (tree 0 "" (sizes ∷ tree t_create_table "" [] ∷ []))
    ≢ fault out_of_fuel
tree_walk_worker-stops_example =
    tree_walk_worker-stops 0 start (tree 0 "" (sizes ∷ tree t_create_table "" [] ∷ []))
