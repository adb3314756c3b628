-- ===== src/Tests/Samples.antt =====
-- The trees that the parser builds for some statements, and what stands around them.
use pgify.Base.{ℕ, String, pos, Bool, true, false, some, List, [], ◌∷◌, Option, none, ◌≡◌, sym, ◌∙◌}
use pgify.Antlr.Concrete.{Tree, of_list, node, concrete}
use pgify.LookAhead.{look_ahead_down}
use pgify.LookAhead.Down.{Occurs, IsAnswer, nowhere, look_ahead_down_lem}
use pgify.Result.{ok}
use pgify.Driver.Services.{Frontend}
use pgify.Printer.{Token}
use pgify.TokenTypes.{
  t_create_table, t_create_table_column_def, t_create_table_fkey, t_create_table_index,
  t_create_table_options, t_use_database, t_server_variable, t_function_if, id, k_use, k_not,
  k_null, stupid_mysql_date, comma, rparen,
}
use pgify.Walker.{WalkerState}

-- A node on line 1 and a leaf.
abbrev pub tree : ℕ → String → List Tree → Tree
tree kind text below = node kind text (pos 1) (pos 0) (of_list below)

abbrev pub at : ℕ → String → ℕ → ℕ → Tree
at kind text line column = node kind text (pos line) (pos column) (of_list [])

abbrev pub word : ℕ → String → Tree
word kind text = tree kind text []

abbrev pub start : WalkerState
start = record { schema_name = ""; postbuf = ""; options = 6; found_rows = pos 1 }

abbrev pub date_column : Tree
date_column = tree t_create_table_column_def "" (
    word id "\"born\"" ∷ word k_not "NOT" ∷ word k_null "NULL" ∷ word stupid_mysql_date "NULL" ∷ [])

abbrev pub plain_column : Tree
plain_column =
    tree t_create_table_column_def ""
      (word id "\"name\"" ∷ word k_not "NOT" ∷ word k_null "NULL" ∷ [])

-- CREATE TABLE "t" ( "born" NOT NULL DEFAULT 0000-00-00 , KEY ("born") , FOREIGN KEY ) options
abbrev pub table : Tree
table = tree t_create_table "" (
    word 500 "CREATE"
    ∷ word id "\"t\""
    ∷ date_column
    ∷ word comma ","
    ∷ tree t_create_table_index "" (word id "\"born\"" ∷ [])
    ∷ word comma ","
    ∷ tree t_create_table_fkey "" (word 501 "FOREIGN" ∷ word 502 "KEY" ∷ [])
    ∷ word rparen ")"
    ∷ tree t_create_table_options "" (word 503 "ENGINE" ∷ [])
    ∷ [])

-- USE shop
abbrev pub use_shop : Tree
use_shop = tree t_use_database "" (word k_use "USE" ∷ word id "shop" ∷ [])

-- if(a, b, c)
abbrev pub if_call : Tree
if_call = tree t_function_if "" (word id "a" ∷ word id "b" ∷ word id "c" ∷ [])

-- @@`version_comment`
abbrev pub server_version : Tree
server_version = tree t_server_variable "" (word id "\"version_comment\"" ∷ [])

-- select a, with a blank in front of `a` and a comment on a line of its own behind it
abbrev pub select : Tree
select = tree 0 "" (at 600 "select" 1 0 ∷ at id "a" 1 7 ∷ [])

abbrev pub blank : Token
blank = record { hidden = true; line = pos 1; char_position = pos 6; text = " " }

abbrev pub remark : Token
remark = record { hidden = true; line = pos 2; char_position = pos 0; text = "-- c\n" }

abbrev pub visible : Token
visible = record { hidden = false; line = pos 1; char_position = pos 0; text = "select" }

-- A lexer and a parser that answer the sample; `broken` says which allocation fails.
abbrev pub frontend : Bool → Bool → Bool → Bool → Frontend Tree String
frontend lexer stream parser structure = record {
  lexer_new = λ i. lexer;
  tstream_new = λ i. stream;
  parser_new = λ i. parser;
  malloc_tree = λ i. structure;
  get_tokens = λ o i. visible ∷ blank ∷ remark ∷ [];
  start_rule = λ o i. some select;
  parser_errors = λ o i. 0;
  lexer_errors = λ o i. 0;
  string_copy_stream = λ s. s;
}

not-Occurs_of :
    (t : Tree) (kind : ℕ) (o : Option ℕ) → ok none ≡ ok o → IsAnswer kind t o → ¬ (Occurs kind t)
not-Occurs_of t kind none h (nowhere n) = n
not-Occurs_of t kind (some p) h answer = cc

-- A search that runs to none shows that no node of the type stands below a tree.
pub not_below : (t : Tree) (kind : ℕ) → look_ahead_down t 0 kind ≡ ok none → ¬ (Occurs kind t)
not_below t kind h =
    let (o, runs, answer) = look_ahead_down_lem t kind in
    not-Occurs_of t kind o (sym h ∙ runs) answer
