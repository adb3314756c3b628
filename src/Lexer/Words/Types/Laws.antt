-- ===== src/Lexer/Words/Types/Laws.antt =====
-- What the translated words become.
use Prim.Native.String.{◌++◌}
use pgify.Base.{ℕ, String, ◌≡◌, refl, Option, some, false}
use pgify.Lexer.{Lexed}
use pgify.Lexer.Words.{lex_replaced}
use pgify.Lexer.Words.Laws.{Spells, Replaces, lex_replaced-Spells, lex_replaced-Replaces}
use pgify.Lexer.Words.Types.{
  lex_k_datetime, lex_k_tinyint, lex_k_mediumint, lex_k_tinytext, lex_k_mediumtext, lex_k_longtext,
  lex_k_blob, lex_k_longblob, lex_k_mediumblob, lex_k_tinyblob, lex_k_distinctrow,
  lex_k_current_timestamp, lex_stupid_mysql_date, lex_stupid_mysql_timestamp,
}
use pgify.TokenTypes.{
  k_datetime, k_tinyint, k_mediumint, k_tinytext, k_mediumtext, k_longtext, k_blob, k_longblob,
  k_mediumblob, k_tinyblob, k_distinctrow, k_current_timestamp, stupid_mysql_date,
  stupid_mysql_timestamp,
}

-- The words of MySQL, with the words of PostgreSQL that they become, and the token type and the rule
-- of each.
pub data Translates : String → String → ℕ → (String → Option Lexed) → Type 0 where
  datetime : Translates "DATETIME" "TIMESTAMP " k_datetime lex_k_datetime
  tinyint : Translates "TINYINT" "SMALLINT" k_tinyint lex_k_tinyint
  mediumint : Translates "MEDIUMINT" "INTEGER" k_mediumint lex_k_mediumint
  tinytext : Translates "TINYTEXT" "TEXT" k_tinytext lex_k_tinytext
  mediumtext : Translates "MEDIUMTEXT" "TEXT" k_mediumtext lex_k_mediumtext
  longtext : Translates "LONGTEXT" "TEXT" k_longtext lex_k_longtext
  blob : Translates "BLOB" "TEXT" k_blob lex_k_blob
  longblob : Translates "LONGBLOB" "TEXT" k_longblob lex_k_longblob
  mediumblob : Translates "MEDIUMBLOB" "TEXT" k_mediumblob lex_k_mediumblob
  tinyblob : Translates "TINYBLOB" "TEXT" k_tinyblob lex_k_tinyblob
  distinctrow : Translates "DISTINCTROW" "DISTINCT" k_distinctrow lex_k_distinctrow
  current_timestamp :
      Translates "CURRENT_TIMESTAMP" "NOW ( )" k_current_timestamp lex_k_current_timestamp
  zero_date : Translates "'0000-00-00'" "NULL" stupid_mysql_date lex_stupid_mysql_date
  zero_timestamp :
      Translates "'0000-00-00 00:00:00'" "NULL" stupid_mysql_timestamp lex_stupid_mysql_timestamp

Translates-eq :
    {w p : String} {k : ℕ} {rule : String → Option Lexed}
    → Translates w p k rule
    → rule ≡ lex_replaced k w p
Translates-eq datetime = refl
Translates-eq tinyint = refl
Translates-eq mediumint = refl
Translates-eq tinytext = refl
Translates-eq mediumtext = refl
Translates-eq longtext = refl
Translates-eq blob = refl
Translates-eq longblob = refl
Translates-eq mediumblob = refl
Translates-eq tinyblob = refl
Translates-eq distinctrow = refl
Translates-eq current_timestamp = refl
Translates-eq zero_date = refl
Translates-eq zero_timestamp = refl

-- A rule that translates a word reads the word in any case, in front of any text; its token is
-- visible, has the type of the rule, and holds the word of PostgreSQL.
pub Translates-reads :
    {w p : String} {k : ℕ} {rule : String → Option Lexed}
    → Translates w p k rule
    → (x rest : String) → Spells w x
    → rule (x ++ rest) ≡ some (record { kind = k; hidden = false; text = p; rest = rest })
Translates-reads {w} {p} {k} t x rest h = rw (Translates-eq t) (lex_replaced-Spells k w p x rest h)

-- A rule that translates a word answers no token but the one that holds the word of PostgreSQL, and
-- only where the word stands, in any case, in front of the rest.
pub Translates-Replaces :
    {w p : String} {k : ℕ} {rule : String → Option Lexed}
    → Translates w p k rule
    → (s : String) (t : Lexed) → rule s ≡ some t
    → Replaces k w p s t
Translates-Replaces {w} {p} {k} tr s t h =
    lex_replaced-Replaces k w p s t (rw (Translates-eq tr) at h)
