-- ===== src/Lexer/Words/Types.antt =====
-- The rules that translate a word: most of them a data type of MySQL to one of PostgreSQL.
pub mod Laws
use pgify.Base.{String, Option}
use pgify.Lexer.{Lexed}
use pgify.Lexer.Words.{lex_replaced}
use pgify.TokenTypes.{
  k_datetime, k_distinctrow, k_tinyint, k_mediumint, k_tinytext, k_mediumtext, k_longtext, k_blob,
  k_longblob, k_mediumblob, k_tinyblob, k_current_timestamp, stupid_mysql_date,
  stupid_mysql_timestamp,
}

abbrev pub lex_k_datetime : String → Option Lexed
lex_k_datetime = lex_replaced k_datetime "DATETIME" "TIMESTAMP "

abbrev pub lex_k_distinctrow : String → Option Lexed
lex_k_distinctrow = lex_replaced k_distinctrow "DISTINCTROW" "DISTINCT"

abbrev pub lex_k_tinyint : String → Option Lexed
lex_k_tinyint = lex_replaced k_tinyint "TINYINT" "SMALLINT"

abbrev pub lex_k_mediumint : String → Option Lexed
lex_k_mediumint = lex_replaced k_mediumint "MEDIUMINT" "INTEGER"

abbrev pub lex_k_tinytext : String → Option Lexed
lex_k_tinytext = lex_replaced k_tinytext "TINYTEXT" "TEXT"

abbrev pub lex_k_mediumtext : String → Option Lexed
lex_k_mediumtext = lex_replaced k_mediumtext "MEDIUMTEXT" "TEXT"

abbrev pub lex_k_longtext : String → Option Lexed
lex_k_longtext = lex_replaced k_longtext "LONGTEXT" "TEXT"

abbrev pub lex_k_blob : String → Option Lexed
lex_k_blob = lex_replaced k_blob "BLOB" "TEXT"

abbrev pub lex_k_longblob : String → Option Lexed
lex_k_longblob = lex_replaced k_longblob "LONGBLOB" "TEXT"

abbrev pub lex_k_mediumblob : String → Option Lexed
lex_k_mediumblob = lex_replaced k_mediumblob "MEDIUMBLOB" "TEXT"

abbrev pub lex_k_tinyblob : String → Option Lexed
lex_k_tinyblob = lex_replaced k_tinyblob "TINYBLOB" "TEXT"

abbrev pub lex_k_current_timestamp : String → Option Lexed
lex_k_current_timestamp = lex_replaced k_current_timestamp "CURRENT_TIMESTAMP" "NOW ( )"

abbrev pub lex_stupid_mysql_date : String → Option Lexed
lex_stupid_mysql_date = lex_replaced stupid_mysql_date "'0000-00-00'" "NULL"

abbrev pub lex_stupid_mysql_timestamp : String → Option Lexed
lex_stupid_mysql_timestamp = lex_replaced stupid_mysql_timestamp "'0000-00-00 00:00:00'" "NULL"
