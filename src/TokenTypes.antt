-- ===== src/TokenTypes.antt =====
-- The token types of mysqlLexer.h that pgify.c names, and those of the lexer's rules in Lexer.
use pgify.Base.{ℕ}

abbrev pub t_use_database : ℕ
t_use_database = 4

abbrev pub t_create_table : ℕ
t_create_table = 6

abbrev pub t_create_table_index : ℕ
t_create_table_index = 7

abbrev pub t_create_table_options : ℕ
t_create_table_options = 8

abbrev pub t_create_table_fkey : ℕ
t_create_table_fkey = 9

abbrev pub t_create_table_enum : ℕ
t_create_table_enum = 10

abbrev pub t_create_table_fulltext_index : ℕ
t_create_table_fulltext_index = 11

abbrev pub t_create_table_onupdate : ℕ
t_create_table_onupdate = 12

abbrev pub t_create_table_column_def : ℕ
t_create_table_column_def = 14

abbrev pub t_server_variable : ℕ
t_server_variable = 15

abbrev pub t_lock_table : ℕ
t_lock_table = 16

abbrev pub t_show_like : ℕ
t_show_like = 18

abbrev pub t_show_from : ℕ
t_show_from = 19

abbrev pub t_show_columns : ℕ
t_show_columns = 20

abbrev pub t_show_tables : ℕ
t_show_tables = 21

abbrev pub t_function_if : ℕ
t_function_if = 26

abbrev pub k_tables : ℕ
k_tables = 31

abbrev pub k_use : ℕ
k_use = 39

abbrev pub k_show : ℕ
k_show = 40

abbrev pub k_full : ℕ
k_full = 41

abbrev pub k_set : ℕ
k_set = 49

abbrev pub id : ℕ
id = 51

abbrev pub k_not : ℕ
k_not = 56

abbrev pub rparen : ℕ
rparen = 59

abbrev pub k_null : ℕ
k_null = 60

abbrev pub k_auto_increment : ℕ
k_auto_increment = 61

abbrev pub k_on : ℕ
k_on = 71

abbrev pub k_update : ℕ
k_update = 72

abbrev pub number : ℕ
number = 74

abbrev pub k_asc : ℕ
k_asc = 75

abbrev pub k_desc : ℕ
k_desc = 76

abbrev pub k_using : ℕ
k_using = 84

abbrev pub eq : ℕ
eq = 95

abbrev pub comma : ℕ
comma = 96

abbrev pub stupid_mysql_date : ℕ
stupid_mysql_date = 142

abbrev pub stupid_mysql_timestamp : ℕ
stupid_mysql_timestamp = 143

abbrev pub k_found_rows : ℕ
k_found_rows = 146

abbrev pub k_double : ℕ
k_double = 182

abbrev pub k_precision : ℕ
k_precision = 183

abbrev pub k_enum : ℕ
k_enum = 208

abbrev pub ws : ℕ
ws = 561

abbrev pub sl_comment : ℕ
sl_comment = 562

abbrev pub mysql_comment : ℕ
mysql_comment = 563

abbrev pub ml_comment : ℕ
ml_comment = 564

abbrev pub quoted_string : ℕ
quoted_string = 66

abbrev pub semi : ℕ
semi = 30

abbrev pub colon : ℕ
colon = 550

abbrev pub exponent : ℕ
exponent = 141

abbrev pub asterisk : ℕ
asterisk = 133

abbrev pub at_sign : ℕ
at_sign = 104

abbrev pub lparen : ℕ
lparen = 58

abbrev pub rbrack : ℕ
rbrack = 308

abbrev pub lbrack : ℕ
lbrack = 307

abbrev pub plus : ℕ
plus = 135

abbrev pub minus : ℕ
minus = 136

abbrev pub divide : ℕ
divide = 138

abbrev pub percentage : ℕ
percentage = 553

abbrev pub llabel : ℕ
llabel = 554

abbrev pub rlabel : ℕ
rlabel = 555

abbrev pub assign : ℕ
assign = 556

abbrev pub arrow : ℕ
arrow = 557

abbrev pub vertbar : ℕ
vertbar = 558

abbrev pub doublevertbar : ℕ
doublevertbar = 137

abbrev pub lth : ℕ
lth = 272

abbrev pub leq : ℕ
leq = 273

abbrev pub gth : ℕ
gth = 270

abbrev pub geq : ℕ
geq = 271

abbrev pub quote : ℕ
quote = 548

abbrev pub backtick : ℕ
backtick = 560

abbrev pub k_datetime : ℕ
k_datetime = 176

abbrev pub k_distinctrow : ℕ
k_distinctrow = 113

abbrev pub k_tinyint : ℕ
k_tinyint = 212

abbrev pub k_mediumint : ℕ
k_mediumint = 211

abbrev pub k_tinytext : ℕ
k_tinytext = 185

abbrev pub k_mediumtext : ℕ
k_mediumtext = 186

abbrev pub k_longtext : ℕ
k_longtext = 187

abbrev pub k_blob : ℕ
k_blob = 202

abbrev pub k_longblob : ℕ
k_longblob = 201

abbrev pub k_mediumblob : ℕ
k_mediumblob = 200

abbrev pub k_tinyblob : ℕ
k_tinyblob = 199

abbrev pub k_current_timestamp : ℕ
k_current_timestamp = 541

abbrev pub dot : ℕ
dot = 33

abbrev pub doubledot : ℕ
doubledot = 552

abbrev pub not_eq : ℕ
not_eq = 269
