-- ===== src/Lib.antt =====
-- pgify translates MySQL's dialect of SQL to that of PostgreSQL. A lexer and a parser that ANTLR
-- generates from mysql.g build a tree; `TreeWalkWorker` (pgify.c) walks it, children first, and
-- rewrites the nodes that differ between the dialects, in place; statements that have to follow
-- are collected in the walker's state (`postbuf`). `pgify_string_tree` prints the leaves of the
-- tree, with the hidden tokens (blanks and comments) that the lexer kept, and then the collected
-- statements. main.c decodes the switches, reads a file or standard input and prints the result.
--
-- Which file models what:
-- - Base, Result: names, lists and numbers that all share; how a call ends, a value or a fault.
--   Result/Outcomes says what holds of a call's value, if it ends or because it ends.
-- - Antlr, Glib: what the code uses of the ANTLR runtime and of GLib, as interfaces with laws.
--   Antlr/Concrete and Glib/Concrete are instances, on which the definitions run.
-- - TokenTypes: the token types of mysqlLexer.h that the code names.
-- - Walker: the walker's state and the option flags (pgify.h), `walkerstate_new`, `unquote`,
--   `get_lower_text`. Walker/Extends: how a call may change the state.
-- - LookAhead: `look_ahead_index` and `look_ahead_down`.
-- - Children: the loops over children that the CREATE TABLE functions share.
-- - CreateTable: `create_table_worker`, with one file for each function that it calls. Frame, Loops,
--   Clear, Drop, Columns, Sound and Whole are about all the passes together, State about the state
--   behind them, Stops about their loops.
-- - Statements: the handlers of the other statements.
-- - TreeWalk, Printer: `TreeWalkWorker`; `advance`, `TreeWalkPrinter` and `pgify_string_tree`.
--   Printer/Layout says where the tokens of a text stand, Printer/Source what is printed of them.
-- - Lexer: the rules of mysqlLexer.c for blanks, comments and quoted texts. Lexer/Words: the rules for
--   the words that are translated (Types), keywords, signs, names and digits. Lexer/Perl: texts in
--   brackets, as q'<…>' has them.
-- - Driver: `pgify` (here `pgify_tree`), `pgify_string`, `pgify_string_s`, with what they free.
--   Driver/Source is about text that needs no translation, Driver/State about the state left.
-- - Main: `main`, `decode_switches` and `read_stdin` of main.c.
-- - Tests: the samples, and the theorems at them.
--
-- How state is modelled: a node is a value, a pointer to a child aliases the child of its parent, and
-- a change made through it is written back by `set_child`. The walker's state is passed along. A
-- dereference of NULL and a read of a variable that was never set are faults. An `int` that is -1 for
-- "not found" is an Option.
--
-- Fuel: a loop that searches again after each change has the number of children and one more; each
-- round deletes a child or goes on behind the one it found. A recursion into the tree has the height
-- of the tree, since each call goes down to a child.
--
-- Not modelled: the rest of the generated lexer (NUMBER, QSTRING but for its texts in brackets, and the
-- tables that choose a rule), and the parser (parameters of Driver), `usage` and the debug output,
-- which only print, the release of memory within a handler, and the GNU copies getopt.c, getopt1.c,
-- xmalloc.c and system.h.
pub mod Base
pub mod Result
pub mod Antlr
pub mod TokenTypes
pub mod Glib
pub mod Walker
pub mod LookAhead
pub mod Children
pub mod CreateTable
pub mod Statements
pub mod TreeWalk
pub mod Printer
pub mod Lexer
pub mod Driver
pub mod Main
pub mod Tests
