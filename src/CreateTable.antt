-- ===== src/CreateTable.antt =====
-- `create_table_worker` of pgify.c: the nine passes over a CREATE TABLE statement, in its order.
pub mod Name
pub mod Options
pub mod State
pub mod Stops
pub mod Frame
pub mod Loops
pub mod Clear
pub mod Drop
pub mod Columns
pub mod Sound
pub mod Whole
pub mod Fulltext
pub mod Index
pub mod AutoInc
pub mod Fkey
pub mod Datatypes
pub mod Dates
pub mod Enum
pub mod OnUpdate
use pgify.Base.{◌≡◌}
use pgify.Antlr.{Antlr}
use pgify.Glib.{Glib}
use pgify.Walker.{WalkerState}
use pgify.Result.{Result, ok, ◌>>=◌}
use Options.{create_table_remove_table_options}
use Fulltext.{create_table_fulltext_index}
use Index.{create_table_index}
use AutoInc.{create_table_rewrite_auto_inc}
use Fkey.{create_table_rewrite_fkey}
use Datatypes.{create_rewrite_datatypes}
use Dates.{create_rewrite_stupid_date}
use Enum.{create_rewrite_enum}
use OnUpdate.{create_table_rewrite_onupdate}

module _ {T : Type 0} ⦃a : Antlr T⦄ ⦃g : Glib⦄ where
  unfoldable pub create_table_worker : WalkerState → T → Result (WalkerState × T)
  create_table_worker ws tree = do
    t₁ ← create_rewrite_enum tree
    t₂ ← create_rewrite_datatypes t₁
    (ws₃, t₃) ← create_table_rewrite_onupdate ws t₂
    t₄ ← create_rewrite_stupid_date t₃
    (ws₅, t₅) ← create_table_index ws₃ t₄
    (ws₆, t₆) ← create_table_rewrite_auto_inc ws₅ t₅
    t₇ ← create_table_fulltext_index t₆
    (ws₈, t₈) ← create_table_rewrite_fkey ws₆ t₇
    t₉ ← create_table_remove_table_options t₈
    ok (ws₈, t₉)
