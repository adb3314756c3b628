-- ===== src/Walker.antt =====
-- `struct walker_state_struct` of pgify.h with its constructor, the option flags, and the small
-- text helpers of pgify.c.
pub mod Extends
use Prim.Native.Nat.{bit_and}
use Prim.Native.String.{◌++◌}
use pgify.Base.{ℕ, Bool, not, String, ℤ, pos, Option, none, some, ◌==◌}
use pgify.Antlr.{Antlr, get_text}
use pgify.Glib.{Glib}
use pgify.Result.{Result, ok, deref, ◌>>=◌}

-- The parser `psr` is only carried for its owner, so it is left out.
pub record WalkerState : Type 0 where
  pub schema_name : String
  pub postbuf : String
  pub options : ℕ
  pub found_rows : ℤ

-- The allocation succeeds or `malloc` returns NULL.
unfoldable pub walkerstate_new : Bool → ℕ → Option WalkerState
walkerstate_new Bool.true pgoptions =
    some (record { schema_name = ""; postbuf = ""; options = pgoptions; found_rows = pos 1 })
walkerstate_new Bool.false pgoptions = none

abbrev pub pgify_debug : ℕ
pgify_debug = 1

abbrev pub pgify_escape : ℕ
pgify_escape = 2

abbrev pub pgify_lowerid : ℕ
pgify_lowerid = 4

-- The macros read an option word as a condition.
abbrev flag_set : ℕ → ℕ → Bool
flag_set options flag = not (bit_and options flag == 0)

unfoldable pub is_debug : ℕ → Bool
is_debug options = flag_set options pgify_debug

unfoldable pub is_escape : ℕ → Bool
is_escape options = flag_set options pgify_escape

unfoldable pub is_lowerid : ℕ → Bool
is_lowerid options = flag_set options pgify_lowerid

-- `g_string_append` on `ws->postbuf`.
abbrev pub append_postbuf : WalkerState → String → WalkerState
append_postbuf ws s = record ws { postbuf = ws.postbuf ++ s }

module _ ⦃g : Glib⦄ where
  -- The call of `strlen` dereferences the text, so NULL is a fault.
  unfoldable pub unquote : Option String → Result String
  unquote string = do s ← deref string; ok (g.regex_replace_literal "[\"']" s "")

  module _ {T : Type 0} ⦃a : Antlr T⦄ where
    unfoldable pub get_lower_text : T → String
    get_lower_text tree = g.utf8_strdown (get_text tree)
