-- ===== src/Main/Laws.antt =====
-- The program as a whole: standard input to the printed text.
use pgify.Base.{
  ℕ, ◌≡◌, ◌≢◌, refl, true, false, String, pos, none, List, [], ◌∷◌, ltb, length, arith,
}
use pgify.Antlr.{Antlr}
use pgify.Driver.{Outcome, pgify_string}
use pgify.Driver.Services.{Frontend}
use pgify.Glib.{Glib}
use pgify.Main.{Environment, main, convert}
use pgify.Main.ReadStdin.Laws.{HasNoNul, read_stdin_lem}
use pgify.Main.Switches.{decode_switches}
use pgify.Result.{ok}
use pgify.Walker.{WalkerState, walkerstate_new}

-- The state of a run without switches: escapes and lower case are on.
abbrev pub fresh : WalkerState
fresh = record { schema_name = ""; postbuf = ""; options = 6; found_rows = pos 1 }

nonempty : (bytes : List ℕ) → bytes ≢ [] → ltb (length bytes) 1 ≡ false
nonempty [] h = absurd (h refl)
nonempty (b ∷ bytes) h = ground arith

module _ {T Input : Type 0} ⦃a : Antlr T⦄ ⦃g : Glib⦄ (f : Frontend T Input)
    (env : Environment Input) (uninit : ℕ) (closed : env.open_file none ≡ none)
    (readable : env.stdin_error ≡ false) (text : HasNoNul env.stdin_bytes) where
  -- Without switches and without a file to open, if standard input can be read, holds SQL text with
  -- no NUL byte, the walker's state can be allocated, and `pgify_string` ends on exactly that text
  -- with both flags on: the program prints what it answers, and exits with 0.
  pub main-stdin :
      env.stdin_bytes ≢ []
      → env.walkerstate_malloc ≡ true
      → (o : Outcome String)
      → pgify_string f uninit (env.string_stream env.stdin_bytes) fresh ≡ ok o
      → main f env uninit [] ≡ ok (record { status = 0; printed = o.result })
  unfolding main decode_switches convert walkerstate_new
  main-stdin some_bytes allocated o runs = rw (
    closed,
    readable,
    read_stdin_lem env.stdin_bytes text,
    nonempty env.stdin_bytes some_bytes,
    allocated,
    runs,
  )

  -- Without switches and without a file to open, nothing on standard input is no error: nothing is
  -- printed, and the status is 0.
  pub main-empty :
      env.stdin_bytes ≡ [] → main f env uninit [] ≡ ok (record { status = 0; printed = none })
  unfolding main decode_switches
  main-empty empty = rw (closed, readable, read_stdin_lem env.stdin_bytes text, empty) refl
