-- ===== src/Main.antt =====
-- main.c: the switches, the reading of standard input, and `main`.
pub mod Switches
pub mod ReadStdin
pub mod Laws
use pgify.Base.{
  ℕ, String, Bool, true, false, Option, none, some, List, [], ltb, length, if◌then◌else◌,
}
use pgify.Antlr.{Antlr}
use pgify.Driver.Services.{Frontend}
use pgify.Driver.{pgify_string, Outcome}
use pgify.Glib.{Glib}
use pgify.Result.{Result, ok, ◌>>=◌}
use pgify.Walker.{WalkerState, walkerstate_new}
use ReadStdin.{read_stdin}
use Switches.{Decoded, go_on, exits, decode_switches}

-- How the program ends: its status, and the SQL text that it prints.
pub record Exit : Type 0 where
  pub status : ℕ
  pub printed : Option String

-- What the program finds around it: the files that can be opened, the bytes on standard input,
-- whether reading them fails, and whether the walker's state can be allocated.
pub record Environment (Input : Type 0) : Type 0 where
  pub open_file : Option String → Option Input
  pub string_stream : List ℕ → Input
  pub stdin_bytes : List ℕ
  pub stdin_error : Bool
  pub walkerstate_malloc : Bool

module _ {T Input : Type 0} ⦃a : Antlr T⦄ ⦃g : Glib⦄ (f : Frontend T Input)
    (env : Environment Input) where
  convert : ℕ → ℕ → Input → Result Exit
  convert uninit pgoptions input = elim (walkerstate_new env.walkerstate_malloc pgoptions) [
    | none ↦ ok (record { status = 1; printed = none })
    | some ws ↦ do
      o ← pgify_string f uninit input ws
      ok (record { status = 0; printed = o.result })
  ]

  -- No file could be opened: standard input is read, and an empty one is no error.
  from_stdin : ℕ → ℕ → Result Exit
  unfolding convert
  from_stdin uninit pgoptions =
      let sql = read_stdin env.stdin_bytes in
      let converted = convert uninit pgoptions (env.string_stream sql) in
      if env.stdin_error
      then ok (record { status = 1; printed = none })
      else if ltb (length sql) 1
      then ok (record { status = 0; printed = none })
      else converted

  run_main : ℕ → Decoded → Result Exit
  unfolding from_stdin
  run_main uninit (exits status) = ok (record { status = status; printed = none })
  run_main uninit (go_on pgoptions file_name) = elim (env.open_file file_name) [
    | none ↦ from_stdin uninit pgoptions
    | some input ↦ convert uninit pgoptions input
  ]

  unfoldable pub main : ℕ → List (ℕ × String) → Result Exit
  unfolding run_main
  main uninit switches = run_main uninit (decode_switches switches)
