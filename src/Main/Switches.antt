-- ===== src/Main/Switches.antt =====
-- `decode_switches` of main.c. The codes and arguments that `getopt_long` answers are its input.
pub mod Laws
use Prim.Native.Nat.{bit_or}
use pgify.Base.{
  ℕ, String, Bool, true, false, Option, none, some, List, [], ◌∷◌, ◌==◌, if◌then◌else◌,
}
use pgify.Walker.{pgify_debug, pgify_escape, pgify_lowerid}

-- The options word and the file name, or an exit with a status.
pub data Decoded : Type 0 where
  go_on : ℕ → Option String → Decoded
  exits : ℕ → Decoded

-- The local variables, and `fName`.
pub record Switches : Type 0 where
  pub debug : Bool
  pub escape : Bool
  pub lowercase : Bool
  pub file_name : Option String

abbrev pub default_switches : Switches
default_switches = record { debug = false; escape = true; lowercase = true; file_name = none }

-- The three conditional `|=` behind the loop.
unfoldable pub option_word : Switches → ℕ
option_word s =
    let debugged = if s.debug then bit_or 0 pgify_debug else 0 in
    let escaped = if s.escape then bit_or debugged pgify_escape else debugged in
    if s.lowercase then bit_or escaped pgify_lowerid else escaped

unfoldable pub decode_loop : Switches → List (ℕ × String) → Decoded
unfolding option_word
decode_loop s [] = go_on (option_word s) s.file_name
decode_loop s ((c, optarg) ∷ rest) =
    let with_file = decode_loop (record s { file_name = some optarg }) rest in
    let with_debug = decode_loop (record s { debug = true }) rest in
    let without_escape = decode_loop (record s { escape = false }) rest in
    let without_lowercase = decode_loop (record s { lowercase = false }) rest in
    if c == b'V'
    then exits 0
    else if c == b'h'
    then exits 0
    else if c == b'f'
    then with_file
    else if c == b'd'
    then with_debug
    else if c == b'e'
    then without_escape
    else if c == b'c'
    then without_lowercase
    else exits 1

unfoldable pub decode_switches : List (ℕ × String) → Decoded
unfolding decode_loop
decode_switches = decode_loop default_switches
