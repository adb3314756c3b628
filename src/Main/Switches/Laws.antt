-- ===== src/Main/Switches/Laws.antt =====
-- The three flags of the options word are read back by the macros of pgify.h as the switches said.
use pgify.Base.{
  ℕ, String, Bool, true, false, not, ◌||◌, Option, some, List, [], ◌∷◌, ◌==◌, if◌then◌else◌, ◌≡◌,
  refl, arith,
}
use pgify.Walker.{is_debug, is_escape, is_lowerid}
use pgify.Main.Switches.{
  go_on, Switches, option_word, decode_loop, decode_switches, default_switches,
}

-- Some switch of the command line has the code.
abbrev pub given : ℕ → List (ℕ × String) → Bool
given code [] = false
given code ((c, optarg) ∷ rest) = c == code || given code rest

flags_back :
    (d e l : Bool) (f : Option String)
    → let w = option_word (record { debug = d; escape = e; lowercase = l; file_name = f }) in
      (is_debug w ≡ d) × (is_escape w ≡ e) × (is_lowerid w ≡ l)
unfolding option_word is_debug is_escape is_lowerid
flags_back true true true f = (refl, refl, refl)
flags_back true true false f = (refl, refl, refl)
flags_back true false true f = (refl, refl, refl)
flags_back true false false f = (refl, refl, refl)
flags_back false true true f = (refl, refl, refl)
flags_back false true false f = (refl, refl, refl)
flags_back false false true f = (refl, refl, refl)
flags_back false false false f = (refl, refl, refl)

-- What the loop makes of the switches from a state on.
record Reads (s : Switches) (switches : List (ℕ × String)) (w : ℕ) : Type 0 where
  debug_flag : is_debug w ≡ (s.debug || given b'd' switches)
  escape_flag : is_escape w ≡ (if given b'e' switches then false else s.escape)
  lowerid_flag : is_lowerid w ≡ (if given b'c' switches then false else s.lowercase)

decode_loop-Reads :
    (switches : List (ℕ × String)) (s : Switches) (w : ℕ) (f : Option String)
    → decode_loop s switches ≡ go_on w f
    → Reads s switches w
unfolding decode_loop
decode_loop-Reads [] s w f h = ground (arith, flags_back s.debug s.escape s.lowercase s.file_name)
decode_loop-Reads ((c, optarg) ∷ rest) s w f h = ground (
  arith,
  decode_loop-Reads rest (record s { file_name = some optarg }) w f,
  decode_loop-Reads rest (record s { debug = true }) w f,
  decode_loop-Reads rest (record s { escape = false }) w f,
  decode_loop-Reads rest (record s { lowercase = false }) w f,
)

-- If the switches lead on to a run, the debug flag of the options is set exactly if `d` is among
-- them, the escape flag exactly if `e` is not, and the lower-case flag exactly if `c` is not.
pub decode_switches_flags :
    (switches : List (ℕ × String)) (w : ℕ) (f : Option String)
    → decode_switches switches ≡ go_on w f
    → (is_debug w ≡ given b'd' switches)
      × (is_escape w ≡ not (given b'e' switches))
      × (is_lowerid w ≡ not (given b'c' switches))
unfolding decode_switches
decode_switches_flags switches w f h =
    let r = decode_loop-Reads switches default_switches w f h in
    ground (arith, r.debug_flag, r.escape_flag, r.lowerid_flag)
