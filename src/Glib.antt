-- ===== src/Glib.antt =====
-- The functions of GLib that pgify.c calls on texts and that it does not implement. They are a
-- parameter, with the documented behaviour that the code relies on. Appending to a GString and
-- formatting with `%s` are written as concatenation.
pub mod Concrete
use Prim.Native.Char.{Char, code}
use Prim.Native.String.{[], ◌∷◌}
use pgify.Base.{ℕ, ◌≡◌, Bool, true, false, ◌||◌, String, ◌==◌, if◌then◌else◌}

-- A text without the two quotes that the pattern of `unquote` matches.
abbrev pub without_quotes : String → String
without_quotes [] = []
without_quotes (c ∷ s) =
    if code c == b'"' || code c == b'\'' then without_quotes s else c ∷ without_quotes s

pub record Glib : Type 0 where
  -- pattern, subject and replacement, with no flags
  pub regex_replace_literal : String → String → String → String
  pub utf8_strdown : String → String
  -- whether `g_ascii_strcasecmp` returns 0
  pub ascii_strcasecmp_zero : String → String → Bool
  pub regex_replace_quotes : (s : String) → regex_replace_literal "[\"']" s "" ≡ without_quotes s
  pub ascii_strcasecmp_refl : (s : String) → ascii_strcasecmp_zero s s ≡ true
