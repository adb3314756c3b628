-- ===== src/Glib/Concrete.antt =====
-- Functions that meet the laws of the GLib interface, for runs on inputs. They agree with GLib on
-- texts without capital letters.
use text.Mathlib.Text.{◌==◌ as text_eq}
use text.Mathlib.TextPositions.{eq_refl}
use pgify.Base.{refl}
use pgify.Glib.{Glib, without_quotes}

instance abbrev pub lower_case : Glib
lower_case = record {
  regex_replace_literal = λ pattern s replacement. without_quotes s;
  utf8_strdown = λ s. s;
  ascii_strcasecmp_zero = λ s t. text_eq s t;
  regex_replace_quotes = λ s. refl;
  ascii_strcasecmp_refl = eq_refl;
}
