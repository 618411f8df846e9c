-- ===== src/Names/Sample.antt =====
-- A concrete instance of what the names rest on, for examples: it lowers nothing, trims nothing and
-- knows no IP address.
use certspotter.Prelude.{true, [], ◌∷◌, Bytes, bytes_equal, none, some}
use certspotter.Names.Text.{Library}

abbrev pub simple : Library
simple = record {
  to_lower = λ s. s;
  trim_space = λ s. s;
  fields = λ s. s ∷ [];
  to_ascii = λ s. some s;
  parse_ip = λ s. none;
  ip_equal = bytes_equal;
  valid_utf8 = λ s. true;
}

abbrev pub top_label : Bytes
top_label = b'c' ∷ b'o' ∷ b'm' ∷ []

-- "a.top_label"
abbrev pub a_com : Bytes
a_com = b'a' ∷ b'.' ∷ top_label
