-- ===== src/Names/Text.antt =====
-- The string functions of Go's library that the name handling calls, on strings as bytes. What
-- depends on Unicode tables, IDNA and the parsing of IP addresses is a parameter.
use certspotter.Prelude.{
  ℕ, Bool, false, ◌||◌, List, [], ◌∷◌, ◌++◌, reverse, Bytes, ◌==◌, if◌then◌else◌, Option, none,
  some,
}

pub record Library : Type 0 where
  -- strings.ToLower, strings.TrimSpace, strings.Fields
  pub to_lower : Bytes → Bytes
  pub trim_space : Bytes → Bytes
  pub fields : Bytes → List Bytes
  -- idna.ToASCII and net.ParseIP, with nothing for an error; net.IP.Equal; utf8.Valid
  pub to_ascii : Bytes → Option Bytes
  pub parse_ip : Bytes → Option Bytes
  pub ip_equal : Bytes → Bytes → Bool
  pub valid_utf8 : Bytes → Bool

-- `strings.Split(s, ".")` and `strings.Join(labels, ".")`
abbrev pub cons_first : ℕ → List Bytes → List Bytes
cons_first c [] = (c ∷ []) ∷ []
cons_first c (label ∷ labels) = (c ∷ label) ∷ labels

unfoldable pub split_dots : Bytes → List Bytes
split_dots [] = [] ∷ []
split_dots (c ∷ s) =
    let labels = split_dots s in if c == b'.' then [] ∷ labels else cons_first c labels

unfoldable pub join_dots : List Bytes → Bytes
join_dots [] = []
join_dots (label ∷ []) = label
join_dots (label ∷ next ∷ labels) = label ++ (b'.' ∷ join_dots (next ∷ labels))

-- The part of a string after a prefix, if it has that prefix.
unfoldable pub strip_prefix : Bytes → Bytes → Option Bytes
strip_prefix [] s = some s
strip_prefix (p ∷ ps) [] = none
strip_prefix (p ∷ ps) (c ∷ s) = let rest = strip_prefix ps s in if p == c then rest else none

-- The part of a string before the first `c`, if `c` is in it.
unfoldable pub before_byte : ℕ → Bytes → Option Bytes
before_byte c [] = none
before_byte c (b ∷ s) =
    let rest = before_byte c s in
    if b == c then some [] else elim rest [ none ↦ none | some front ↦ some (b ∷ front) ]

unfoldable pub contains_byte : ℕ → Bytes → Bool
contains_byte c [] = false
contains_byte c (b ∷ s) = (b == c) || contains_byte c s

-- `strings.TrimRight(s, ".")` and `trimTrailingDots`: the dots at the front of the reversed string go
unfoldable pub drop_dots : Bytes → Bytes
drop_dots [] = []
drop_dots (c ∷ s) = let rest = drop_dots s in if c == b'.' then rest else c ∷ s

unfoldable pub trim_trailing_dots : Bytes → Bytes
unfolding drop_dots
trim_trailing_dots value = reverse (drop_dots (reverse value))
