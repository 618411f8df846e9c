-- ===== src/X509/Strings.antt =====
-- asn1.go. A Go string of runes is their UTF-8: a rune that is a surrogate or no code point at all
-- becomes U+FFFD.
use certspotter.Prelude.{
  ℕ, ◌+◌, ◌*◌, ◌/◌, ◌%◌, Bool, not, ◌&&◌, ◌||◌, [], ◌∷◌, ◌++◌, Bytes, Result, ok, err, ◌==◌, ltb,
  leb, if◌then◌else◌,
}
use certspotter.Names.Text.{Library}
use certspotter.Names.Identifiers.{latin1_to_utf8}
use certspotter.X509.Types.{RawValue, X509Error, malformed_utf8_string, not_a_string}

unfoldable pub utf8_of_rune : ℕ → Bytes
utf8_of_rune r =
    if ltb r 128
    then r ∷ []
    else if ltb r 2048
    then (192 + r / 64) ∷ (128 + r % 64) ∷ []
    else if (leb 55296 r && leb r 57343) || ltb 1114111 r
    then 239 ∷ 191 ∷ 189 ∷ []
    else if ltb r 65536
    then (224 + r / 4096) ∷ (128 + r / 64 % 64) ∷ (128 + r % 64) ∷ []
    else (240 + r / 262144) ∷ (128 + r / 4096 % 64) ∷ (128 + r / 64 % 64) ∷ (128 + r % 64) ∷ []

-- The big-endian numbers of two, or four, bytes; bytes that do not make up a number are left.
unfoldable pub string_from_uint16_slice : Bytes → Bytes
string_from_uint16_slice (a ∷ b ∷ rest) =
    utf8_of_rune (a * 256 + b) ++ string_from_uint16_slice rest
string_from_uint16_slice (a ∷ []) = []
string_from_uint16_slice [] = []

unfoldable pub string_from_uint32_slice : Bytes → Bytes
string_from_uint32_slice (a ∷ b ∷ c ∷ d ∷ rest) =
    utf8_of_rune (((a * 256 + b) * 256 + c) * 256 + d) ++ string_from_uint32_slice rest
string_from_uint32_slice (a ∷ b ∷ c ∷ []) = []
string_from_uint32_slice (a ∷ b ∷ []) = []
string_from_uint32_slice (a ∷ []) = []
string_from_uint32_slice [] = []

-- TeletexString, PrintableString, IA5String, VisibleString
abbrev pub is_byte_string_tag : ℕ → Bool
is_byte_string_tag tag = (tag == 19) || (tag == 22) || (tag == 20) || (tag == 26)

module _ (lib : Library) where
  abbrev pub decode_by_tag : ℕ → Bytes → Result X509Error Bytes
  decode_by_tag tag bytes =
      if tag == 12
      then (if not (lib.valid_utf8 bytes) then err malformed_utf8_string else ok bytes)
      else if is_byte_string_tag tag
      then ok (latin1_to_utf8 bytes)
      else if tag == 30
      then ok (string_from_uint16_slice bytes)
      else if tag == 28
      then ok (string_from_uint32_slice bytes)
      else err not_a_string

  unfoldable pub decode_asn1_string : RawValue → Result X509Error Bytes
  decode_asn1_string value =
      if not value.is_compound && (value.class == 0)
      then decode_by_tag value.tag value.bytes
      else err not_a_string
