-- ===== src/Names/Identifiers.antt =====
-- identifiers.go: the DNS names and IP addresses of a certificate. Strings are bytes; ranging over
-- the runes of a label and testing each is testing each byte, since a rune from 128 on, or a byte
-- that is no UTF-8, fails the test and so does a byte from 128 on.
use certspotter.Prelude.{
  ℕ, ◌+◌, ◌/◌, ◌%◌, Bool, true, false, not, ◌&&◌, ◌||◌, List, [], ◌∷◌, ◌++◌, map, Bytes,
  bytes_equal, ◌==◌, ltb, leb, if◌then◌else◌, Option, none, some,
}
use certspotter.Names.Text.{
  Library, split_dots, join_dots, strip_prefix, before_byte, contains_byte, trim_trailing_dots,
}
use certspotter.Names.Watchlist.{unparsable_dns_label_placeholder}

pub record Identifiers : Type 0 where
  pub dns_names : List Bytes
  pub ip_addrs : List Bytes

abbrev pub new_identifiers : Identifiers
new_identifiers = record { dns_names = []; ip_addrs = [] }

unfoldable pub is_ascii_string : Bytes → Bool
is_ascii_string [] = true
is_ascii_string (b ∷ value) = let rest = is_ascii_string value in if ltb 127 b then false else rest

-- The UTF-8 form of the rune with the number of each byte
unfoldable pub latin1_to_utf8 : Bytes → Bytes
latin1_to_utf8 [] = []
latin1_to_utf8 (b ∷ value) =
    (if ltb b 128 then b ∷ [] else (192 + b / 64) ∷ (128 + b % 64) ∷ []) ++ latin1_to_utf8 value

unfoldable pub is_sane_dns_label_char : ℕ → Bool
is_sane_dns_label_char ch = (ch == 9) || (leb 32 ch && leb ch 126)

unfoldable pub is_sane_dns_label : Bytes → Bool
is_sane_dns_label [] = true
is_sane_dns_label (ch ∷ label) =
    let rest = is_sane_dns_label label in if not (is_sane_dns_label_char ch) then false else rest

-- "http://" and "https://"
abbrev pub http_prefix : Bytes
http_prefix = b'h' ∷ b't' ∷ b't' ∷ b'p' ∷ b':' ∷ b'/' ∷ b'/' ∷ []

abbrev pub https_prefix : Bytes
https_prefix = b'h' ∷ b't' ∷ b't' ∷ b'p' ∷ b's' ∷ b':' ∷ b'/' ∷ b'/' ∷ []

abbrev first_of_or : Option Bytes → Option Bytes → Bytes → Bytes
first_of_or (some rest) other value = rest
first_of_or none (some rest) value = rest
first_of_or none none value = value

-- `trimHttpPrefixString` and `trimHttpPrefixBytes`
unfoldable pub trim_http_prefix : Bytes → Bytes
trim_http_prefix value =
    first_of_or (strip_prefix http_prefix value) (strip_prefix https_prefix value) value

unfoldable pub sane_or_placeholder : Bytes → Bytes
sane_or_placeholder label =
    if not (is_sane_dns_label label) then unparsable_dns_label_placeholder else label

unfoldable pub has_dns_name : List Bytes → Bytes → Bool
has_dns_name [] target = false
has_dns_name (value ∷ names) target =
    let rest = has_dns_name names target in if bytes_equal value target then true else rest

-- `dnsName != "" && !ids.hasDNSName(dnsName)`
unfoldable pub append_dns_name : Identifiers → Bytes → Identifiers
append_dns_name ids dns_name =
    if not (bytes_equal dns_name []) && not (has_dns_name ids.dns_names dns_name)
    then record ids { dns_names = ids.dns_names ++ (dns_name ∷ []) }
    else ids

module _ (lib : Library) where
  unfoldable pub trimmed_labels : Bytes → List Bytes
  trimmed_labels value = split_dots (lib.to_lower (trim_trailing_dots (lib.trim_space value)))

  unfoldable pub sanitize_dns_name : Bytes → Bytes
  sanitize_dns_name value = join_dots (map sane_or_placeholder (trimmed_labels value))

  abbrev pub ascii_or_placeholder : Option Bytes → Bytes
  ascii_or_placeholder none = unparsable_dns_label_placeholder
  ascii_or_placeholder (some ascii_label) =
      if is_sane_dns_label ascii_label then ascii_label else unparsable_dns_label_placeholder

  unfoldable pub sanitize_unicode_dns_name : Bytes → Bytes
  sanitize_unicode_dns_name value =
      join_dots (map (λ label. ascii_or_placeholder (lib.to_ascii label)) (trimmed_labels value))

  unfoldable pub has_ip_address : List Bytes → Bytes → Bool
  has_ip_address [] target = false
  has_ip_address (value ∷ addrs) target =
      let rest = has_ip_address addrs target in if lib.ip_equal value target then true else rest

  unfoldable pub append_ip_address : Identifiers → Bytes → Identifiers
  append_ip_address ids ipaddr =
      if not (has_ip_address ids.ip_addrs ipaddr)
      then record ids { ip_addrs = ids.ip_addrs ++ (ipaddr ∷ []) }
      else ids

  abbrev pub add_dns_name_value : Identifiers → Bytes → Identifiers
  add_dns_name_value ids value =
      if is_ascii_string value
      then append_dns_name ids (sanitize_dns_name value)
      else append_dns_name
          (if lib.valid_utf8 value
            then append_dns_name ids (sanitize_unicode_dns_name value)
            else ids)
          (sanitize_unicode_dns_name (latin1_to_utf8 value))

  abbrev pub add_ip_or : Identifiers → Option Bytes → Identifiers → Identifiers
  add_ip_or ids (some ipaddr) otherwise = append_ip_address ids ipaddr
  add_ip_or ids none otherwise = otherwise

  unfoldable pub add_dns_san_final : Identifiers → Bytes → Identifiers
  add_dns_san_final ids value = add_ip_or ids (lib.parse_ip value) (add_dns_name_value ids value)

  -- The part before the first slash, or null byte, is added before the whole value.
  abbrev pub add_front :
      (Identifiers → Bytes → Identifiers) → Identifiers → Option Bytes → Identifiers
  add_front add ids none = ids
  add_front add ids (some front) = add ids front

  unfoldable pub add_dns_san_nonnull : Identifiers → Bytes → Identifiers
  add_dns_san_nonnull ids value =
      add_dns_san_final (add_front add_dns_san_final ids (before_byte b'/' value)) value

  unfoldable pub add_dns_san : Identifiers → Bytes → Identifiers
  add_dns_san ids value =
      let trimmed = trim_http_prefix value in
      add_dns_san_nonnull (add_front add_dns_san_nonnull ids (before_byte 0 trimmed)) trimmed

  abbrev pub add_cn_value : Identifiers → Bytes → Identifiers
  add_cn_value ids value =
      if not (contains_byte b' ' value)
      then append_dns_name ids (sanitize_unicode_dns_name value)
      else ids

  unfoldable pub add_cn_final : Identifiers → Bytes → Identifiers
  add_cn_final ids value = add_ip_or ids (lib.parse_ip value) (add_cn_value ids value)

  unfoldable pub add_cn_nonnull : Identifiers → Bytes → Identifiers
  add_cn_nonnull ids value =
      add_cn_final (add_front add_cn_final ids (before_byte b'/' value)) value

  unfoldable pub add_cn : Identifiers → Bytes → Identifiers
  add_cn ids value =
      let trimmed = trim_http_prefix value in
      add_cn_nonnull (add_front add_cn_nonnull ids (before_byte 0 trimmed)) trimmed

  unfoldable pub add_ip_address : Identifiers → Bytes → Identifiers
  add_ip_address ids value = append_ip_address ids value
