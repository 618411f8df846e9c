-- ===== src/Names/Watchlist.antt =====
-- monitor/watchlist.go. A watch item is a domain as labels, with or without its subdomains.
use certspotter.Prelude.{
  ℕ, ◌+◌, Bool, true, false, not, ◌||◌, List, [], ◌∷◌, ◌++◌, reverse, map, Bytes, bytes_equal,
  Result, ok, err, panic, ◌>>=◌, ◌>>◌, ◌==◌, if◌then◌else◌, Option, none, some,
}
use certspotter.Names.Text.{Library, split_dots, join_dots, strip_prefix, trim_trailing_dots}
use certspotter.Names.Wildcard.{matches_wildcard}

pub record WatchItem : Type 0 where
  pub domain : List Bytes
  pub accept_suffix : Bool

pub data WatchError : Type 0 where
  empty_domain : WatchError
  unknown_parameter invalid_domain : Bytes → WatchError
  on_line : WatchError → ℕ → WatchError

-- "valid_at:"
abbrev valid_at : Bytes
valid_at = b'v' ∷ b'a' ∷ b'l' ∷ b'i' ∷ b'd' ∷ b'_' ∷ b'a' ∷ b't' ∷ b':' ∷ []

-- "<unparsable>"
abbrev pub unparsable_dns_label_placeholder : Bytes
unparsable_dns_label_placeholder =
    b'<' ∷ b'u' ∷ b'n' ∷ b'p' ∷ b'a' ∷ b'r' ∷ b's' ∷ b'a' ∷ b'b' ∷ b'l' ∷ b'e' ∷ b'>' ∷ []

unfoldable pub check_parameters : List Bytes → Result WatchError (Unit {0})
check_parameters [] = ok tt
check_parameters (field ∷ fields) = elim (strip_prefix valid_at field) [
  | some _ ↦ check_parameters fields
  | none ↦ err (unknown_parameter field)
]

-- Whether the domain begins with a dot, and the domain without it.
unfoldable pub suffix_dot : Bytes → Bool × Bytes
suffix_dot [] = (false, [])
suffix_dot (c ∷ domain) = if c == b'.' then (true, domain) else (false, c ∷ domain)

module _ (lib : Library) where
  abbrev pub to_item : Bytes → Bool → Option Bytes → Result WatchError WatchItem
  to_item domain accept_suffix none = err (invalid_domain domain)
  to_item domain accept_suffix (some ascii_domain) =
      ok (record { domain = split_dots ascii_domain; accept_suffix = accept_suffix })

  unfoldable pub parse_domain : Bytes → Result WatchError WatchItem
  parse_domain domain =
      if bytes_equal domain (b'.' ∷ [])
      then ok (record { domain = []; accept_suffix = true })
      else (let (accept_suffix, domain') = suffix_dot domain in
          to_item domain' accept_suffix (lib.to_ascii (lib.to_lower (trim_trailing_dots domain'))))

  abbrev pub parse_fields : List Bytes → Result WatchError WatchItem
  parse_fields [] = err empty_domain
  parse_fields (domain ∷ parameters) = check_parameters parameters >> parse_domain domain

  unfoldable pub parse_watch_item : Bytes → Result WatchError WatchItem
  parse_watch_item str = parse_fields (lib.fields str)

  -- `line == "" || strings.HasPrefix(line, "#")`
  abbrev pub is_skipped : Bytes → Bool
  is_skipped [] = true
  is_skipped (c ∷ line) = c == b'#'

  abbrev pub on_line_of {ℓ} : {A : Type ℓ} → ℕ → Result WatchError A → Result WatchError A
  on_line_of n (ok a) = ok a
  on_line_of n (err e) = err (on_line e n)
  on_line_of n panic = panic

  -- The lines that the scanner gives, with the number of those before them.
  unfoldable pub read_lines : List Bytes → ℕ → List WatchItem → Result WatchError (List WatchItem)
  read_lines [] line_no items = ok items
  read_lines (line ∷ lines) line_no items =
      let skipped = read_lines lines (line_no + 1) items in
      let taken = on_line_of (line_no + 1) (parse_watch_item line) >>= λ item.
      read_lines lines (line_no + 1) (items ++ (item ∷ [])) in
      if is_skipped line then skipped else taken

  unfoldable pub read_watch_list : List Bytes → Result WatchError (List WatchItem)
  read_watch_list lines = read_lines lines 0 []

unfoldable pub to_string : WatchItem → Bytes
to_string item = if item.accept_suffix then b'.' ∷ join_dots item.domain else join_dots item.domain

unfoldable pub dns_label_matches : Bytes → Bytes → Bool
dns_label_matches cert_label watch_label =
    bytes_equal cert_label (b'*' ∷ [])
    || bytes_equal cert_label (b'?' ∷ [])
    || bytes_equal cert_label unparsable_dns_label_placeholder
    || matches_wildcard watch_label cert_label

abbrev pub is_nil {ℓ} : {A : Type ℓ} → List A → Bool
is_nil [] = true
is_nil (x ∷ xs) = false

-- The loop of `matchesDNSName`, which takes labels off the ends, on the reversed lists.
unfoldable pub matches_from_end : List Bytes → List Bytes → Bool → Bool
matches_from_end dns_name [] accept_suffix = accept_suffix || is_nil dns_name
matches_from_end [] (watch_label ∷ watch_domain) accept_suffix = false
matches_from_end (cert_label ∷ dns_name) (watch_label ∷ watch_domain) accept_suffix =
    let rest = matches_from_end dns_name watch_domain accept_suffix in
    if not (dns_label_matches cert_label watch_label) then false else rest

unfoldable pub matches_dns_name : WatchItem → List Bytes → Bool
matches_dns_name item dns_name =
    matches_from_end (reverse dns_name) (reverse item.domain) item.accept_suffix

unfoldable pub matches_any : WatchItem → List (List Bytes) → Bool
matches_any item [] = false
matches_any item (dns_name ∷ dns_names) =
    let rest = matches_any item dns_names in if matches_dns_name item dns_name then true else rest

unfoldable pub first_match : List WatchItem → List (List Bytes) → Option WatchItem
first_match [] dns_names = none
first_match (item ∷ items) dns_names =
    let rest = first_match items dns_names in if matches_any item dns_names then some item else rest

-- `Matches`, on the DNS names of the identifiers
unfoldable pub watch_list_matches : List WatchItem → List Bytes → Option WatchItem
watch_list_matches items names = first_match items (map split_dots names)
