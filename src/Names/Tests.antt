-- ===== src/Names/Tests.antt =====
-- The theorems on names at small names.
use certspotter.Prelude.{
  ◌≡◌, refl, ◌↔◌, ◌⊎◌, inl, true, false, List, [], ◌∷◌, ◌++◌, Bytes, ok, some, All, map,
}
use certspotter.Names.Text.{split_dots, join_dots, strip_prefix, drop_dots, trim_trailing_dots}
use certspotter.Names.Wildcard.{matches_wildcard}
use certspotter.Names.Watchlist.{
  WatchItem, matches_dns_name, matches_any, watch_list_matches, dns_label_matches, matches_from_end,
  first_match,
}
use certspotter.Names.Suffix.{LabelsMatch, matches_dns_name_iff, watch_list_matches-some}
use certspotter.Names.Wildcard.{Matches, matches_wildcard_iff}
use certspotter.Names.Identifiers.{
  new_identifiers, add_dns_san, trim_http_prefix, sanitize_dns_name, is_ascii_string,
  trimmed_labels, sane_or_placeholder, is_sane_dns_label, is_sane_dns_label_char,
}
use certspotter.Names.Sane.{IsClean}
use certspotter.Names.Covers.{Has, add_dns_san-covers}
use certspotter.Names.Certificate.{
  parse_identifiers, parse_identifiers-IsClean, add_cns, add_sans, add_san,
}
use certspotter.Names.Sample.{simple, top_label, a_com}
use certspotter.X509.Parse.{parse_cns}
use certspotter.X509.Sample.{sample_asn1, a_com_info}

abbrev any_com : WatchItem
any_com = record { domain = top_label ∷ []; accept_suffix = true }

matches_wildcard_iff_example :
    (matches_wildcard top_label (b'c' ∷ b'*' ∷ []) ≡ true) ↔ Matches top_label (b'c' ∷ b'*' ∷ [])
matches_wildcard_iff_example = matches_wildcard_iff top_label (b'c' ∷ b'*' ∷ [])

matches_dns_name_iff_example : (matches_dns_name any_com ((b'a' ∷ []) ∷ top_label ∷ []) ≡ true) ↔ (
    (front back : List Bytes) × ((b'a' ∷ []) ∷ top_label ∷ [] ≡ front ++ back)
    × LabelsMatch back (top_label ∷ [])
    × ((true ≡ true) ⊎ (front ≡ [])))
matches_dns_name_iff_example = matches_dns_name_iff any_com ((b'a' ∷ []) ∷ top_label ∷ [])

found : watch_list_matches (any_com ∷ []) (a_com ∷ []) ≡ some any_com
unfolding watch_list_matches first_match matches_any matches_dns_name matches_from_end
    dns_label_matches split_dots matches_wildcard
found = refl

watch_list_matches-some_example :
    (front back : List WatchItem) × (any_com ∷ [] ≡ front ++ (any_com ∷ back))
    × All (λ earlier. matches_any earlier (map split_dots (a_com ∷ [])) ≡ false) front
    × (matches_any any_com (map split_dots (a_com ∷ [])) ≡ true)
watch_list_matches-some_example = watch_list_matches-some (any_com ∷ []) (a_com ∷ []) any_com found

untrimmed : a_com ≡ trim_http_prefix a_com
unfolding trim_http_prefix strip_prefix
untrimmed = refl

ascii : is_ascii_string a_com ≡ true
unfolding is_ascii_string
ascii = refl

sanitized : sanitize_dns_name simple a_com ≡ a_com
unfolding sanitize_dns_name trimmed_labels sane_or_placeholder is_sane_dns_label
    is_sane_dns_label_char trim_trailing_dots drop_dots split_dots join_dots
sanitized = refl

add_dns_san-covers_example :
    Has (add_dns_san simple new_identifiers a_com) (sanitize_dns_name simple a_com)
add_dns_san-covers_example =
    add_dns_san-covers simple new_identifiers a_com a_com (inl untrimmed) refl ascii
      (λ e. cc (e, sanitized))

parsed :
    parse_identifiers simple sample_asn1 a_com_info ≡ ok (add_dns_san simple new_identifiers a_com)
unfolding parse_identifiers parse_cns add_cns add_sans add_san
parsed = refl

parse_identifiers-IsClean_example : IsClean (add_dns_san simple new_identifiers a_com)
parse_identifiers-IsClean_example =
    parse_identifiers-IsClean simple sample_asn1 a_com_info
      (add_dns_san simple new_identifiers a_com) parsed
