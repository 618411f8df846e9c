-- ===== src/Process/Tests.antt =====
-- The theorems on the processing of an entry at the certificate of `X509.Sample`.
use certspotter.Prelude.{◌≡◌, ◌≢◌, refl, ◌⊎◌, inl, true, false, [], ◌∷◌, ◌++◌, Bytes, All, ok}
use certspotter.Names.Text.{
  split_dots, join_dots, strip_prefix, drop_dots, trim_trailing_dots, contains_byte, before_byte,
}
use certspotter.Names.Sample.{simple, top_label, a_com}
use certspotter.Names.Wildcard.{matches_wildcard}
use certspotter.Names.Identifiers.{
  Identifiers, sanitize_dns_name, is_ascii_string, trimmed_labels, sane_or_placeholder,
  is_sane_dns_label, is_sane_dns_label_char, trim_http_prefix, add_dns_san, add_dns_san_nonnull,
  add_dns_san_final, append_dns_name, has_dns_name,
}
use certspotter.Names.Certificate.{parse_identifiers, add_cns, add_sans, add_san}
use certspotter.Names.Watchlist.{
  WatchItem, matches_dns_name, matches_any, watch_list_matches, dns_label_matches, matches_from_end,
  first_match,
}
use certspotter.X509.Parse.{
  parse_rdn_sequence, parse_subject, parse_issuer, parse_serial_number, parse_validity,
  parse_basic_constraints, constraints_loop, parse_subject_alt_names, sans_of_extensions,
  parse_san_extension, sans_loop, get_extension, parse_tbs_certificate, parse_certificate,
  parse_cns,
}
use certspotter.X509.Info.{
  CertInfo, make_cert_info_from_tbs, make_cert_info_from_raw_tbs, make_cert_info_from_raw_cert,
}
use certspotter.X509.Sample.{sample_asn1, sample_value, a_com_cert, a_com_info}
use certspotter.Precert.{reconstruct_precert_tbs, without_sct}
use certspotter.Ct.Types.{MerkleTreeLeaf, TimestampedEntry, zero_hash}
use certspotter.Ct.Read.{
  split_bytes, read_merkle_tree_leaf, unmarshal_x509_chain_array, read_asn1_cert_list,
  read_list_loop, read_timestamped_entry_into, read_entry_body, read_big_endian, read_full,
  be_value, read_var_bytes, read_uint, read_uint_loop,
}
use certspotter.Process.{
  RawEntry, DiscoveredCert, ParseError, nothing, found, malformed, panics, process_certificate,
  process_x509_log_entry, process_log_entry,
}
use certspotter.Process.Complete.{info_of, process_log_entry-eq_nothing}
use certspotter.Process.Sound.{IsInfoOf, IsFoundFor, process_log_entry-eq_found}
use certspotter.Process.Total.{process_log_entry-safe}
use certspotter.Process.Watched.{process_log_entry-finds}

abbrev entry : RawEntry
entry = record {
  index = 0;
  leaf_input =
      0 ∷ 0 ∷ 0 ∷ 0 ∷ 0 ∷ 0 ∷ 0 ∷ 0 ∷ 0 ∷ 0 ∷ 0 ∷ 0 ∷ 0 ∷ 0 ∷ 9 ∷ a_com_cert ++ (0 ∷ 0 ∷ []);
  extra_data = 0 ∷ 0 ∷ 0 ∷ [];
  leaf_hash = [];
}

abbrev any_com : WatchItem
any_com = record { domain = top_label ∷ []; accept_suffix = true }

abbrev timestamped : TimestampedEntry
timestamped = record {
  timestamp = 0;
  entry_type = 0;
  x509_entry = a_com_cert;
  precert_entry = record { issuer_key_hash = zero_hash; tbs_certificate = [] };
  extensions = [];
}

abbrev leaf : MerkleTreeLeaf
leaf = record { version = 0; leaf_type = 0; timestamped_entry = timestamped }

abbrev same_bytes : Bytes → Bytes
same_bytes b = b

read : read_merkle_tree_leaf entry.leaf_input ≡ ok (leaf, [])
unfolding read_merkle_tree_leaf read_timestamped_entry_into read_entry_body read_big_endian
    read_full be_value read_var_bytes read_uint read_uint_loop split_bytes
read = refl

parsed : info_of simple sample_asn1 timestamped ≡ ok a_com_info
unfolding make_cert_info_from_raw_cert make_cert_info_from_raw_tbs make_cert_info_from_tbs
    parse_certificate parse_tbs_certificate parse_subject parse_issuer parse_rdn_sequence
    parse_subject_alt_names get_extension sans_of_extensions parse_san_extension sans_loop
    sample_value split_bytes parse_serial_number parse_validity parse_basic_constraints
    constraints_loop
parsed = refl

untrimmed : a_com ≡ trim_http_prefix a_com
unfolding trim_http_prefix strip_prefix
untrimmed = refl

ascii : is_ascii_string a_com ≡ true
unfolding is_ascii_string
ascii = refl

sanitized : sanitize_dns_name simple a_com ≡ a_com
unfolding sanitize_dns_name trimmed_labels sane_or_placeholder is_sane_dns_label
    is_sane_dns_label_char trim_trailing_dots drop_dots split_dots join_dots
sanitized = refl

watched : matches_dns_name any_com (split_dots (sanitize_dns_name simple a_com)) ≡ true
unfolding sanitize_dns_name trimmed_labels sane_or_placeholder is_sane_dns_label
    is_sane_dns_label_char trim_trailing_dots drop_dots split_dots join_dots matches_dns_name
    matches_from_end dns_label_matches matches_wildcard
watched = refl

process_log_entry-finds_example :
    ((d : DiscoveredCert simple sample_asn1 same_bytes) × (process_log_entry simple sample_asn1
          same_bytes
          (any_com ∷ [])
          entry
        ≡ found d))
    ⊎ ((e : ParseError) × (process_log_entry simple sample_asn1 same_bytes (any_com ∷ []) entry
          ≡ malformed e))
process_log_entry-finds_example =
    process_log_entry-finds simple sample_asn1 same_bytes (any_com ∷ []) entry leaf [] a_com_info []
      [] (record { san_type = 2; value = a_com }) a_com [] [] any_com read parsed refl refl
      (inl untrimmed, refl, ascii, λ e. cc (e, sanitized)) refl watched

process_log_entry-safe_example :
    process_log_entry simple sample_asn1 same_bytes (any_com ∷ []) entry ≢ panics
process_log_entry-safe_example =
    process_log_entry-safe simple sample_asn1 same_bytes (any_com ∷ []) entry

abbrev a_com_identifiers : Identifiers
a_com_identifiers = record { dns_names = a_com ∷ []; ip_addrs = [] }

named : parse_identifiers simple sample_asn1 a_com_info ≡ ok a_com_identifiers
unfolding parse_identifiers parse_cns add_cns add_sans add_san add_dns_san add_dns_san_nonnull
    add_dns_san_final append_dns_name has_dns_name before_byte contains_byte trim_http_prefix
    strip_prefix is_ascii_string sanitize_dns_name trimmed_labels sane_or_placeholder
    is_sane_dns_label is_sane_dns_label_char trim_trailing_dots drop_dots split_dots join_dots
named = refl

unseen : process_log_entry simple sample_asn1 same_bytes [] entry ≡ nothing
unfolding process_log_entry process_x509_log_entry process_certificate reconstruct_precert_tbs
    without_sct unmarshal_x509_chain_array read_asn1_cert_list read_list_loop read_var_bytes
    read_uint read_uint_loop split_bytes watch_list_matches first_match sample_value
    parse_identifiers
unseen = rw (read, parsed, named) refl

process_log_entry-eq_nothing_example :
    (leaf : MerkleTreeLeaf) × (rest : Bytes) × (info : CertInfo simple sample_asn1)
    × (ids : Identifiers) × (read_merkle_tree_leaf entry.leaf_input ≡ ok (leaf, rest))
    × (info_of simple sample_asn1 leaf.timestamped_entry ≡ ok info)
    × (parse_identifiers simple sample_asn1 info ≡ ok ids)
    × All (λ item. All (λ name. matches_dns_name item (split_dots name) ≡ false) ids.dns_names) []
process_log_entry-eq_nothing_example =
    process_log_entry-eq_nothing simple sample_asn1 same_bytes [] entry unseen

abbrev discovered_a_com : DiscoveredCert simple sample_asn1 same_bytes
discovered_a_com = record {
  watch_item = any_com;
  log_entry = entry;
  info = record a_com_info { tbs = record (a_com_info.tbs) { raw = [] } };
  chain = a_com_cert ∷ [];
  tbs_sha256 = [];
  sha256_of_cert = a_com_cert;
  pubkey_sha256 = [];
  identifiers = a_com_identifiers;
}

seen : process_log_entry simple sample_asn1 same_bytes (any_com ∷ []) entry ≡ found discovered_a_com
unfolding process_log_entry process_x509_log_entry process_certificate reconstruct_precert_tbs
    without_sct unmarshal_x509_chain_array read_asn1_cert_list read_list_loop read_var_bytes
    read_uint read_uint_loop split_bytes watch_list_matches first_match sample_value
    parse_identifiers matches_any matches_dns_name matches_from_end dns_label_matches split_dots
    matches_wildcard
seen = rw (read, parsed, named) refl

process_log_entry-eq_found_example :
    (leaf : MerkleTreeLeaf) × (rest : Bytes) × (read_merkle_tree_leaf entry.leaf_input
      ≡ ok (leaf, rest))
    × IsInfoOf simple sample_asn1 same_bytes leaf.timestamped_entry discovered_a_com
    × IsFoundFor simple sample_asn1 same_bytes (any_com ∷ []) entry discovered_a_com
process_log_entry-eq_found_example =
    process_log_entry-eq_found simple sample_asn1 same_bytes (any_com ∷ []) entry discovered_a_com
      seen
