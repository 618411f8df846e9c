-- ===== src/Process/Watched.antt =====
-- A certificate with a watched DNS name in ASCII is reported.
use certspotter.Prelude.{
  ◌≡◌, ◌≢◌, refl, subst, ◌⊎◌, inl, inr, true, false, List, [], ◌∷◌, ◌++◌, All, Bytes, ok,
}
use certspotter.Names.Text.{Library, split_dots}
use certspotter.Names.Identifiers.{sanitize_dns_name}
use certspotter.Names.Covers.{IsNamedBy}
use certspotter.Names.Named.{All-Has, parse_identifiers-Has}
use certspotter.Names.Certificate.{parse_identifiers}
use certspotter.Names.Watchlist.{WatchItem, matches_dns_name}
use certspotter.X509.Types.{SubjectAltName, san_dns_name, Asn1}
use certspotter.X509.Info.{CertInfo}
use certspotter.Ct.Types.{MerkleTreeLeaf}
use certspotter.Ct.Read.{read_merkle_tree_leaf}
use certspotter.Process.{
  RawEntry, ParseError, DiscoveredCert, Report, nothing, found, malformed, panics,
  process_log_entry,
}
use certspotter.Process.Complete.{info_of, process_log_entry-eq_nothing}
use certspotter.Process.Total.{process_log_entry-safe}

All-middle {ℓ κ} :
    {A : Type ℓ} (P : A → Type κ) (front : List A) (x : A) (back : List A)
    → All P (front ++ (x ∷ back))
    → P x
All-middle P [] x back h = h.0
All-middle P (y ∷ front) x back h = All-middle P front x back h.1

module _ (lib : Library) (asn1 : Asn1) (sha256 : Bytes → Bytes) where
  report_cases :
      (r : Report lib asn1 sha256)
      → r ≢ nothing
      → r ≢ panics
      → ((d : DiscoveredCert lib asn1 sha256) × (r ≡ found d))
        ⊎ ((e : ParseError) × (r ≡ malformed e))
  report_cases nothing n p = absurd (n refl)
  report_cases (found d) n p = inl (d, refl)
  report_cases (malformed e) n p = inr (e, refl)
  report_cases panics n p = absurd (p refl)

  module _ (watch_list : List WatchItem) where
    -- Let an entry carry a certificate or precertificate that can be parsed, with a
    -- subjectAltName that is a DNS name. Its text is the name, less a leading http:// or https://
    -- as `trim_http_prefix` cuts it off, or the part of that before the first null byte. When
    -- this text is ASCII, is not the text of an IP address, and is not empty once it is
    -- sanitized, and some item of the watch list matches the sanitized text, `process_log_entry`
    -- reports the entry: as a certificate that was found, or as malformed. It neither passes over
    -- the entry nor panics, whatever else the certificate holds. Nothing is said of names whose
    -- text is not ASCII or is an IP address.
    pub process_log_entry-finds :
        (entry : RawEntry) (leaf : MerkleTreeLeaf) (rest : Bytes) (info : CertInfo lib asn1)
        (front back : List SubjectAltName) (san : SubjectAltName) (name : Bytes)
        (before after : List WatchItem) (item : WatchItem)
        → read_merkle_tree_leaf entry.leaf_input ≡ ok (leaf, rest)
        → info_of lib asn1 leaf.timestamped_entry ≡ ok info
        → info.sans ≡ front ++ (san ∷ back)
        → san.san_type ≡ san_dns_name
        → IsNamedBy lib name san.value
        → watch_list ≡ before ++ (item ∷ after)
        → matches_dns_name item (split_dots (sanitize_dns_name lib name)) ≡ true
        → ((d : DiscoveredCert lib asn1 sha256) × (process_log_entry lib asn1 sha256 watch_list
                entry
              ≡ found d))
          ⊎ ((e : ParseError) × (process_log_entry lib asn1 sha256 watch_list entry ≡ malformed e))
    process_log_entry-finds entry leaf rest info front back san name before after item read parsed
          there dns named watched matches =
        report_cases (process_log_entry lib asn1 sha256 watch_list entry) seen
          (process_log_entry-safe lib asn1 sha256 watch_list entry)
      where
        seen : process_log_entry lib asn1 sha256 watch_list entry ≢ nothing
        seen unseen =
            let (leaf', rest', info', ids, read', parsed', named', unmatched) =
              process_log_entry-eq_nothing lib asn1 sha256 watch_list entry unseen in
            let same_leaf : leaf' ≡ leaf = cc in
            let same : info' ≡ info = cc in
            let ids_of : parse_identifiers lib asn1 info ≡ ok ids =
              subst (λ i. parse_identifiers lib asn1 i ≡ ok ids) same named' in
            let has =
              parse_identifiers-Has lib asn1 info ids front back san name ids_of there dns named in
            let misses =
              All-middle
                (λ item.
                  All (λ name. matches_dns_name item (split_dots name) ≡ false) ids.dns_names)
                before item after
                (subst
                  (All (λ item.
                    All (λ name. matches_dns_name item (split_dots name) ≡ false) ids.dns_names))
                  watched unmatched) in
            let miss =
              All-Has (λ name. matches_dns_name item (split_dots name) ≡ false) ids.dns_names _
                misses has in
            cc
