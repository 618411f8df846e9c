-- ===== src/Process/Complete.antt =====
-- No entry is dropped: what must have happened when `processLogEntry` tells nobody anything.
use certspotter.Prelude.{
  ◌≡◌, refl, inl, inr, false, List, [], ◌∷◌, All, Bytes, Result, ok, err, panic, ◌==◌,
  if◌then◌else◌, Bool-cases, Option, none, some,
}
use certspotter.Names.Text.{Library, split_dots}
use certspotter.Names.Identifiers.{Identifiers}
use certspotter.Names.Certificate.{parse_identifiers}
use certspotter.Names.Watchlist.{WatchItem, watch_list_matches, matches_dns_name}
use certspotter.Names.Suffix.{watch_list_matches-none_iff}
use certspotter.X509.Types.{TbsCertificate, Asn1, X509Error}
use certspotter.X509.Info.{CertInfo, make_cert_info_from_raw_cert, make_cert_info_from_raw_tbs}
use certspotter.Precert.Raw.{validate_precert_bytes}
use certspotter.Precert.{reconstruct_precert_tbs}
use certspotter.Ct.Types.{
  TimestampedEntry, MerkleTreeLeaf, PreCert, x509_log_entry_type, precert_log_entry_type,
}
use certspotter.Ct.Read.{
  read_merkle_tree_leaf, unmarshal_x509_chain_array, unmarshal_precert_chain_array,
}
use certspotter.Process.{
  RawEntry, ParseError, Report, nothing, report_of, first_certificate, mismatched_precert,
  discovered, process_certificate, with_reconstructed, process_x509_log_entry,
  process_precert_log_entry, by_type, process_log_entry,
}

module _ (lib : Library) (asn1 : Asn1) where
  -- The certificate that a timestamped entry carries, parsed
  abbrev pub info_of : TimestampedEntry → Result X509Error (CertInfo lib asn1)
  info_of t =
      if t.entry_type == x509_log_entry_type
      then make_cert_info_from_raw_cert lib asn1 t.x509_entry
      else make_cert_info_from_raw_tbs lib asn1 t.precert_entry.tbs_certificate

  module _ (sha256 : Bytes → Bytes) where
    report_of-eq_nothing {ℓ ν} :
        {A : Type ℓ} {E : Type ν} (f : E → ParseError) (m : Result E A)
        (next : A → Report lib asn1 sha256)
        → report_of lib asn1 sha256 f m next ≡ nothing
        → (a : A) × (m ≡ ok a) × (next a ≡ nothing)
    report_of-eq_nothing f (ok a) next h = (a, refl, h)
    report_of-eq_nothing f (err e) next h = cc
    report_of-eq_nothing f panic next h = cc

    first_certificate-eq_nothing :
        (chain : List Bytes) (next : Bytes → Report lib asn1 sha256)
        → first_certificate lib asn1 sha256 chain next ≡ nothing
        → (first : Bytes) × (next first ≡ nothing)
    first_certificate-eq_nothing [] next h = cc
    first_certificate-eq_nothing (cert ∷ chain) next h = (cert, h)

    discovered-eq_nothing :
        (entry : RawEntry) (info : CertInfo lib asn1) (chain : List Bytes) (ids : Identifiers)
        (found_item : Option WatchItem)
        → discovered lib asn1 sha256 entry info chain ids found_item ≡ nothing
        → found_item ≡ none
    discovered-eq_nothing entry info chain ids none h = refl
    discovered-eq_nothing entry info [] ids (some item) h = cc
    discovered-eq_nothing entry info (cert ∷ chain) ids (some item) h = cc

    module _ (watch_list : List WatchItem) where
      process_certificate-eq_nothing :
          (entry : RawEntry) (info : CertInfo lib asn1) (chain : List Bytes)
          → process_certificate lib asn1 sha256 watch_list entry info chain ≡ nothing
          → (ids : Identifiers) × (parse_identifiers lib asn1 info ≡ ok ids)
            × (watch_list_matches watch_list ids.dns_names ≡ none)
      unfolding process_certificate
      process_certificate-eq_nothing entry info chain h =
          let (ids, parsed, h1) =
            report_of-eq_nothing _ (parse_identifiers lib asn1 info)
              (λ ids.
                discovered lib asn1 sha256 entry info chain ids
                  (watch_list_matches watch_list ids.dns_names))
              h in
          (
            ids,
            parsed,
            discovered-eq_nothing entry info chain ids (watch_list_matches watch_list ids.dns_names)
                h1,
          )

      with_reconstructed-eq_nothing :
          (entry : RawEntry) (info : CertInfo lib asn1) (chain : List Bytes)
          (tbs : Option TbsCertificate)
          → with_reconstructed lib asn1 sha256 watch_list entry info chain tbs ≡ nothing
          → (ids : Identifiers) × (parse_identifiers lib asn1 info ≡ ok ids)
            × (watch_list_matches watch_list ids.dns_names ≡ none)
      unfolding parse_identifiers
      with_reconstructed-eq_nothing entry info chain none h = cc
      with_reconstructed-eq_nothing entry info chain (some tbs) h =
          process_certificate-eq_nothing entry (record info { tbs = tbs }) chain h

      -- What an entry was parsed as, with identifiers that no watch item matches
      abbrev pub Unwatched : Result X509Error (CertInfo lib asn1) → Type 0
      Unwatched parsed =
          (info : CertInfo lib asn1) × (ids : Identifiers) × (parsed ≡ ok info)
          × (parse_identifiers lib asn1 info ≡ ok ids)
          × (watch_list_matches watch_list ids.dns_names ≡ none)

      process_x509_log_entry-eq_nothing :
          (entry : RawEntry) (cert : Bytes)
          → process_x509_log_entry lib asn1 sha256 watch_list entry cert ≡ nothing
          → Unwatched (make_cert_info_from_raw_cert lib asn1 cert)
      unfolding process_x509_log_entry
      process_x509_log_entry-eq_nothing entry cert h =
          let (info, parsed, h1) =
            report_of-eq_nothing _ (make_cert_info_from_raw_cert lib asn1 cert) _ h in
          let (chain, _, h2) =
            report_of-eq_nothing _ (unmarshal_x509_chain_array entry.extra_data)
              (λ chain.
                with_reconstructed lib asn1 sha256 watch_list entry info (cert ∷ chain)
                  (reconstruct_precert_tbs asn1.marshal_tbs info.tbs))
              h1 in
          let (ids, named, unmatched) =
            with_reconstructed-eq_nothing entry info (cert ∷ chain) _ h2 in
          (info, ids, parsed, named, unmatched)

      process_precert_log_entry-eq_nothing :
          (entry : RawEntry) (precert : PreCert)
          → process_precert_log_entry lib asn1 sha256 watch_list entry precert ≡ nothing
          → Unwatched (make_cert_info_from_raw_tbs lib asn1 precert.tbs_certificate)
      unfolding process_precert_log_entry
      process_precert_log_entry-eq_nothing entry precert h =
          let (info, parsed, h1) =
            report_of-eq_nothing _ (make_cert_info_from_raw_tbs lib asn1 precert.tbs_certificate) _
              h in
          let (chain, _, h2) =
            report_of-eq_nothing _ (unmarshal_precert_chain_array entry.extra_data)
              (λ chain. first_certificate lib asn1 sha256 chain (λ first.
                report_of lib asn1 sha256 mismatched_precert
                  (validate_precert_bytes lib asn1 first precert.tbs_certificate)
                  (λ _. process_certificate lib asn1 sha256 watch_list entry info chain)))
              h1 in
          let (first, h3) = first_certificate-eq_nothing chain _ h2 in
          let (_, _, h4) =
            report_of-eq_nothing _ (validate_precert_bytes lib asn1 first precert.tbs_certificate)
              (λ _. process_certificate lib asn1 sha256 watch_list entry info chain) h3 in
          let (ids, named, unmatched) = process_certificate-eq_nothing entry info chain h4 in
          (info, ids, parsed, named, unmatched)

      by_type-eq_nothing :
          (entry : RawEntry) (t : TimestampedEntry)
          → by_type lib asn1 sha256 watch_list entry t ≡ nothing
          → Unwatched (info_of t)
      by_type-eq_nothing entry t h = elim (Bool-cases (t.entry_type == x509_log_entry_type)) [
        | inl x509 ↦ rw x509 (process_x509_log_entry-eq_nothing entry t.x509_entry (rw x509 at h))
        | inr other ↦ elim (Bool-cases (t.entry_type == precert_log_entry_type)) [
          | inl precert ↦ rw other (
              process_precert_log_entry-eq_nothing entry t.precert_entry (rw (other, precert) at h))
          | inr neither ↦ cc (rw (other, neither) at h)
        ]
      ]

      -- When `process_log_entry` reports nothing for an entry, its leaf and the certificate or
      -- precertificate in it have been parsed, and no item of the watch list matches any DNS name of
      -- the identifiers parsed from it. In every other case something is reported.
      pub process_log_entry-eq_nothing :
          (entry : RawEntry)
          → process_log_entry lib asn1 sha256 watch_list entry ≡ nothing
          → (leaf : MerkleTreeLeaf) × (rest : Bytes) × (info : CertInfo lib asn1)
            × (ids : Identifiers) × (read_merkle_tree_leaf entry.leaf_input ≡ ok (leaf, rest))
            × (info_of leaf.timestamped_entry ≡ ok info)
            × (parse_identifiers lib asn1 info ≡ ok ids)
            × All
                (λ item.
                  All (λ name. matches_dns_name item (split_dots name) ≡ false) ids.dns_names)
                watch_list
      unfolding process_log_entry
      process_log_entry-eq_nothing entry h =
          let ((leaf, rest), r, h1) =
            report_of-eq_nothing _ (read_merkle_tree_leaf entry.leaf_input)
              (λ (leaf, rest). by_type lib asn1 sha256 watch_list entry leaf.timestamped_entry) h in
          let (info, ids, parsed, named, unmatched) =
            by_type-eq_nothing entry leaf.timestamped_entry h1 in
          (
            leaf,
            rest,
            info,
            ids,
            r,
            parsed,
            named,
            (watch_list_matches-none_iff watch_list ids.dns_names).0 unmatched,
          )
