-- ===== src/Process/Sound.antt =====
-- What is reported as found is of the entry, and watched.
use certspotter.Prelude.{
  ◌≡◌, refl, sym, subst, inl, inr, List, [], ◌∷◌, Bytes, Result, ok, err, panic, ◌==◌, Bool-cases,
  Option, none, some,
}
use certspotter.Names.Text.{Library}
use certspotter.Names.Identifiers.{Identifiers}
use certspotter.Names.Certificate.{parse_identifiers}
use certspotter.Names.Watchlist.{WatchItem, watch_list_matches}
use certspotter.X509.Types.{TbsCertificate, Asn1}
use certspotter.X509.Info.{CertInfo, make_cert_info_from_raw_cert, make_cert_info_from_raw_tbs}
use certspotter.Precert.{reconstruct_precert_tbs}
use certspotter.Precert.Raw.{validate_precert_bytes}
use certspotter.Ct.Types.{
  MerkleTreeLeaf, PreCert, TimestampedEntry, x509_log_entry_type, precert_log_entry_type,
}
use certspotter.Ct.Read.{
  read_merkle_tree_leaf, unmarshal_x509_chain_array, unmarshal_precert_chain_array,
}
use certspotter.Process.{
  RawEntry, ParseError, DiscoveredCert, Report, found, report_of, first_certificate,
  mismatched_precert, discovered, process_certificate, with_reconstructed, process_x509_log_entry,
  process_precert_log_entry, by_type, process_log_entry,
}
use certspotter.Process.Complete.{info_of}

module _ (lib : Library) (asn1 : Asn1) (sha256 : Bytes → Bytes) where
  -- The certificate of the entry, with the TBSCertificate that is reported in its place
  abbrev pub IsInfoOf : TimestampedEntry → DiscoveredCert lib asn1 sha256 → Type 0
  IsInfoOf t d =
      (info : CertInfo lib asn1) × (info_of lib asn1 t ≡ ok info)
      × (d.info ≡ record info { tbs = d.info.tbs })

  module _ (watch_list : List WatchItem) where
    report_of-eq_found {ℓ ν} :
        {A : Type ℓ} {E : Type ν} (f : E → ParseError) (m : Result E A)
        (next : A → Report lib asn1 sha256) (d : DiscoveredCert lib asn1 sha256)
        → report_of lib asn1 sha256 f m next ≡ found d
        → (a : A) × (m ≡ ok a) × (next a ≡ found d)
    report_of-eq_found f (ok a) next d h = (a, refl, h)
    report_of-eq_found f (err e) next d h = cc
    report_of-eq_found f panic next d h = cc

    first_certificate-eq_found :
        (chain : List Bytes) (next : Bytes → Report lib asn1 sha256)
        (d : DiscoveredCert lib asn1 sha256)
        → first_certificate lib asn1 sha256 chain next ≡ found d
        → (first : Bytes) × (next first ≡ found d)
    first_certificate-eq_found [] next d h = cc
    first_certificate-eq_found (cert ∷ chain) next d h = (cert, h)

    -- What is said of a certificate that was found
    abbrev pub IsFoundFor : RawEntry → DiscoveredCert lib asn1 sha256 → Type 0
    IsFoundFor entry d =
        (d.log_entry ≡ entry)
        × (parse_identifiers lib asn1 d.info ≡ ok d.identifiers)
        × (watch_list_matches watch_list d.identifiers.dns_names ≡ some d.watch_item)
        × (d.tbs_sha256 ≡ sha256 d.info.tbs.raw)
        × (d.pubkey_sha256 ≡ sha256 d.info.tbs.public_key)
        × ((cert : Bytes) × (others : List Bytes) × (d.chain ≡ cert ∷ others)
            × (d.sha256_of_cert ≡ sha256 cert))

    discovered-eq_found :
        (entry : RawEntry) (info : CertInfo lib asn1) (chain : List Bytes) (ids : Identifiers)
        (item : Option WatchItem) (d : DiscoveredCert lib asn1 sha256)
        → parse_identifiers lib asn1 info ≡ ok ids
        → watch_list_matches watch_list ids.dns_names ≡ item
        → discovered lib asn1 sha256 entry info chain ids item ≡ found d
        → IsFoundFor entry d × (d.info ≡ info)
    discovered-eq_found entry info chain ids none d p m h = cc
    discovered-eq_found entry info [] ids (some item) d p m h = cc
    discovered-eq_found entry info (cert ∷ chain) ids (some item) d p m h =
        let e : record {
          watch_item = item;
          log_entry = entry;
          info = info;
          chain = cert ∷ chain;
          tbs_sha256 = sha256 info.tbs.raw;
          sha256_of_cert = sha256 cert;
          pubkey_sha256 = sha256 info.tbs.public_key;
          identifiers = ids;
        }
            ≡ d =
          cc in
        subst (λ d. IsFoundFor entry d × (d.info ≡ info)) e
          ((refl, p, m, refl, refl, (cert, chain, refl, refl)), refl)

    process_certificate-eq_found :
        (entry : RawEntry) (info : CertInfo lib asn1) (chain : List Bytes)
        (d : DiscoveredCert lib asn1 sha256)
        → process_certificate lib asn1 sha256 watch_list entry info chain ≡ found d
        → IsFoundFor entry d × (d.info ≡ info)
    unfolding process_certificate
    process_certificate-eq_found entry info chain d h =
        let (ids, parsed, h1) =
          report_of-eq_found _ (parse_identifiers lib asn1 info)
            (λ ids.
              discovered lib asn1 sha256 entry info chain ids
                (watch_list_matches watch_list ids.dns_names))
            d h in
        discovered-eq_found entry info chain ids _ d parsed refl h1

    process_x509_log_entry-eq_found :
        (entry : RawEntry) (cert : Bytes) (d : DiscoveredCert lib asn1 sha256)
        → process_x509_log_entry lib asn1 sha256 watch_list entry cert ≡ found d
        → IsFoundFor entry d
          × ((info : CertInfo lib asn1) × (make_cert_info_from_raw_cert lib asn1 cert ≡ ok info)
              × (d.info ≡ record info { tbs = d.info.tbs }))
    unfolding process_x509_log_entry
    process_x509_log_entry-eq_found entry cert d h =
        let (info, parsed, h1) =
          report_of-eq_found _ (make_cert_info_from_raw_cert lib asn1 cert) _ d h in
        let (chain, _, h2) =
          report_of-eq_found _ (unmarshal_x509_chain_array entry.extra_data)
            (λ chain.
              with_reconstructed lib asn1 sha256 watch_list entry info (cert ∷ chain)
                (reconstruct_precert_tbs asn1.marshal_tbs info.tbs))
            d h1 in
        let (for_entry, same) = with_tbs info (cert ∷ chain) _ h2 in
        (for_entry, (info, parsed, same))
      where
        with_tbs :
            (info : CertInfo lib asn1) (chain : List Bytes) (tbs : Option TbsCertificate)
            → with_reconstructed lib asn1 sha256 watch_list entry info chain tbs ≡ found d
            → IsFoundFor entry d × (d.info ≡ record info { tbs = d.info.tbs })
        with_tbs info chain none h = cc
        with_tbs info chain (some tbs) h =
            let (for_entry, same) =
              process_certificate-eq_found entry (record info { tbs = tbs }) chain d h in
            (for_entry, subst (λ i. i ≡ record info { tbs = i.tbs }) (sym same) refl)

    process_precert_log_entry-eq_found :
        (entry : RawEntry) (precert : PreCert) (d : DiscoveredCert lib asn1 sha256)
        → process_precert_log_entry lib asn1 sha256 watch_list entry precert ≡ found d
        → IsFoundFor entry d
          × (make_cert_info_from_raw_tbs lib asn1 precert.tbs_certificate ≡ ok d.info)
    unfolding process_precert_log_entry
    process_precert_log_entry-eq_found entry precert d h =
        let (info, parsed, h1) =
          report_of-eq_found _ (make_cert_info_from_raw_tbs lib asn1 precert.tbs_certificate) _ d
            h in
        let (chain, _, h2) =
          report_of-eq_found _ (unmarshal_precert_chain_array entry.extra_data)
            (λ chain. first_certificate lib asn1 sha256 chain (λ first.
              report_of lib asn1 sha256 mismatched_precert
                (validate_precert_bytes lib asn1 first precert.tbs_certificate)
                (λ _. process_certificate lib asn1 sha256 watch_list entry info chain)))
            d h1 in
        let (first, h3) = first_certificate-eq_found chain _ d h2 in
        let (_, _, h4) =
          report_of-eq_found _ (validate_precert_bytes lib asn1 first precert.tbs_certificate)
            (λ _. process_certificate lib asn1 sha256 watch_list entry info chain) d h3 in
        let (for_entry, same) = process_certificate-eq_found entry info chain d h4 in
        (
          for_entry,
          subst (λ i. make_cert_info_from_raw_tbs lib asn1 precert.tbs_certificate ≡ ok i)
              (sym same) parsed,
        )

    by_type-eq_found :
        (entry : RawEntry) (t : TimestampedEntry) (d : DiscoveredCert lib asn1 sha256)
        → by_type lib asn1 sha256 watch_list entry t ≡ found d
        → IsFoundFor entry d × IsInfoOf t d
    by_type-eq_found entry t d h = elim (Bool-cases (t.entry_type == x509_log_entry_type)) [
      | inl x509 ↦ rw x509 (process_x509_log_entry-eq_found entry t.x509_entry d (rw x509 at h))
      | inr other ↦ elim (Bool-cases (t.entry_type == precert_log_entry_type)) [
        | inl precert ↦
            let (for_entry, parsed) =
              process_precert_log_entry-eq_found entry t.precert_entry d
                (rw (other, precert) at h) in
            rw other (for_entry, (d.info, parsed, refl))
        | inr neither ↦ cc (rw (other, neither) at h)
      ]
    ]

    -- A certificate that `process_log_entry` reports as found is the one of the entry, at most with
    -- the TBSCertificate replaced; its identifiers are those parsed from it, its watch item is the
    -- first of the watch list that matches one of them, and its three hashes are of its
    -- TBSCertificate, of its public key and of the first certificate of its chain.
    pub process_log_entry-eq_found :
        (entry : RawEntry) (d : DiscoveredCert lib asn1 sha256)
        → process_log_entry lib asn1 sha256 watch_list entry ≡ found d
        → (leaf : MerkleTreeLeaf) × (rest : Bytes) × (read_merkle_tree_leaf entry.leaf_input
            ≡ ok (leaf, rest))
          × IsInfoOf leaf.timestamped_entry d
          × IsFoundFor entry d
    unfolding process_log_entry
    process_log_entry-eq_found entry d h =
        let ((leaf, rest), read, h1) =
          report_of-eq_found _ (read_merkle_tree_leaf entry.leaf_input)
            (λ (leaf, rest). by_type lib asn1 sha256 watch_list entry leaf.timestamped_entry) d h in
        let (for_entry, of_leaf) = by_type-eq_found entry leaf.timestamped_entry d h1 in
        (leaf, rest, read, of_leaf, for_entry)
