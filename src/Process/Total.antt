-- ===== src/Process/Total.antt =====
-- No entry of a log makes the processing panic.
use certspotter.Prelude.{
  ◌≡◌, ◌≢◌, refl, Bool, true, false, List, ◌∷◌, Bytes, Result, ok, err, panic, Returns, >>=-Returns,
  ◌==◌, if◌then◌else◌, Option, none, some,
}
use certspotter.Names.Text.{Library}
use certspotter.Names.Identifiers.{Identifiers}
use certspotter.Names.Certificate.{no_error, parse_identifiers}
use certspotter.Names.Watchlist.{WatchItem, watch_list_matches}
use certspotter.X509.Types.{TbsCertificate, Asn1, X509Error}
use certspotter.X509.Info.{CertInfo}
use certspotter.X509.Parse.{parse_cns}
use certspotter.X509.Total.{
  parse_cns-Returns, make_cert_info_from_raw_cert-Returns, make_cert_info_from_raw_tbs-Returns,
}
use certspotter.Precert.Raw.{validate_precert_bytes}
use certspotter.Precert.Total.{validate_precert_bytes-Returns}
use certspotter.Ct.Types.{PreCert, TimestampedEntry, x509_log_entry_type, precert_log_entry_type}
use certspotter.Ct.Total.{
  read_merkle_tree_leaf-Returns, unmarshal_x509_chain_array-Returns,
  unmarshal_precert_chain_array-Returns, unmarshal_precert_chain_array-eq_ok,
}
use certspotter.Process.{
  RawEntry, ParseError, Report, panics, report_of, first_certificate, mismatched_precert,
  discovered, process_certificate, with_reconstructed, process_x509_log_entry,
  process_precert_log_entry, by_type, process_log_entry,
}

no_error-Returns : (e : Option X509Error) → Returns (no_error e)
no_error-Returns none = tt
no_error-Returns (some e) = tt

module _ (lib : Library) (asn1 : Asn1) where
  parse_identifiers-Returns : (info : CertInfo lib asn1) → Returns (parse_identifiers lib asn1 info)
  unfolding parse_identifiers
  parse_identifiers-Returns info =
      >>=-Returns (no_error info.subject_parse_error) _ (no_error-Returns info.subject_parse_error)
        (λ _ _.
          >>=-Returns (parse_cns lib asn1 info.subject) _ (parse_cns-Returns lib asn1 info.subject)
            (λ _ _.
              >>=-Returns (no_error info.sans_parse_error) _
                (no_error-Returns info.sans_parse_error) (λ _ _. tt)))

  module _ (sha256 : Bytes → Bytes) where
    report_of-safe {ℓ ν} :
        {A : Type ℓ} {E : Type ν} (f : E → ParseError) (m : Result E A)
        (next : A → Report lib asn1 sha256)
        → Returns m
        → ((a : A) → m ≡ ok a → next a ≢ panics)
        → report_of lib asn1 sha256 f m next ≢ panics
    report_of-safe f (ok a) next r s = s a refl
    report_of-safe f (err e) next r s = λ h. cc
    report_of-safe f panic next r s = absurd r

    discovered-safe :
        (entry : RawEntry) (info : CertInfo lib asn1) (cert : Bytes) (chain : List Bytes)
        (ids : Identifiers) (found_item : Option WatchItem)
        → discovered lib asn1 sha256 entry info (cert ∷ chain) ids found_item ≢ panics
    discovered-safe entry info cert chain ids none = λ h. cc
    discovered-safe entry info cert chain ids (some item) = λ h. cc

    module _ (watch_list : List WatchItem) where
      process_certificate-safe :
          (entry : RawEntry) (info : CertInfo lib asn1) (cert : Bytes) (chain : List Bytes)
          → process_certificate lib asn1 sha256 watch_list entry info (cert ∷ chain) ≢ panics
      unfolding process_certificate
      process_certificate-safe entry info cert chain =
          report_of-safe _ (parse_identifiers lib asn1 info) _ (parse_identifiers-Returns info)
            (λ ids _.
              discovered-safe entry info cert chain ids
                (watch_list_matches watch_list ids.dns_names))

      with_reconstructed-safe :
          (entry : RawEntry) (info : CertInfo lib asn1) (cert : Bytes) (chain : List Bytes)
          (tbs : Option TbsCertificate)
          → with_reconstructed lib asn1 sha256 watch_list entry info (cert ∷ chain) tbs ≢ panics
      with_reconstructed-safe entry info cert chain none = λ h. cc
      with_reconstructed-safe entry info cert chain (some tbs) =
          process_certificate-safe entry (record info { tbs = tbs }) cert chain

      process_x509_log_entry-safe :
          (entry : RawEntry) (cert : Bytes)
          → process_x509_log_entry lib asn1 sha256 watch_list entry cert ≢ panics
      unfolding process_x509_log_entry
      process_x509_log_entry-safe entry cert =
          report_of-safe _ _ _ (make_cert_info_from_raw_cert-Returns lib asn1 cert) (λ info _.
            report_of-safe _ _ _ (unmarshal_x509_chain_array-Returns entry.extra_data)
              (λ chain _. with_reconstructed-safe entry info cert chain _))

      process_precert_log_entry-safe :
          (entry : RawEntry) (precert : PreCert)
          → process_precert_log_entry lib asn1 sha256 watch_list entry precert ≢ panics
      unfolding process_precert_log_entry
      process_precert_log_entry-safe entry precert =
          report_of-safe _ _ _
            (make_cert_info_from_raw_tbs-Returns lib asn1 precert.tbs_certificate)
            (λ info _.
              report_of-safe _ _ _ (unmarshal_precert_chain_array-Returns entry.extra_data)
                (λ chain read.
                  with_chain info chain (unmarshal_precert_chain_array-eq_ok _ chain read)))
        where
          with_chain :
              (info : CertInfo lib asn1) (chain : List Bytes)
              → (first : Bytes) × (others : List Bytes) × (chain ≡ first ∷ others)
              → first_certificate lib asn1 sha256 chain (λ first.
                report_of lib asn1 sha256 mismatched_precert
                  (validate_precert_bytes lib asn1 first precert.tbs_certificate)
                  (λ _. process_certificate lib asn1 sha256 watch_list entry info chain))
                ≢ panics
          with_chain info chain (first, others, e) = rw e (
              report_of-safe _ _ _
                (validate_precert_bytes-Returns lib asn1 first precert.tbs_certificate)
                (λ _ _. process_certificate-safe entry info first others))

      by_type-safe :
          (entry : RawEntry) (t : TimestampedEntry)
          → by_type lib asn1 sha256 watch_list entry t ≢ panics
      by_type-safe entry t =
          branch (t.entry_type == x509_log_entry_type) _ _ (process_x509_log_entry-safe entry _) (
            branch (t.entry_type == precert_log_entry_type) _ _
              (process_precert_log_entry-safe entry _) (λ h. cc))
        where
          branch :
              (b : Bool) (r s : Report lib asn1 sha256)
              → r ≢ panics
              → s ≢ panics
              → (if b then r else s) ≢ panics
          branch true r s p q = p
          branch false r s p q = q

      -- No entry of a log, whatever its bytes are, makes `process_log_entry` panic: no read is out of
      -- range, and the chain whose first certificate is looked at has one.
      pub process_log_entry-safe :
          (entry : RawEntry) → process_log_entry lib asn1 sha256 watch_list entry ≢ panics
      unfolding process_log_entry
      process_log_entry-safe entry =
          report_of-safe _ _ _ (read_merkle_tree_leaf-Returns entry.leaf_input)
            (λ (leaf, rest) _. by_type-safe entry leaf.timestamped_entry)
