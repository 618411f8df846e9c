-- ===== src/Process.antt =====
-- monitor/process.go: what becomes of a log entry. The notifications are values: what is told to the
-- state provider, and its answer is asked for at the end (`delivered`).
use certspotter.Prelude.{
  ℕ, Bool, true, false, List, [], ◌∷◌, Bytes, Result, ok, err, panic, ◌>>=◌, ◌==◌, if◌then◌else◌,
  Option, none, some,
}
use certspotter.Names.Text.{Library}
use certspotter.Names.Identifiers.{Identifiers}
use certspotter.Names.Certificate.{parse_identifiers}
use certspotter.Names.Watchlist.{WatchItem, watch_list_matches}
use certspotter.X509.Types.{TbsCertificate, Asn1, X509Error}
use certspotter.X509.Info.{CertInfo, make_cert_info_from_raw_cert, make_cert_info_from_raw_tbs}
use certspotter.Precert.{reconstruct_precert_tbs}
use certspotter.Precert.Raw.{PrecertParseError, validate_precert_bytes}
use certspotter.Ct.Types.{
  CtError, TimestampedEntry, MerkleTreeLeaf, PreCert, x509_log_entry_type, precert_log_entry_type,
}
use certspotter.Ct.Read.{
  read_merkle_tree_leaf, unmarshal_x509_chain_array, unmarshal_precert_chain_array,
}
pub mod Complete
pub mod Watched
pub mod Sound
pub mod Total
mod Tests

-- A `LogEntry`, but for the log
pub record RawEntry : Type 0 where
  pub index : ℕ
  pub leaf_input : Bytes
  pub extra_data : Bytes
  pub leaf_hash : Bytes

-- The errors with which an entry is reported as malformed
pub data ParseError : Type 0 where
  parsing_leaf parsing_extra_data : CtError → ParseError
  unknown_log_entry_type : ℕ → ParseError
  parsing_certificate parsing_identifiers : X509Error → ParseError
  mismatched_precert : PrecertParseError → ParseError
  reconstructing : ParseError

module _ (lib : Library) (asn1 : Asn1) (sha256 : Bytes → Bytes) where
  pub record DiscoveredCert : Type 0 where
    pub watch_item : WatchItem
    pub log_entry : RawEntry
    pub info : CertInfo lib asn1
    pub chain : List Bytes
    pub tbs_sha256 : Bytes
    pub sha256_of_cert : Bytes
    pub pubkey_sha256 : Bytes
    pub identifiers : Identifiers

  -- What the state provider is told: nothing, a certificate, or a malformed entry. Go panics where
  -- it indexes an empty chain.
  pub data Report : Type 0 where
    nothing : Report
    found : DiscoveredCert → Report
    malformed : ParseError → Report
    panics : Report

  abbrev pub report_of {ℓ ν} :
      {A : Type ℓ} {E : Type ν} → (E → ParseError) → Result E A → (A → Report) → Report
  report_of f (ok a) next = next a
  report_of f (err e) next = malformed (f e)
  report_of f panic next = panics

  abbrev pub first_certificate : List Bytes → (Bytes → Report) → Report
  first_certificate [] next = panics
  first_certificate (cert ∷ chain) next = next cert

  abbrev pub discovered :
      RawEntry → CertInfo lib asn1 → List Bytes → Identifiers → Option WatchItem → Report
  discovered entry info chain identifiers none = nothing
  discovered entry info chain identifiers (some watch_item) = first_certificate chain (λ cert.
      found (record {
        watch_item = watch_item;
        log_entry = entry;
        info = info;
        chain = chain;
        tbs_sha256 = sha256 info.tbs.raw;
        sha256_of_cert = sha256 cert;
        pubkey_sha256 = sha256 info.tbs.public_key;
        identifiers = identifiers;
      }))

  module _ (watch_list : List WatchItem) where
    unfoldable pub process_certificate : RawEntry → CertInfo lib asn1 → List Bytes → Report
    process_certificate entry info chain =
        report_of parsing_identifiers (parse_identifiers lib asn1 info) (λ identifiers.
          discovered entry info chain identifiers
            (watch_list_matches watch_list identifiers.dns_names))

    abbrev pub with_reconstructed :
        RawEntry → CertInfo lib asn1 → List Bytes → Option TbsCertificate → Report
    with_reconstructed entry info chain none = malformed reconstructing
    with_reconstructed entry info chain (some precert_tbs) =
        process_certificate entry (record info { tbs = precert_tbs }) chain

    unfoldable pub process_x509_log_entry : RawEntry → Bytes → Report
    process_x509_log_entry entry cert =
        report_of parsing_certificate (make_cert_info_from_raw_cert lib asn1 cert) (λ info.
          report_of parsing_extra_data (unmarshal_x509_chain_array entry.extra_data) (λ chain.
            with_reconstructed entry info (cert ∷ chain)
              (reconstruct_precert_tbs asn1.marshal_tbs info.tbs)))

    unfoldable pub process_precert_log_entry : RawEntry → PreCert → Report
    process_precert_log_entry entry precert =
        report_of parsing_certificate (make_cert_info_from_raw_tbs lib asn1 precert.tbs_certificate)
          (λ info.
            report_of parsing_extra_data (unmarshal_precert_chain_array entry.extra_data) (λ chain.
              first_certificate chain (λ first.
                report_of mismatched_precert
                  (validate_precert_bytes lib asn1 first precert.tbs_certificate)
                  (λ _. process_certificate entry info chain))))

    abbrev pub by_type : RawEntry → TimestampedEntry → Report
    by_type entry t =
        if t.entry_type == x509_log_entry_type
        then process_x509_log_entry entry t.x509_entry
        else if t.entry_type == precert_log_entry_type
        then process_precert_log_entry entry t.precert_entry
        else malformed (unknown_log_entry_type t.entry_type)

    unfoldable pub process_log_entry : RawEntry → Report
    process_log_entry entry =
        report_of parsing_leaf (read_merkle_tree_leaf entry.leaf_input)
          (λ (leaf, rest). by_type entry leaf.timestamped_entry)

  -- Whether `processLogEntry` returns no error, by the answers of `NotifyCert` and
  -- `NotifyMalformedEntry`, true for no error.
  abbrev pub delivered : (DiscoveredCert → Bool) → (ParseError → Bool) → Report → Bool
  delivered notify_cert notify_malformed nothing = true
  delivered notify_cert notify_malformed (found cert) = notify_cert cert
  delivered notify_cert notify_malformed (malformed e) = notify_malformed e
  delivered notify_cert notify_malformed panics = false
