-- ===== src/X509/Info.antt =====
-- helpers.go: a `CertInfo` has what could be parsed of a certificate, and the errors of what could not.
use certspotter.Prelude.{
  Bool, true, false, List, [], ◌∷◌, Bytes, Result, ok, err, panic, ◌>>=◌, ◌==◌, if◌then◌else◌,
  Option, none, some,
}
use certspotter.Names.Text.{Library}
use certspotter.X509.Types.{
  RdnSequence, TbsCertificate, SubjectAltName, Asn1, X509Error, unknown_entry_type,
}
use certspotter.X509.Time.{Time}
use certspotter.X509.Parse.{
  parse_subject, parse_issuer, parse_subject_alt_names, parse_serial_number, parse_validity,
  parse_basic_constraints, parse_tbs_certificate, parse_certificate, get_extension,
}
use certspotter.Precert.{oid_extension_ct_poison}
use certspotter.Ct.Types.{LogEntry, x509_log_entry_type, precert_log_entry_type}

-- `value, err := f()`: the value is `zero_value` if there is an error.
abbrev pub value_and_error :
    {A : Type 0} → A → Result X509Error A → Result X509Error (A × Option X509Error)
value_and_error zero_value (ok a) = ok (a, none)
value_and_error zero_value (err e) = ok (zero_value, some e)
value_and_error zero_value panic = panic

abbrev pub pointer : {A : Type 0} → Result X509Error A → Result X509Error (Option A)
pointer (ok a) = ok (some a)
pointer (err e) = err e
pointer panic = panic

abbrev is_some_list : {A : Type 0} → List A → Bool
is_some_list [] = false
is_some_list (a ∷ rest) = true

module _ (lib : Library) (asn1 : Asn1) where
  pub record CertInfo : Type 0 where
    pub tbs : TbsCertificate
    pub subject : RdnSequence
    pub subject_parse_error : Option X509Error
    pub issuer : RdnSequence
    pub issuer_parse_error : Option X509Error
    pub sans : List SubjectAltName
    pub sans_parse_error : Option X509Error
    pub serial_number : Option asn1.BigInt
    pub serial_number_parse_error : Option X509Error
    pub validity : Option (Time × Time)
    pub validity_parse_error : Option X509Error
    pub is_ca : Option Bool
    pub is_ca_parse_error : Option X509Error
    pub is_pre_cert : Bool

  unfoldable pub make_cert_info_from_tbs : TbsCertificate → Result X509Error CertInfo
  make_cert_info_from_tbs tbs = do
    (subject, subject_error) ← value_and_error [] (parse_subject lib asn1 tbs)
    (issuer, issuer_error) ← value_and_error [] (parse_issuer lib asn1 tbs)
    (sans, sans_error) ← value_and_error [] (parse_subject_alt_names lib asn1 tbs)
    (serial, serial_error) ← value_and_error none (pointer (parse_serial_number lib asn1 tbs))
    (validity, validity_error) ← value_and_error none (pointer (parse_validity lib asn1 tbs))
    (is_ca, is_ca_error) ← value_and_error none (parse_basic_constraints lib asn1 tbs)
    ok (record {
      tbs = tbs;
      subject = subject;
      subject_parse_error = subject_error;
      issuer = issuer;
      issuer_parse_error = issuer_error;
      sans = sans;
      sans_parse_error = sans_error;
      serial_number = serial;
      serial_number_parse_error = serial_error;
      validity = validity;
      validity_parse_error = validity_error;
      is_ca = is_ca;
      is_ca_parse_error = is_ca_error;
      is_pre_cert = is_some_list (get_extension oid_extension_ct_poison tbs.extensions);
    })

  unfoldable pub make_cert_info_from_raw_tbs : Bytes → Result X509Error CertInfo
  make_cert_info_from_raw_tbs b = parse_tbs_certificate lib asn1 b >>= make_cert_info_from_tbs

  unfoldable pub make_cert_info_from_raw_cert : Bytes → Result X509Error CertInfo
  make_cert_info_from_raw_cert b =
      parse_certificate lib asn1 b >>= λ cert. make_cert_info_from_raw_tbs cert.tbs_certificate

  -- Other entry types are an error.
  unfoldable pub make_cert_info_from_log_entry : LogEntry → Result X509Error CertInfo
  make_cert_info_from_log_entry entry =
      let t = entry.leaf.timestamped_entry in
      if t.entry_type == x509_log_entry_type
      then make_cert_info_from_raw_cert t.x509_entry
      else if t.entry_type == precert_log_entry_type
      then make_cert_info_from_raw_tbs t.precert_entry.tbs_certificate
      else err unknown_entry_type

unfoldable pub is_precert : LogEntry → Bool
is_precert entry = entry.leaf.timestamped_entry.entry_type == precert_log_entry_type
