-- ===== src/X509/Sample.antt =====
-- A concrete instance of what the parsing rests on, for examples: values with a one-byte tag and
-- length, and certificates that are nothing but their subjectAltName extension.
use certspotter.Prelude.{ℕ, false, [], ◌∷◌, Bytes, ◌==◌, ◌/◌, ◌%◌, Option, none, some}
use certspotter.Ct.Read.{split_bytes}
use certspotter.Names.Sample.{simple, a_com}
use certspotter.X509.Types.{
  RawValue, TbsCertificate, Asn1, malformed, oid_extension_subject_alt_name,
}
use certspotter.X509.Info.{CertInfo}

abbrev pub value_of : ℕ → ℕ → Option (Bytes × Bytes) → Option (RawValue × Bytes)
value_of t n none = none
value_of t n (some (bytes, rest)) = some (
  record {
    class = t / 64;
    tag = t % 32;
    is_compound = t / 32 % 2 == 1;
    bytes = bytes;
    full_bytes = t ∷ n ∷ bytes;
  },
  rest,
)

unfoldable pub sample_value : Bytes → Option (RawValue × Bytes)
sample_value [] = none
sample_value (t ∷ []) = none
sample_value (t ∷ n ∷ b) = value_of t n (split_bytes n b)

abbrev pub sample_tbs : Bytes → TbsCertificate
sample_tbs b = record {
  raw = b;
  version = 2;
  serial_number = [];
  signature_algorithm = [];
  issuer = [];
  validity = [];
  subject = [];
  public_key = [];
  unique_id = record { bytes = []; bit_length = 0 };
  subject_unique_id = record { bytes = []; bit_length = 0 };
  extensions = (record { id = oid_extension_subject_alt_name; critical = false; value = b }) ∷ [];
}

abbrev pub sample_asn1 : Asn1
sample_asn1 = record {
  BigInt = ℕ;
  raw_value = sample_value;
  rdn_sequence = λ b. some ([], []);
  tbs_certificate = λ b. some (sample_tbs b, []);
  certificate = λ b.
      some (
        record { raw = b; tbs_certificate = b; signature_algorithm = []; signature_value = [] },
        [],
      );
  validity = λ b. none;
  basic_constraints = λ b. none;
  big_int = λ b. some (0, []);
  bit_string = λ b. none;
  right_align = λ value. value.bytes;
  marshal_tbs = λ tbs. some [];
}

-- The DNS name "a.com" in a sequence
abbrev pub a_com_cert : Bytes
a_com_cert = 48 ∷ 7 ∷ 130 ∷ 5 ∷ a_com

abbrev pub a_com_info : CertInfo simple sample_asn1
a_com_info = record {
  tbs = sample_tbs a_com_cert;
  subject = [];
  subject_parse_error = none;
  issuer = [];
  issuer_parse_error = none;
  sans = (record { san_type = 2; value = a_com }) ∷ [];
  sans_parse_error = none;
  serial_number = some 0;
  serial_number_parse_error = none;
  validity = none;
  validity_parse_error = some malformed;
  is_ca = none;
  is_ca_parse_error = none;
  is_pre_cert = false;
}
