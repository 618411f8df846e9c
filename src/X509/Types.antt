-- ===== src/X509/Types.antt =====
-- The structures of x509.go, and the functions of `encoding/asn1` that the repository calls, as a
-- record of parameters. `asn1.Unmarshal` gives the value and the bytes behind it, or an error.
use certspotter.Prelude.{ℕ, ◌<◌, ◌≡◌, Bool, List, [], ◌∷◌, Bytes, Option, some, length}

-- `asn1.RawValue`
pub record RawValue : Type 0 where
  pub class : ℕ
  pub tag : ℕ
  pub is_compound : Bool
  pub bytes : Bytes
  pub full_bytes : Bytes

-- Object identifiers are lists of numbers.
pub record AttributeTypeAndValue : Type 0 where
  pub type : List ℕ
  pub value : RawValue

abbrev pub RdnSequence : Type 0
RdnSequence = List (List AttributeTypeAndValue)

pub record Extension : Type 0 where
  pub id : List ℕ
  pub critical : Bool
  pub value : Bytes

pub record BitString : Type 0 where
  pub bytes : Bytes
  pub bit_length : ℕ

-- Of the raw values in a TBSCertificate or a Certificate only `FullBytes` is used, and stands here.
pub record TbsCertificate : Type 0 where
  pub raw : Bytes
  pub version : ℕ
  pub serial_number : Bytes
  pub signature_algorithm : Bytes
  pub issuer : Bytes
  pub validity : Bytes
  pub subject : Bytes
  pub public_key : Bytes
  pub unique_id : BitString
  pub subject_unique_id : BitString
  pub extensions : List Extension

pub record Certificate : Type 0 where
  pub raw : Bytes
  pub tbs_certificate : Bytes
  pub signature_algorithm : Bytes
  pub signature_value : Bytes

pub record SubjectAltName : Type 0 where
  pub san_type : ℕ
  pub value : Bytes

abbrev pub san_dns_name : ℕ
san_dns_name = 2

abbrev pub san_ip_address : ℕ
san_ip_address = 7

abbrev pub oid_extension_subject_alt_name : List ℕ
oid_extension_subject_alt_name = 2 ∷ 5 ∷ 29 ∷ 17 ∷ []

abbrev pub oid_extension_basic_constraints : List ℕ
oid_extension_basic_constraints = 2 ∷ 5 ∷ 29 ∷ 19 ∷ []

abbrev pub oid_common_name : List ℕ
oid_common_name = 2 ∷ 5 ∷ 4 ∷ 3 ∷ []

abbrev pub Unmarshal : Type 0 → Type 0
Unmarshal A = Bytes → Option (A × Bytes)

pub record Asn1 : Type 1 where
  pub BigInt : Type 0
  pub raw_value : Unmarshal RawValue
  pub rdn_sequence : Unmarshal RdnSequence
  pub tbs_certificate : Unmarshal TbsCertificate
  pub certificate : Unmarshal Certificate
  -- notBefore and notAfter
  pub validity : Unmarshal (RawValue × RawValue)
  -- `IsCA` of the basic constraints
  pub basic_constraints : Unmarshal Bool
  pub big_int : Unmarshal BigInt
  pub bit_string : Unmarshal BitString
  -- `BitString.RightAlign`
  pub right_align : BitString → Bytes
  -- `asn1.Marshal` of a TBSCertificate
  pub marshal_tbs : TbsCertificate → Option Bytes

-- A value takes at least one byte.
abbrev pub Consumes : Asn1 → Type 0
Consumes asn1 =
    (b : Bytes) (value : RawValue) (rest : Bytes)
    → Asn1.raw_value asn1 b ≡ some (value, rest)
    → length rest < length b

pub data TimeError : Type 0 where
  too_short invalid_integer offset_too_short fraction_too_short trailing_garbage : TimeError
  not_a_time : TimeError

pub data X509Error : Type 0 where
  -- `failed to parse ...` and `trailing data after ...`
  malformed trailing_data : X509Error
  malformed_utf8_string not_a_string : X509Error
  bad_san_sequence : X509Error
  contradictory_constraints : X509Error
  unknown_entry_type : X509Error
  time_error : TimeError → X509Error
  -- The fuel of a loop of this model ran out; no run ends with it.
  out_of_fuel : X509Error
