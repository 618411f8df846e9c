-- ===== src/X509/Parse.antt =====
-- x509.go: what is parsed of a certificate.
use certspotter.Prelude.{
  ℕ, zero, suc, Bool, true, false, not, ◌||◌, List, [], ◌∷◌, ◌++◌, Bytes, bytes_equal, Result, ok,
  err, panic, ◌>>=◌, ◌==◌, if◌then◌else◌, length, Option, none, some,
}
use certspotter.Names.Text.{Library}
use certspotter.X509.Types.{
  RawValue, TimeError, RdnSequence, Extension, TbsCertificate, Certificate, SubjectAltName, Asn1,
  oid_extension_subject_alt_name, oid_extension_basic_constraints, oid_common_name, X509Error,
  malformed, trailing_data, bad_san_sequence, contradictory_constraints, time_error, out_of_fuel,
}
use certspotter.X509.Strings.{decode_asn1_string}
use certspotter.X509.Time.{Time, decode_asn1_time}

-- `asn1.Unmarshal`, with an error too when bytes are left.
abbrev pub no_rest : {A : Type 0} → Option (A × Bytes) → Result X509Error A
no_rest none = err malformed
no_rest (some (a, [])) = ok a
no_rest (some (a, b ∷ rest)) = err trailing_data

abbrev pub decoded_time : Result TimeError Time → Result X509Error Time
decoded_time (ok t) = ok t
decoded_time (err e) = err (time_error e)
decoded_time panic = panic

unfoldable pub get_extension : List ℕ → List Extension → List Extension
get_extension id [] = []
get_extension id (ext ∷ exts) =
    let rest = get_extension id exts in if bytes_equal ext.id id then ext ∷ rest else rest

-- Exactly one zero byte is let pass behind a subjectAltName extension.
abbrev pub sans_sequence : Option (RawValue × Bytes) → Result X509Error RawValue
sans_sequence none = err malformed
sans_sequence (some (seq, [])) = ok seq
sans_sequence (some (seq, b ∷ [])) = if b == 0 then ok seq else err trailing_data
sans_sequence (some (seq, b ∷ c ∷ rest)) = err trailing_data

abbrev pub constraints_result : Bool × Bool → Result X509Error (Option Bool)
constraints_result (false, false) = ok none
constraints_result (true, false) = ok (some true)
constraints_result (false, true) = ok (some false)
constraints_result (true, true) = err contradictory_constraints

module _ (lib : Library) (asn1 : Asn1) where
  unfoldable pub parse_rdn_sequence : Bytes → Result X509Error RdnSequence
  parse_rdn_sequence b = no_rest (asn1.rdn_sequence b)

  -- Only the first attribute of each RDN is looked at.
  unfoldable pub parse_cns : RdnSequence → Result X509Error (List Bytes)
  parse_cns [] = ok []
  parse_cns ([] ∷ rdns) = parse_cns rdns
  parse_cns ((atv ∷ atvs) ∷ rdns) =
      let rest = parse_cns rdns in
      let with_cn = decode_asn1_string lib atv.value >>= λ cn. rest >>= λ cns. ok (cn ∷ cns) in
      if bytes_equal atv.type oid_common_name then with_cn else rest

  unfoldable pub parse_tbs_certificate : Bytes → Result X509Error TbsCertificate
  parse_tbs_certificate b = no_rest (asn1.tbs_certificate b)

  unfoldable pub parse_certificate : Bytes → Result X509Error Certificate
  parse_certificate b = no_rest (asn1.certificate b)

  unfoldable pub parse_subject : TbsCertificate → Result X509Error RdnSequence
  parse_subject tbs = parse_rdn_sequence tbs.subject

  unfoldable pub parse_issuer : TbsCertificate → Result X509Error RdnSequence
  parse_issuer tbs = parse_rdn_sequence tbs.issuer

  unfoldable pub parse_subject_common_names : TbsCertificate → Result X509Error (List Bytes)
  parse_subject_common_names tbs = parse_subject tbs >>= parse_cns

  unfoldable pub parse_serial_number : TbsCertificate → Result X509Error asn1.BigInt
  parse_serial_number tbs = no_rest (asn1.big_int tbs.serial_number)

  unfoldable pub parse_signature_value : Certificate → Result X509Error Bytes
  parse_signature_value cert =
      no_rest (asn1.bit_string cert.signature_value) >>= λ value. ok (asn1.right_align value)

  unfoldable pub parse_validity : TbsCertificate → Result X509Error (Time × Time)
  parse_validity tbs = do
    (not_before, not_after) ← no_rest (asn1.validity tbs.validity)
    begin ← decoded_time (decode_asn1_time not_before)
    end ← decoded_time (decode_asn1_time not_after)
    ok (begin, end)

  -- The loop of `ParseBasicConstraints`: whether some extension says CA, and whether one says not.
  unfoldable pub constraints_loop : List Extension → Bool → Bool → Result X509Error (Bool × Bool)
  constraints_loop [] is_ca is_not_ca = ok (is_ca, is_not_ca)
  constraints_loop (ext ∷ exts) is_ca is_not_ca =
      no_rest (asn1.basic_constraints ext.value) >>= λ ca.
      constraints_loop exts (ca || is_ca) (not ca || is_not_ca)

  unfoldable pub parse_basic_constraints : TbsCertificate → Result X509Error (Option Bool)
  parse_basic_constraints tbs =
      constraints_loop (get_extension oid_extension_basic_constraints tbs.extensions) false false
      >>= constraints_result

  -- The loop over the items of a subjectAltName extension
  abbrev pub san_of : RawValue → SubjectAltName
  san_of value = record { san_type = value.tag; value = value.bytes }

  unfoldable pub sans_loop :
      ℕ → List SubjectAltName → Bytes → Result X509Error (List SubjectAltName)
  sans_loop fuel sans [] = ok sans
  sans_loop zero sans (b ∷ bs) = err out_of_fuel
  sans_loop (suc fuel) sans (b ∷ bs) = elim (asn1.raw_value (b ∷ bs)) [
    | none ↦ err malformed
    | some item ↦ sans_loop fuel (sans ++ (san_of item.0 ∷ [])) item.1
  ]

  unfoldable pub parse_san_extension :
      List SubjectAltName → Bytes → Result X509Error (List SubjectAltName)
  parse_san_extension sans value = do
    seq ← sans_sequence (asn1.raw_value value)
    if not seq.is_compound || not (seq.tag == 16) || not (seq.class == 0)
        then err bad_san_sequence
        else sans_loop (length seq.bytes) sans seq.bytes

  unfoldable pub sans_of_extensions :
      List SubjectAltName → List Extension → Result X509Error (List SubjectAltName)
  sans_of_extensions sans [] = ok sans
  sans_of_extensions sans (ext ∷ exts) =
      parse_san_extension sans ext.value >>= λ more. sans_of_extensions more exts

  unfoldable pub parse_subject_alt_names : TbsCertificate → Result X509Error (List SubjectAltName)
  parse_subject_alt_names tbs =
      sans_of_extensions [] (get_extension oid_extension_subject_alt_name tbs.extensions)
