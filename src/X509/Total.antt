-- ===== src/X509/Total.antt =====
-- The parsing of a certificate never panics.
use certspotter.Prelude.{
  ℕ, zero, suc, ◌≡◌, Bool, true, false, not, ◌&&◌, ◌||◌, List, [], ◌∷◌, ◌++◌, Bytes, bytes_equal,
  Result, ok, err, panic, ◌>>=◌, Returns, >>=-Returns, if-Returns, ◌==◌, Option, none, some, length,
}
use certspotter.Names.Text.{Library}
use certspotter.X509.Types.{
  RawValue, RdnSequence, Extension, TbsCertificate, SubjectAltName, Asn1, X509Error, TimeError,
  malformed, oid_common_name,
}
use certspotter.X509.Time.{Time, decode_asn1_time}
use certspotter.X509.Time.Slices.{decode_asn1_time-Returns}
use certspotter.X509.Strings.{is_byte_string_tag, decode_asn1_string}
use certspotter.X509.Parse.{
  no_rest, decoded_time, sans_sequence, parse_rdn_sequence, parse_cns, parse_tbs_certificate,
  parse_certificate, parse_subject, parse_issuer, parse_serial_number, parse_validity,
  constraints_loop, constraints_result, parse_basic_constraints, san_of, sans_loop,
  parse_san_extension, sans_of_extensions, parse_subject_alt_names,
}
use certspotter.X509.Info.{
  value_and_error, pointer, make_cert_info_from_tbs, make_cert_info_from_raw_tbs,
  make_cert_info_from_raw_cert,
}

pub no_rest-Returns : {A : Type 0} (o : Option (A × Bytes)) → Returns (no_rest o)
no_rest-Returns none = tt
no_rest-Returns (some (a, [])) = tt
no_rest-Returns (some (a, b ∷ rest)) = tt

decoded_time-Returns : (m : Result TimeError Time) → Returns m → Returns (decoded_time m)
decoded_time-Returns (ok t) h = tt
decoded_time-Returns (err e) h = tt
decoded_time-Returns panic h = h

sans_sequence-Returns : (o : Option (RawValue × Bytes)) → Returns (sans_sequence o)
sans_sequence-Returns none = tt
sans_sequence-Returns (some (seq, [])) = tt
sans_sequence-Returns (some (seq, b ∷ [])) = if-Returns (b == 0) _ _ tt tt
sans_sequence-Returns (some (seq, b ∷ c ∷ rest)) = tt

value_and_error-Returns :
    {A : Type 0} (zero_value : A) (m : Result X509Error A)
    → Returns m
    → Returns (value_and_error zero_value m)
value_and_error-Returns z (ok a) h = tt
value_and_error-Returns z (err e) h = tt
value_and_error-Returns z panic h = h

pointer-Returns : {A : Type 0} (m : Result X509Error A) → Returns m → Returns (pointer m)
pointer-Returns (ok a) h = tt
pointer-Returns (err e) h = tt
pointer-Returns panic h = h

constraints_result-Returns : (p : Bool × Bool) → Returns (constraints_result p)
constraints_result-Returns (false, false) = tt
constraints_result-Returns (true, false) = tt
constraints_result-Returns (false, true) = tt
constraints_result-Returns (true, true) = tt

module _ (lib : Library) (asn1 : Asn1) where
  decode_asn1_string-Returns : (value : RawValue) → Returns (decode_asn1_string lib value)
  unfolding decode_asn1_string
  decode_asn1_string-Returns value =
      if-Returns (not value.is_compound && (value.class == 0)) _ _
        (if-Returns (value.tag == 12) _ _ (if-Returns (not (lib.valid_utf8 value.bytes)) _ _ tt tt)
          (if-Returns (is_byte_string_tag value.tag) _ _ tt
            (if-Returns (value.tag == 30) _ _ tt (if-Returns (value.tag == 28) _ _ tt tt))))
        tt

  pub parse_cns-Returns : (rdns : RdnSequence) → Returns (parse_cns lib asn1 rdns)
  unfolding parse_cns
  parse_cns-Returns [] = tt
  parse_cns-Returns ([] ∷ rdns) = parse_cns-Returns rdns
  parse_cns-Returns ((atv ∷ atvs) ∷ rdns) =
      if-Returns (bytes_equal atv.type oid_common_name) _ _
        (>>=-Returns (decode_asn1_string lib atv.value) _ (decode_asn1_string-Returns atv.value)
          (λ cn e. >>=-Returns (parse_cns lib asn1 rdns) _ (parse_cns-Returns rdns) (λ cns e'. tt)))
        (parse_cns-Returns rdns)

  sans_loop-Returns :
      (fuel : ℕ) (sans : List SubjectAltName) (b : Bytes) → Returns (sans_loop lib asn1 fuel sans b)
  unfolding sans_loop
  sans_loop-Returns fuel sans [] = tt
  sans_loop-Returns zero sans (b ∷ bs) = tt
  sans_loop-Returns (suc fuel) sans (b ∷ bs) =
      next (λ more rest. sans_loop-Returns fuel more rest) (asn1.raw_value (b ∷ bs))
    where
      next :
          ((more : List SubjectAltName) (rest : Bytes)
            → Returns (sans_loop lib asn1 fuel more rest))
          → (o : Option (RawValue × Bytes))
          → Returns (elim o [
            | none ↦ err malformed
            | some item ↦ sans_loop lib asn1 fuel (sans ++ (san_of lib asn1 item.0 ∷ [])) item.1
          ])
      next later none = tt
      next later (some item) = later _ item.1

  parse_san_extension-Returns :
      (sans : List SubjectAltName) (b : Bytes) → Returns (parse_san_extension lib asn1 sans b)
  unfolding parse_san_extension
  parse_san_extension-Returns sans b =
      >>=-Returns (sans_sequence (asn1.raw_value b)) _ (sans_sequence-Returns (asn1.raw_value b))
        (λ seq e.
          if-Returns (not seq.is_compound || not (seq.tag == 16) || not (seq.class == 0)) _ _ tt
            (sans_loop-Returns (length seq.bytes) sans seq.bytes))

  sans_of_extensions-Returns :
      (sans : List SubjectAltName) (exts : List Extension)
      → Returns (sans_of_extensions lib asn1 sans exts)
  unfolding sans_of_extensions
  sans_of_extensions-Returns sans [] = tt
  sans_of_extensions-Returns sans (ext ∷ exts) =
      >>=-Returns (parse_san_extension lib asn1 sans ext.value) _
        (parse_san_extension-Returns sans ext.value)
        (λ more e. sans_of_extensions-Returns more exts)

  constraints_loop-Returns :
      (exts : List Extension) (a b : Bool) → Returns (constraints_loop lib asn1 exts a b)
  unfolding constraints_loop
  constraints_loop-Returns [] a b = tt
  constraints_loop-Returns (ext ∷ exts) a b =
      >>=-Returns (no_rest (asn1.basic_constraints ext.value)) _
        (no_rest-Returns (asn1.basic_constraints ext.value))
        (λ ca e. constraints_loop-Returns exts _ _)

  parse_validity-Returns : (tbs : TbsCertificate) → Returns (parse_validity lib asn1 tbs)
  unfolding parse_validity
  parse_validity-Returns tbs =
      >>=-Returns (no_rest (asn1.validity tbs.validity)) _
        (no_rest-Returns (asn1.validity tbs.validity))
        (λ (begin, end) e.
          >>=-Returns (decoded_time (decode_asn1_time begin)) _
            (decoded_time-Returns (decode_asn1_time begin) (decode_asn1_time-Returns begin))
            (λ t e'.
              >>=-Returns (decoded_time (decode_asn1_time end)) _
                (decoded_time-Returns (decode_asn1_time end) (decode_asn1_time-Returns end))
                (λ t' e''. tt)))

  make_cert_info_from_tbs-Returns :
      (tbs : TbsCertificate) → Returns (make_cert_info_from_tbs lib asn1 tbs)
  unfolding make_cert_info_from_tbs parse_subject parse_issuer parse_rdn_sequence
      parse_subject_alt_names parse_serial_number parse_basic_constraints
  make_cert_info_from_tbs-Returns tbs =
      field [] _ _ (no_rest-Returns (asn1.rdn_sequence tbs.subject)) (λ subject e1.
        field [] _ _ (no_rest-Returns (asn1.rdn_sequence tbs.issuer)) (λ issuer e2.
          field [] _ _ (sans_of_extensions-Returns [] _) (λ sans e3.
            field none _ _ (pointer-Returns _ (no_rest-Returns (asn1.big_int tbs.serial_number)))
              (λ serial e4.
                field none _ _ (pointer-Returns _ (parse_validity-Returns tbs)) (λ validity e5.
                  field none _ _
                    (>>=-Returns _ _ (constraints_loop-Returns _ false false)
                      (λ p e. constraints_result-Returns p))
                    (λ is_ca e6. tt))))))
    where
      field :
          {A B : Type 0} (z : A) (m : Result X509Error A)
          (next : A × Option X509Error → Result X509Error B)
          → Returns m
          → ((a : A × Option X509Error) → value_and_error z m ≡ ok a → Returns (next a))
          → Returns (value_and_error z m >>= next)
      field z m next r s = >>=-Returns (value_and_error z m) next (value_and_error-Returns z m r) s

  pub make_cert_info_from_raw_tbs-Returns :
      (b : Bytes) → Returns (make_cert_info_from_raw_tbs lib asn1 b)
  unfolding make_cert_info_from_raw_tbs parse_tbs_certificate
  make_cert_info_from_raw_tbs-Returns b =
      >>=-Returns (no_rest (asn1.tbs_certificate b)) _ (no_rest-Returns (asn1.tbs_certificate b))
        (λ tbs e. make_cert_info_from_tbs-Returns tbs)

  pub make_cert_info_from_raw_cert-Returns :
      (b : Bytes) → Returns (make_cert_info_from_raw_cert lib asn1 b)
  unfolding make_cert_info_from_raw_cert parse_certificate
  make_cert_info_from_raw_cert-Returns b =
      >>=-Returns (no_rest (asn1.certificate b)) _ (no_rest-Returns (asn1.certificate b))
        (λ cert e. make_cert_info_from_raw_tbs-Returns cert.tbs_certificate)
