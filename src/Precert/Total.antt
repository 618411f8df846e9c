-- ===== src/Precert/Total.antt =====
-- The validation of a precertificate never panics.
use certspotter.Prelude.{
  Bool, true, not, ◌&&◌, List, [], ◌∷◌, Bytes, bytes_equal, Result, ok, err, panic, Returns,
  >>=-Returns, if-Returns, ◌>>◌, ◌==◌, false, Option, none, some,
}
use certspotter.Names.Text.{Library}
use certspotter.X509.Types.{Extension, TbsCertificate, Asn1}
use certspotter.X509.Total.{no_rest-Returns}
use certspotter.X509.Parse.{parse_certificate, parse_tbs_certificate}
use certspotter.Precert.{
  PrecertError, require, bit_string_equal, extensions_loop, none_left, same_fields,
  validate_precert, oid_extension_ct_poison, oid_extension_authority_key_id, same_bool,
}
use certspotter.Precert.Raw.{PrecertParseError, as_parse_error, validate_precert_bytes}

require-Returns : (b : Bool) (e : PrecertError) → Returns (require b e)
require-Returns b e = if-Returns (not b) _ _ tt tt

none_left-Returns : (exts : List Extension) → Returns (none_left exts)
none_left-Returns [] = tt
none_left-Returns (ext ∷ exts) = tt

same_fields-Returns : (a b : TbsCertificate) → Returns (same_fields a b)
unfolding same_fields
same_fields-Returns a b = check (a.version == b.version) _ _ (
    check (bytes_equal a.serial_number b.serial_number) _ _ (
      check (bytes_equal a.signature_algorithm b.signature_algorithm) _ _ (
        check (bytes_equal a.validity b.validity) _ _ (
          check (bytes_equal a.subject b.subject) _ _ (
            check (bytes_equal a.public_key b.public_key) _ _ (
              check (bit_string_equal a.unique_id b.unique_id) _ _
                (require-Returns (bit_string_equal a.subject_unique_id b.subject_unique_id) _)))))))
  where
    check :
        (b : Bool) (e : PrecertError) (next : Result PrecertError (Unit {0}))
        → Returns next
        → Returns (require b e >> next)
    check b e next r = >>=-Returns (require b e) (λ _. next) (require-Returns b e) (λ _ _. r)

extensions_loop-Returns :
    (same : Bool) (exts tbs_exts : List Extension) (poison : Bool) (aki : Option Bytes)
    → Returns (extensions_loop same exts tbs_exts poison aki)
unfolding extensions_loop
extensions_loop-Returns same [] tbs_exts poison aki = tt
extensions_loop-Returns same (ext ∷ exts) [] poison aki =
    if-Returns (bytes_equal ext.id oid_extension_ct_poison) _ _
      (if-Returns (not ext.critical) _ _ tt (extensions_loop-Returns same exts [] true aki)) tt
extensions_loop-Returns same (ext ∷ exts) (tbs_ext ∷ tbs_exts) poison aki =
    if-Returns (bytes_equal ext.id oid_extension_ct_poison) _ _
      (if-Returns (not ext.critical) _ _ tt
        (extensions_loop-Returns same exts (tbs_ext ∷ tbs_exts) true aki))
      (if-Returns (not (bytes_equal ext.id tbs_ext.id)) _ _ tt (
        if-Returns (not (same_bool ext.critical tbs_ext.critical)) _ _ tt (
          if-Returns (not same && bytes_equal ext.id oid_extension_authority_key_id) _ _
            (extensions_loop-Returns same exts tbs_exts poison (some ext.value))
            (if-Returns (not (bytes_equal ext.value tbs_ext.value)) _ _ tt
              (extensions_loop-Returns same exts tbs_exts poison aki)))))

validate_precert-Returns : (a b : TbsCertificate) → Returns (validate_precert a b)
unfolding validate_precert
validate_precert-Returns a b =
    let same = bytes_equal a.issuer b.issuer in
    >>=-Returns (same_fields a b) _ (same_fields-Returns a b) (λ _ _.
      >>=-Returns (extensions_loop same a.extensions b.extensions false none) _
        (extensions_loop-Returns same a.extensions b.extensions false none)
        (λ state _. >>=-Returns (none_left state.rest) _ (none_left-Returns state.rest) (λ _ _.
          >>=-Returns (require state.precert_has_poison PrecertError.no_poison) _
            (require-Returns _ _) (λ _ _. tt))))

as_parse_error-Returns {ℓ ν} :
    {A : Type ℓ} {E : Type ν} (f : E → PrecertParseError) (m : Result E A)
    → Returns m
    → Returns (as_parse_error f m)
as_parse_error-Returns f (ok a) r = tt
as_parse_error-Returns f (err e) r = tt
as_parse_error-Returns f panic r = r

pub validate_precert_bytes-Returns :
    (lib : Library) (asn1 : Asn1) (precert tbs : Bytes)
    → Returns (validate_precert_bytes lib asn1 precert tbs)
unfolding validate_precert_bytes parse_certificate parse_tbs_certificate
validate_precert_bytes-Returns lib asn1 precert tbs =
    >>=-Returns _ _ (as_parse_error-Returns _ _ (no_rest-Returns (asn1.certificate precert)))
      (λ cert _.
        >>=-Returns _ _
          (as_parse_error-Returns _ _ (no_rest-Returns (asn1.tbs_certificate cert.tbs_certificate)))
          (λ a _.
            >>=-Returns _ _
              (as_parse_error-Returns _ _ (no_rest-Returns (asn1.tbs_certificate tbs)))
              (λ b _.
                as_parse_error-Returns PrecertParseError.not_equal (validate_precert a b)
                  (validate_precert-Returns a b))))
