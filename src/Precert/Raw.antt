-- ===== src/Precert/Raw.antt =====
-- `ValidatePrecert` of precerts.go on the bytes of the certificates.
use certspotter.Prelude.{Bytes, Result, ok, err, panic, ◌>>=◌}
use certspotter.Names.Text.{Library}
use certspotter.X509.Types.{Asn1, X509Error}
use certspotter.X509.Parse.{parse_certificate, parse_tbs_certificate}
use certspotter.Precert.{PrecertError, PrecertInfo, validate_precert}

pub data PrecertParseError : Type 0 where
  unparsed : X509Error → PrecertParseError
  not_equal : PrecertError → PrecertParseError

abbrev pub as_parse_error {ℓ ν} :
    {A : Type ℓ} {E : Type ν} → (E → PrecertParseError) → Result E A → Result PrecertParseError A
as_parse_error f (ok a) = ok a
as_parse_error f (err e) = err (f e)
as_parse_error f panic = panic

module _ (lib : Library) (asn1 : Asn1) where
  unfoldable pub validate_precert_bytes : Bytes → Bytes → Result PrecertParseError PrecertInfo
  validate_precert_bytes precert_bytes tbs_bytes = do
    precert ← as_parse_error unparsed (parse_certificate lib asn1 precert_bytes)
    precert_tbs ← as_parse_error unparsed (parse_tbs_certificate lib asn1 precert.tbs_certificate)
    tbs ← as_parse_error unparsed (parse_tbs_certificate lib asn1 tbs_bytes)
    as_parse_error not_equal (validate_precert precert_tbs tbs)
