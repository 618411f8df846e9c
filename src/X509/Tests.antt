-- ===== src/X509/Tests.antt =====
-- The theorems on the parsing of certificates at small inputs, with the instance of `X509.Sample`.
use certspotter.Prelude.{
  ℕ, suc, ◌<◌, ◌≡◌, ◌≢◌, refl, false, [], ◌∷◌, Bytes, ok, err, Returns, Option, none, some, length,
  arith, subst,
}
use certspotter.Ct.Read.{split_bytes}
use certspotter.Ct.List.{split_bytes-shorter}
use certspotter.Names.Sample.{simple}
use certspotter.X509.Types.{RawValue, Consumes, out_of_fuel}
use certspotter.X509.Parse.{parse_subject_alt_names}
use certspotter.X509.Ends.{parse_subject_alt_names_ends}
use certspotter.X509.Sample.{value_of, sample_asn1, sample_value, sample_tbs, a_com_cert}
use certspotter.X509.Time.{decode_asn1_time, parse_utc_time}
use certspotter.X509.Time.Slices.{decode_asn1_time-Returns}
use certspotter.X509.Time.Printed.{two, day_and_time, utc_time_of, parse_utc_time-two}
use certspotter.X509.Canonical.{canonicalize_rdn_string}
use certspotter.X509.Canonical.Words.{words_from, join_words, canonicalize_rdn_string-eq_words}

-- A UTCTime that ends behind the first digit of its seconds
abbrev cut_time : RawValue
cut_time = record {
  class = 0;
  tag = 23;
  is_compound = false;
  bytes = two 24 (two 1 (two 31 (two 12 (two 30 (b'5' ∷ [])))));
  full_bytes = [];
}

decode_asn1_time-Returns_example : Returns (decode_asn1_time cut_time)
decode_asn1_time-Returns_example = decode_asn1_time-Returns cut_time

parse_utc_time-two_example :
    parse_utc_time (two 49 (day_and_time 12 31 23 59 58)) ≡ ok (utc_time_of 2049 12 31 23 59 58)
parse_utc_time-two_example =
    parse_utc_time-two 12 31 23 59 58 (omega arith) (omega arith) (omega arith) (omega arith)
      (omega arith) 2049 (omega arith) (omega arith)

-- " A\t b "
abbrev spaced_name : Bytes
spaced_name = b' ' ∷ b'A' ∷ 9 ∷ b' ' ∷ b'b' ∷ b' ' ∷ []

canonicalize_rdn_string-eq_words_example :
    canonicalize_rdn_string spaced_name ≡ join_words (words_from [] spaced_name)
canonicalize_rdn_string-eq_words_example = canonicalize_rdn_string-eq_words spaced_name

value_of-shorter :
    (t n : ℕ) (b : Bytes) (o : Option (Bytes × Bytes)) (value : RawValue) (rest : Bytes)
    → split_bytes n b ≡ o
    → value_of t n o ≡ some (value, rest)
    → length rest < suc (suc (length b))
value_of-shorter t n b none value rest e h = cc
value_of-shorter t n b (some (front, back)) value rest e h =
    let shorter = split_bytes-shorter n b front back e in
    let same : back ≡ rest = cc in subst (λ r. length r < suc (suc (length b))) same (omega arith)

sample_consumes : Consumes sample_asn1
unfolding sample_value
sample_consumes [] value rest e = cc
sample_consumes (t ∷ []) value rest e = cc
sample_consumes (t ∷ n ∷ b) value rest e =
    value_of-shorter t n b (split_bytes n b) value rest refl e

parse_subject_alt_names_ends_example :
    parse_subject_alt_names simple sample_asn1 (sample_tbs a_com_cert) ≢ err out_of_fuel
parse_subject_alt_names_ends_example =
    parse_subject_alt_names_ends simple sample_asn1 sample_consumes (sample_tbs a_com_cert)
