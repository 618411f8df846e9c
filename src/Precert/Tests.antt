-- ===== src/Precert/Tests.antt =====
-- The theorems on precertificates at a small one.
use certspotter.Prelude.{◌≡◌, refl, true, false, List, [], ◌∷◌, bytes_equal, ok, none}
use certspotter.X509.Types.{Extension, TbsCertificate}
use certspotter.Precert.{
  PrecertInfo, oid_extension_ct_poison, oid_extension_authority_key_id, validate_precert,
  same_fields, bit_string_equal, extensions_loop, same_bool,
}
use certspotter.Precert.Agreement.{
  HasPoison, AllAgree, without_poison, validate_precert-agrees, validate_precert-same_issuer,
}

abbrev key_id : Extension
key_id = record { id = oid_extension_authority_key_id; critical = false; value = 1 ∷ [] }

abbrev poison : Extension
poison = record { id = oid_extension_ct_poison; critical = true; value = 5 ∷ 0 ∷ [] }

abbrev certificate : List Extension → TbsCertificate
certificate exts = record {
  raw = [];
  version = 2;
  serial_number = 1 ∷ [];
  signature_algorithm = 2 ∷ [];
  issuer = 3 ∷ [];
  validity = 4 ∷ [];
  subject = 5 ∷ [];
  public_key = 6 ∷ [];
  unique_id = record { bytes = []; bit_length = 0 };
  subject_unique_id = record { bytes = []; bit_length = 0 };
  extensions = exts;
}

abbrev information : PrecertInfo
information = record { same_issuer = true; issuer = 3 ∷ []; aki = none }

accepted :
    validate_precert (certificate (poison ∷ key_id ∷ [])) (certificate (key_id ∷ []))
    ≡ ok information
unfolding validate_precert same_fields bit_string_equal extensions_loop same_bool
accepted = refl

validate_precert-agrees_example :
    (true ≡ bytes_equal (3 ∷ []) (3 ∷ []))
    × HasPoison (poison ∷ key_id ∷ [])
    × AllAgree true (without_poison (poison ∷ key_id ∷ [])) (key_id ∷ [])
validate_precert-agrees_example =
    validate_precert-agrees (certificate (poison ∷ key_id ∷ [])) (certificate (key_id ∷ []))
      information accepted

validate_precert-same_issuer_example :
    certificate (key_id ∷ []) ≡ certificate (without_poison (poison ∷ key_id ∷ []))
validate_precert-same_issuer_example =
    validate_precert-same_issuer (certificate (poison ∷ key_id ∷ [])) (certificate (key_id ∷ []))
      information accepted refl
