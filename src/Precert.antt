-- ===== src/Precert.antt =====
-- precerts.go: whether a TBSCertificate is the one of a precertificate, and the TBSCertificate that
-- was signed for an SCT. A certificate is what x509.go has parsed; of an `asn1.RawValue` only
-- `FullBytes` is used. Object identifiers are lists of numbers.
use certspotter.Prelude.{
  ℕ, Bool, true, false, not, ◌&&◌, List, [], ◌∷◌, ◌++◌, Bytes, bytes_equal, Result, ok, err, panic,
  ◌>>=◌, ◌>>◌, if◌then◌else◌, ◌==◌, Option, none, some,
}
use certspotter.X509.Types.{Extension, BitString, TbsCertificate}
pub mod Agreement
pub mod Raw
pub mod Total
mod Tests

-- `aki` is nothing for Go's nil.
pub record PrecertInfo : Type 0 where
  pub same_issuer : Bool
  pub issuer : Bytes
  pub aki : Option Bytes

pub data PrecertError : Type 0 where
  version_differs serial_number_differs signature_algorithm_differs : PrecertError
  validity_differs subject_differs public_key_differs : PrecertError
  unique_id_differs subject_unique_id_differs : PrecertError
  poison_not_critical extension_not_in_tbs different_extensions : PrecertError
  criticality_differs value_differs extension_not_in_precert no_poison : PrecertError

abbrev pub oid_extension_authority_key_id : List ℕ
oid_extension_authority_key_id = 2 ∷ 5 ∷ 29 ∷ 35 ∷ []

abbrev pub oid_extension_sct : List ℕ
oid_extension_sct = 1 ∷ 3 ∷ 6 ∷ 1 ∷ 4 ∷ 1 ∷ 11129 ∷ 2 ∷ 4 ∷ 2 ∷ []

abbrev pub oid_extension_ct_poison : List ℕ
oid_extension_ct_poison = 1 ∷ 3 ∷ 6 ∷ 1 ∷ 4 ∷ 1 ∷ 11129 ∷ 2 ∷ 4 ∷ 3 ∷ []

unfoldable pub bit_string_equal : BitString → BitString → Bool
bit_string_equal a b = (a.bit_length == b.bit_length) && bytes_equal a.bytes b.bytes

unfoldable pub same_bool : Bool → Bool → Bool
same_bool true b = b
same_bool false b = not b

abbrev pub require : Bool → PrecertError → Result PrecertError (Unit {0})
require b e = if not b then err e else ok tt

-- What the loop over the precertificate's extensions ends with: the TBSCertificate's extensions
-- from `tbsIndex` on, whether a poison was met, and the AKI.
pub record LoopState : Type 0 where
  pub rest : List Extension
  pub precert_has_poison : Bool
  pub aki : Option Bytes

unfoldable pub extensions_loop :
    Bool → List Extension → List Extension → Bool → Option Bytes → Result PrecertError LoopState
extensions_loop same_issuer [] tbs_exts poison aki =
    ok (record { rest = tbs_exts; precert_has_poison = poison; aki = aki })
extensions_loop same_issuer (ext ∷ exts) [] poison aki =
    let skipped = extensions_loop same_issuer exts [] true aki in
    if bytes_equal ext.id oid_extension_ct_poison
    then (if not ext.critical then err poison_not_critical else skipped)
    else err extension_not_in_tbs
extensions_loop same_issuer (ext ∷ exts) (tbs_ext ∷ tbs_exts) poison aki =
    let skipped = extensions_loop same_issuer exts (tbs_ext ∷ tbs_exts) true aki in
    let other_aki = extensions_loop same_issuer exts tbs_exts poison (some ext.value) in
    let matched = extensions_loop same_issuer exts tbs_exts poison aki in
    if bytes_equal ext.id oid_extension_ct_poison
    then (if not ext.critical then err poison_not_critical else skipped)
    else if not (bytes_equal ext.id tbs_ext.id)
    then err different_extensions
    else if not (same_bool ext.critical tbs_ext.critical)
    then err criticality_differs
    else if not same_issuer && bytes_equal ext.id oid_extension_authority_key_id
    then other_aki
    else if not (bytes_equal ext.value tbs_ext.value)
    then err value_differs
    else matched

abbrev pub none_left : List Extension → Result PrecertError (Unit {0})
none_left [] = ok tt
none_left (ext ∷ exts) = err extension_not_in_precert

unfoldable pub same_fields : TbsCertificate → TbsCertificate → Result PrecertError (Unit {0})
same_fields precert_tbs tbs = do
  require (precert_tbs.version == tbs.version) version_differs
  require (bytes_equal precert_tbs.serial_number tbs.serial_number) serial_number_differs
  require (bytes_equal precert_tbs.signature_algorithm tbs.signature_algorithm)
      signature_algorithm_differs
  require (bytes_equal precert_tbs.validity tbs.validity) validity_differs
  require (bytes_equal precert_tbs.subject tbs.subject) subject_differs
  require (bytes_equal precert_tbs.public_key tbs.public_key) public_key_differs
  require (bit_string_equal precert_tbs.unique_id tbs.unique_id) unique_id_differs
  require (bit_string_equal precert_tbs.subject_unique_id tbs.subject_unique_id)
      subject_unique_id_differs

-- `ValidatePrecert`, from the parsed certificates on
unfoldable pub validate_precert : TbsCertificate → TbsCertificate → Result PrecertError PrecertInfo
validate_precert precert_tbs tbs =
    let same_issuer = bytes_equal precert_tbs.issuer tbs.issuer in
    do
      same_fields precert_tbs tbs
      state ← extensions_loop same_issuer precert_tbs.extensions tbs.extensions false none
      none_left state.rest
      require state.precert_has_poison no_poison
      ok (record { same_issuer = same_issuer; issuer = precert_tbs.issuer; aki = state.aki })

unfoldable pub without_sct : List Extension → List Extension
without_sct [] = []
without_sct (ext ∷ exts) =
    let rest = without_sct exts in if bytes_equal ext.id oid_extension_sct then rest else ext ∷ rest

-- `ReconstructPrecertTBS`, with the encoder of `asn1.Marshal` as a parameter; it reads every field
-- but `Raw`, which is nil when it runs.
unfoldable pub reconstruct_precert_tbs :
    (TbsCertificate → Option Bytes) → TbsCertificate → Option TbsCertificate
reconstruct_precert_tbs marshal tbs =
    let precert_tbs = record tbs { raw = []; extensions = without_sct tbs.extensions } in
    elim (marshal precert_tbs) [
      | none ↦ none
      | some encoded ↦ some (record precert_tbs { raw = encoded })
    ]
