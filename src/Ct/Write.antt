-- ===== src/Ct/Write.antt =====
-- The writing half of ct/serialization.go. A `bytes.Buffer` never fails, so a writer is the bytes
-- that it appends.
use certspotter.Prelude.{
  ℕ, zero, suc, ◌/◌, ◌%◌, [], ◌∷◌, ◌++◌, Bytes, Result, ok, err, ◌>>=◌, ◌>>◌, ltb, ◌==◌,
  if◌then◌else◌, length,
}
use certspotter.Ct.Types.{
  CtError, insufficient_num_bytes, zero_length_certificate, certificate_too_large,
  extensions_too_large, DigitallySigned, SignedCertificateTimestamp, SignedTreeHead, LogEntry,
  unknown_version, unknown_leaf_type, unknown_entry_type, invalid_tree_hash_length, v1,
  timestamped_entry_leaf_type, x509_log_entry_type, precert_log_entry_type,
  certificate_timestamp_signature_type, tree_hash_signature_type,
}

abbrev pub certificate_length_bytes : ℕ
certificate_length_bytes = 3

abbrev pub pre_certificate_length_bytes : ℕ
pre_certificate_length_bytes = 3

abbrev pub extensions_length_bytes : ℕ
extensions_length_bytes = 2

abbrev pub certificate_chain_length_bytes : ℕ
certificate_chain_length_bytes = 3

abbrev pub signature_length_bytes : ℕ
signature_length_bytes = 2

abbrev pub max_certificate_length : ℕ
max_certificate_length = 16777215

abbrev pub max_extensions_length : ℕ
max_extensions_length = 65535

-- The loop of `writeUint`: the buffer is filled from its end. What is left of the value is returned.
unfoldable pub fill : ℕ → ℕ → Bytes → ℕ × Bytes
fill zero value buf = (value, buf)
fill (suc i) value buf = fill i (value / 256) ((value % 256) ∷ buf)

unfoldable pub write_uint : ℕ → ℕ → Result CtError Bytes
write_uint value num_bytes =
    let (left, buf) = fill num_bytes value [] in
    if left == 0 then ok buf else err insufficient_num_bytes

unfoldable pub write_var_bytes : Bytes → ℕ → Result CtError Bytes
write_var_bytes value num_len_bytes = do
  header ← write_uint (length value) num_len_bytes
  ok (header ++ value)

-- `binary.Write(_, binary.BigEndian, value)` for an unsigned integer of `width` bytes
unfoldable pub big_endian : ℕ → ℕ → Bytes
big_endian width value = (fill width value []).1

unfoldable pub marshal_digitally_signed : DigitallySigned → Result CtError Bytes
marshal_digitally_signed ds = do
  signature ← write_var_bytes ds.signature signature_length_bytes
  ok (ds.hash_algorithm ∷ ds.signature_algorithm ∷ signature)

unfoldable pub check_certificate_format : Bytes → Result CtError (Unit {0})
check_certificate_format cert =
    if length cert == 0
    then err zero_length_certificate
    else if ltb max_certificate_length (length cert)
    then err certificate_too_large
    else ok tt

unfoldable pub check_extensions_format : Bytes → Result CtError (Unit {0})
check_extensions_format ext =
    if ltb max_extensions_length (length ext) then err extensions_too_large else ok tt

unfoldable pub serialize_v1_cert_sct_signature_input : ℕ → Bytes → Bytes → Result CtError Bytes
serialize_v1_cert_sct_signature_input timestamp cert ext = do
  check_certificate_format cert
  check_extensions_format ext
  cert_bytes ← write_var_bytes cert certificate_length_bytes
  ext_bytes ← write_var_bytes ext extensions_length_bytes
  ok (
      v1
      ∷ certificate_timestamp_signature_type
      ∷ (big_endian 8 timestamp ++ (big_endian 2 x509_log_entry_type ++ (cert_bytes ++ ext_bytes))))

unfoldable pub serialize_v1_precert_sct_signature_input :
    ℕ → Bytes → Bytes → Bytes → Result CtError Bytes
serialize_v1_precert_sct_signature_input timestamp issuer_key_hash tbs ext = do
  check_certificate_format tbs
  check_extensions_format ext
  tbs_bytes ← write_var_bytes tbs certificate_length_bytes
  ext_bytes ← write_var_bytes ext extensions_length_bytes
  ok (
      v1
      ∷ certificate_timestamp_signature_type
      ∷ (big_endian 8 timestamp
          ++ (big_endian 2 precert_log_entry_type
              ++ (issuer_key_hash ++ (tbs_bytes ++ ext_bytes)))))

unfoldable pub serialize_v1_sct_signature_input :
    SignedCertificateTimestamp → LogEntry → Result CtError Bytes
serialize_v1_sct_signature_input sct entry =
    let timestamped = entry.leaf.timestamped_entry in
    if sct.sct_version == v1
    then (if entry.leaf.leaf_type == timestamped_entry_leaf_type
        then (if timestamped.entry_type == x509_log_entry_type
            then serialize_v1_cert_sct_signature_input sct.timestamp timestamped.x509_entry
                timestamped.extensions
            else if timestamped.entry_type == precert_log_entry_type
            then serialize_v1_precert_sct_signature_input sct.timestamp
                timestamped.precert_entry.issuer_key_hash timestamped.precert_entry.tbs_certificate
                timestamped.extensions
            else err (unknown_entry_type timestamped.entry_type))
        else err (unknown_leaf_type entry.leaf.leaf_type))
    else err (unknown_version sct.sct_version)

unfoldable pub serialize_sct_signature_input :
    SignedCertificateTimestamp → LogEntry → Result CtError Bytes
serialize_sct_signature_input sct entry =
    if sct.sct_version == v1
    then serialize_v1_sct_signature_input sct entry
    else err (unknown_version sct.sct_version)

unfoldable pub serialize_v1_sct : SignedCertificateTimestamp → Result CtError Bytes
serialize_v1_sct sct = do
  check_extensions_format sct.extensions
  ext_bytes ← write_var_bytes sct.extensions extensions_length_bytes
  sig ← marshal_digitally_signed sct.signature
  ok (v1 ∷ (sct.log_id ++ (big_endian 8 sct.timestamp ++ (ext_bytes ++ sig))))

unfoldable pub serialize_sct : SignedCertificateTimestamp → Result CtError Bytes
serialize_sct sct =
    if sct.sct_version == v1 then serialize_v1_sct sct else err (unknown_version sct.sct_version)

-- `sth.TreeSize < 0` cannot hold of a uint64.
unfoldable pub serialize_v1_sth_signature_input : SignedTreeHead → Result CtError Bytes
serialize_v1_sth_signature_input sth =
    if sth.version == v1
    then (if length sth.sha256_root_hash == 32
        then ok (
            v1
            ∷ tree_hash_signature_type
            ∷ (big_endian 8 sth.timestamp ++ (big_endian 8 sth.tree_size ++ sth.sha256_root_hash)))
        else err invalid_tree_hash_length)
    else err (unknown_version sth.version)

unfoldable pub serialize_sth_signature_input : SignedTreeHead → Result CtError Bytes
serialize_sth_signature_input sth =
    if sth.version == v1
    then serialize_v1_sth_signature_input sth
    else err (unknown_version sth.version)
