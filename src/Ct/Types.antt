-- ===== src/Ct/Types.antt =====
-- ct/types.go: the structures of RFC 6962. Byte slices and byte arrays are lists of numbers below
-- 256; the enumerations stay the numbers that the wire has. `CtError` names the error returns of
-- ct/serialization.go and ct/signatures.go.
use certspotter.Prelude.{ℕ, ℤ, List, Bytes, replicate}

abbrev pub issuer_key_hash_length : ℕ
issuer_key_hash_length = 32

abbrev pub x509_log_entry_type : ℕ
x509_log_entry_type = 0

abbrev pub precert_log_entry_type : ℕ
precert_log_entry_type = 1

abbrev pub timestamped_entry_leaf_type : ℕ
timestamped_entry_leaf_type = 0

abbrev pub v1 : ℕ
v1 = 0

abbrev pub certificate_timestamp_signature_type : ℕ
certificate_timestamp_signature_type = 0

abbrev pub tree_hash_signature_type : ℕ
tree_hash_signature_type = 1

-- HashAlgorithm: None, MD5, SHA1, SHA224, SHA256, SHA384, SHA512
abbrev pub sha256_algorithm : ℕ
sha256_algorithm = 4

-- SignatureAlgorithm: Anonymous, RSA, DSA, ECDSA
abbrev pub rsa_algorithm : ℕ
rsa_algorithm = 1

abbrev pub ecdsa_algorithm : ℕ
ecdsa_algorithm = 3

-- The Go zero value of a hash array
abbrev pub zero_hash : Bytes
zero_hash = replicate 32 0

pub record PreCert : Type 0 where
  pub issuer_key_hash : Bytes
  pub tbs_certificate : Bytes

pub record DigitallySigned : Type 0 where
  pub hash_algorithm : ℕ
  pub signature_algorithm : ℕ
  pub signature : Bytes

pub record TimestampedEntry : Type 0 where
  pub timestamp : ℕ
  pub entry_type : ℕ
  pub x509_entry : Bytes
  pub precert_entry : PreCert
  pub extensions : Bytes

pub record MerkleTreeLeaf : Type 0 where
  pub version : ℕ
  pub leaf_type : ℕ
  pub timestamped_entry : TimestampedEntry

pub record LogEntry : Type 0 where
  pub index : ℤ
  pub leaf : MerkleTreeLeaf
  pub chain : List Bytes
  pub leaf_bytes : Bytes

pub record SignedTreeHead : Type 0 where
  pub version : ℕ
  pub tree_size : ℕ
  pub timestamp : ℕ
  pub sha256_root_hash : Bytes
  pub tree_head_signature : DigitallySigned
  pub log_id : Bytes

pub record SignedCertificateTimestamp : Type 0 where
  pub sct_version : ℕ
  pub log_id : Bytes
  pub timestamp : ℕ
  pub extensions : Bytes
  pub signature : DigitallySigned

pub data CtError : Type 0 where
  -- `io.EOF` and `io.ErrUnexpectedEOF`
  eof unexpected_eof : CtError
  insufficient_num_bytes num_len_bytes_too_large num_len_bytes_zero short_read : CtError
  unknown_entry_type unknown_version unknown_leaf_type : ℕ → CtError
  failed_hash_algorithm failed_signature_algorithm failed_signature_bytes : CtError
  zero_length_certificate certificate_too_large extensions_too_large : CtError
  invalid_tree_hash_length : CtError
  unsupported_hash_algorithm unsupported_signature_type : CtError
  wrong_key_type unmarshal_signature garbage_after_signature failed_to_verify : CtError
  unsupported_public_key : CtError
  -- The fuel of a loop of this model ran out. No Go error; no run ends with it.
  out_of_fuel : CtError
