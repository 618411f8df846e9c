-- ===== src/Ct/Leaf.antt =====
-- Merkle tree leaves. The input of an SCT signature has the bytes of the leaf that the log keeps
-- (both begin with two zero bytes), so reading a leaf takes back what was signed.
use certspotter.Prelude.{
  ℕ, ◌^◌, ◌<◌, ◌≡◌, [], ◌∷◌, ◌++◌, Bytes, ok, err, >>=-eq-ok, length, arith, append_assoc,
}
use certspotter.Ct.Types.{CtError, TimestampedEntry, MerkleTreeLeaf}
use certspotter.Ct.Write.{
  big_endian, write_var_bytes, check_certificate_format, check_extensions_format,
  serialize_v1_cert_sct_signature_input, serialize_v1_precert_sct_signature_input,
}
use certspotter.Ct.Read.{
  read_var_bytes, read_entry_body, read_timestamped_entry_into, read_merkle_tree_leaf, zero_entry,
  extensions_or_nil,
}
use certspotter.Ct.Codec.{read_full-append, read_big_endian-big_endian, read_big_endian_byte}
use certspotter.Ct.Var.{read_var_bytes-write_var_bytes, write_var_bytes-fits}

abbrev pub x509_timestamped : ℕ → Bytes → Bytes → TimestampedEntry
x509_timestamped timestamp cert ext = record zero_entry {
  timestamp = timestamp;
  x509_entry = cert;
  extensions = ext;
}

abbrev pub precert_timestamped : ℕ → Bytes → Bytes → Bytes → TimestampedEntry
precert_timestamped timestamp hash tbs ext = record zero_entry {
  timestamp = timestamp;
  entry_type = 1;
  precert_entry = record { issuer_key_hash = hash; tbs_certificate = tbs };
  extensions = ext;
}

abbrev pub leaf_of : TimestampedEntry → MerkleTreeLeaf
leaf_of t = record { version = 0; leaf_type = 0; timestamped_entry = t }

-- A leaf of an X.509 entry, up to its extensions: whatever stands there, the certificate is read.
leaf_x509 :
    (timestamp : ℕ) (cert cert_bytes tail : Bytes)
    → timestamp < 2 ^ 64
    → write_var_bytes cert 3 ≡ ok cert_bytes
    → read_merkle_tree_leaf
        (0 ∷ 0 ∷ (big_endian 8 timestamp ++ (big_endian 2 0 ++ (cert_bytes ++ tail))))
      ≡ ok (
        leaf_of (x509_timestamped timestamp cert (extensions_or_nil (read_var_bytes tail 2)).0),
        (extensions_or_nil (read_var_bytes tail 2)).1,
      )
unfolding read_merkle_tree_leaf read_timestamped_entry_into read_entry_body
leaf_x509 timestamp cert cert_bytes tail time w =
    let f : length cert < 256 ^ 3 = write_var_bytes-fits cert cert_bytes 3 w in
    rw (
      read_big_endian_byte,
      read_big_endian_byte 0 (big_endian 8 timestamp ++ (big_endian 2 0 ++ (cert_bytes ++ tail))),
      read_big_endian-big_endian 8 timestamp _ time,
      read_big_endian-big_endian 2 0 _ (omega arith),
      read_var_bytes-write_var_bytes cert tail cert_bytes 3 (omega arith) (omega arith)
          (omega arith) w,
    )

leaf_precert :
    (timestamp : ℕ) (hash tbs tbs_bytes tail : Bytes)
    → timestamp < 2 ^ 64
    → length hash ≡ 32
    → write_var_bytes tbs 3 ≡ ok tbs_bytes
    → read_merkle_tree_leaf
        (0 ∷ 0 ∷ (big_endian 8 timestamp ++ (big_endian 2 1 ++ (hash ++ (tbs_bytes ++ tail)))))
      ≡ ok (
        leaf_of
            (precert_timestamped timestamp hash tbs (extensions_or_nil (read_var_bytes tail 2)).0),
        (extensions_or_nil (read_var_bytes tail 2)).1,
      )
unfolding read_merkle_tree_leaf read_timestamped_entry_into read_entry_body
leaf_precert timestamp hash tbs tbs_bytes tail time len w =
    let f : length tbs < 256 ^ 3 = write_var_bytes-fits tbs tbs_bytes 3 w in
    rw (
      read_big_endian_byte,
      read_big_endian_byte 0
          (big_endian 8 timestamp ++ (big_endian 2 1 ++ (hash ++ (tbs_bytes ++ tail)))),
      read_big_endian-big_endian 8 timestamp _ time,
      read_big_endian-big_endian 2 1 _ (omega arith),
      read_full-append 32 hash _ len,
      read_var_bytes-write_var_bytes tbs tail tbs_bytes 3 (omega arith) (omega arith) (omega arith)
          w,
    )

cert_input-eq_ok :
    (timestamp : ℕ) (cert ext out : Bytes)
    → serialize_v1_cert_sct_signature_input timestamp cert ext ≡ ok out
    → (cert_bytes ext_bytes : Bytes) × (write_var_bytes cert 3 ≡ ok cert_bytes)
      × (write_var_bytes ext 2 ≡ ok ext_bytes)
      × (out ≡ 0 ∷ 0 ∷ (big_endian 8 timestamp ++ (big_endian 2 0 ++ (cert_bytes ++ ext_bytes))))
unfolding serialize_v1_cert_sct_signature_input
cert_input-eq_ok timestamp cert ext out w =
    let (_, c, w1) = >>=-eq-ok (check_certificate_format cert) _ w in
    let (_, d, w2) = >>=-eq-ok (check_extensions_format ext) _ w1 in
    let (cert_bytes, a, w3) = >>=-eq-ok (write_var_bytes cert 3) _ w2 in
    let (ext_bytes, b, w4) = >>=-eq-ok (write_var_bytes ext 2) _ w3 in
    (cert_bytes, ext_bytes, a, b, cc)

precert_input-eq_ok :
    (timestamp : ℕ) (hash tbs ext out : Bytes)
    → serialize_v1_precert_sct_signature_input timestamp hash tbs ext ≡ ok out
    → (tbs_bytes ext_bytes : Bytes) × (write_var_bytes tbs 3 ≡ ok tbs_bytes)
      × (write_var_bytes ext 2 ≡ ok ext_bytes)
      × (out
          ≡ 0
            ∷ 0
            ∷ (big_endian 8 timestamp ++ (big_endian 2 1 ++ (hash ++ (tbs_bytes ++ ext_bytes)))))
unfolding serialize_v1_precert_sct_signature_input
precert_input-eq_ok timestamp hash tbs ext out w =
    let (_, c, w1) = >>=-eq-ok (check_certificate_format tbs) _ w in
    let (_, d, w2) = >>=-eq-ok (check_extensions_format ext) _ w1 in
    let (tbs_bytes, a, w3) = >>=-eq-ok (write_var_bytes tbs 3) _ w2 in
    let (ext_bytes, b, w4) = >>=-eq-ok (write_var_bytes ext 2) _ w3 in
    (tbs_bytes, ext_bytes, a, b, cc)

extensions_back :
    (ext ext_bytes rest : Bytes)
    → write_var_bytes ext 2 ≡ ok ext_bytes
    → read_var_bytes (ext_bytes ++ rest) 2 ≡ ok (ext, rest)
extensions_back ext ext_bytes rest w =
    let f : length ext < 256 ^ 2 = write_var_bytes-fits ext ext_bytes 2 w in
    read_var_bytes-write_var_bytes ext rest ext_bytes 2 (omega arith) (omega arith) (omega arith) w

-- The input that `serialize_v1_cert_sct_signature_input` makes for a uint64 timestamp reads, as a
-- leaf, as the X.509 entry with the timestamp, the certificate and the extensions that were signed.
pub read_merkle_tree_leaf-cert_input :
    (timestamp : ℕ) (cert ext out rest : Bytes)
    → timestamp < 2 ^ 64
    → serialize_v1_cert_sct_signature_input timestamp cert ext ≡ ok out
    → read_merkle_tree_leaf (out ++ rest) ≡ ok (leaf_of (x509_timestamped timestamp cert ext), rest)
read_merkle_tree_leaf-cert_input timestamp cert ext out rest time w =
    let (cert_bytes, ext_bytes, a, b, e) = cert_input-eq_ok timestamp cert ext out w in
    rw (
      e,
      append_assoc (big_endian 8 timestamp),
      append_assoc (big_endian 2 0),
      append_assoc cert_bytes,
      leaf_x509 timestamp cert cert_bytes (ext_bytes ++ rest) time a,
      extensions_back ext ext_bytes rest b,
    )

-- The input that `serialize_v1_precert_sct_signature_input` makes for a uint64 timestamp and an issuer
-- key hash of 32 bytes reads, as a leaf, as the precertificate entry that was signed.
pub read_merkle_tree_leaf-precert_input :
    (timestamp : ℕ) (hash tbs ext out rest : Bytes)
    → timestamp < 2 ^ 64
    → length hash ≡ 32
    → serialize_v1_precert_sct_signature_input timestamp hash tbs ext ≡ ok out
    → read_merkle_tree_leaf (out ++ rest)
      ≡ ok (leaf_of (precert_timestamped timestamp hash tbs ext), rest)
read_merkle_tree_leaf-precert_input timestamp hash tbs ext out rest time len w =
    let (tbs_bytes, ext_bytes, a, b, e) = precert_input-eq_ok timestamp hash tbs ext out w in
    rw (
      e,
      append_assoc (big_endian 8 timestamp),
      append_assoc (big_endian 2 1),
      append_assoc hash,
      append_assoc tbs_bytes,
      leaf_precert timestamp hash tbs tbs_bytes (ext_bytes ++ rest) time len a,
      extensions_back ext ext_bytes rest b,
    )

-- A leaf of an X.509 entry whose extensions cannot be read, because their length or their bytes are
-- cut off, is accepted all the same, as an entry with no extensions.
pub read_merkle_tree_leaf_cut_extensions :
    (timestamp : ℕ) (cert cert_bytes tail : Bytes) (e : CtError)
    → timestamp < 2 ^ 64
    → write_var_bytes cert 3 ≡ ok cert_bytes
    → read_var_bytes tail 2 ≡ err e
    → (left : Bytes) × (read_merkle_tree_leaf
          (0 ∷ 0 ∷ (big_endian 8 timestamp ++ (big_endian 2 0 ++ (cert_bytes ++ tail))))
        ≡ ok (leaf_of (x509_timestamped timestamp cert []), left))
read_merkle_tree_leaf_cut_extensions timestamp cert cert_bytes tail e time w cut =
    ([], rw (leaf_x509 timestamp cert cert_bytes tail time w, cut))

-- Two signed inputs of X.509 entries with the same bytes have the same uint64 timestamp, the same
-- certificate and the same extensions.
pub cert_input_injective :
    (timestamp timestamp' : ℕ) (cert cert' ext ext' out : Bytes)
    → timestamp < 2 ^ 64
    → timestamp' < 2 ^ 64
    → serialize_v1_cert_sct_signature_input timestamp cert ext ≡ ok out
    → serialize_v1_cert_sct_signature_input timestamp' cert' ext' ≡ ok out
    → (timestamp ≡ timestamp') × (cert ≡ cert') × (ext ≡ ext')
cert_input_injective timestamp timestamp' cert cert' ext ext' out f f' w w' =
    let a = read_merkle_tree_leaf-cert_input timestamp cert ext out [] f w in
    let b = read_merkle_tree_leaf-cert_input timestamp' cert' ext' out [] f' w' in
    (cc (a, b), cc (a, b), cc (a, b))
