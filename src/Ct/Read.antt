-- ===== src/Ct/Read.antt =====
-- The reading half of ct/serialization.go. A reader is the bytes that it still has; a read returns
-- its value and the bytes that are left.
use certspotter.Prelude.{
  ℕ, zero, suc, ◌+◌, ◌*◌, ◌%◌, ◌^◌, Bool, true, false, List, [], ◌∷◌, ◌++◌, Bytes, Result, ok, err,
  panic, ◌>>=◌, ltb, ◌==◌, if◌then◌else◌, length, Option, none, some,
}
use certspotter.Ct.Types.{
  CtError, eof, unexpected_eof, num_len_bytes_too_large, num_len_bytes_zero, short_read,
  out_of_fuel, unknown_entry_type, unknown_version, unknown_leaf_type, failed_hash_algorithm,
  failed_signature_algorithm, failed_signature_bytes, TimestampedEntry, MerkleTreeLeaf,
  DigitallySigned, SignedCertificateTimestamp, v1, timestamped_entry_leaf_type, x509_log_entry_type,
  precert_log_entry_type, issuer_key_hash_length, zero_hash,
}
use certspotter.Ct.Write.{
  certificate_length_bytes, pre_certificate_length_bytes, extensions_length_bytes,
  certificate_chain_length_bytes, signature_length_bytes,
}

abbrev pub Read : Type 0 → Type 0
Read A = Result CtError (A × Bytes)

abbrev pub cons_front : ℕ → Option (Bytes × Bytes) → Option (Bytes × Bytes)
cons_front b none = none
cons_front b (some (front, back)) = some (b ∷ front, back)

unfoldable pub split_bytes : ℕ → Bytes → Option (Bytes × Bytes)
split_bytes zero r = some ([], r)
split_bytes (suc n) [] = none
split_bytes (suc n) (b ∷ r) = cons_front b (split_bytes n r)

abbrev pub none_left : Bytes → CtError
none_left [] = eof
none_left (b ∷ r) = unexpected_eof

-- `io.ReadFull` into `n` bytes
unfoldable pub read_full : ℕ → Bytes → Read Bytes
read_full n r = elim (split_bytes n r) [ none ↦ err (none_left r) | some p ↦ ok p ]

unfoldable pub be_value : ℕ → Bytes → ℕ
be_value l [] = l
be_value l (b ∷ bs) = be_value (l * 256 + b) bs

-- `binary.Read(_, binary.BigEndian, &value)` for an unsigned integer of `width` bytes
unfoldable pub read_big_endian : ℕ → Bytes → Read ℕ
read_big_endian width r = read_full width r >>= λ (bytes, rest). ok (be_value 0 bytes, rest)

-- The loop of `readUint`. The low byte of `l << 8` is 0, so `|` adds.
unfoldable pub read_uint_loop : ℕ → ℕ → Bytes → Read ℕ
read_uint_loop zero l r = ok (l, r)
read_uint_loop (suc n) l [] = err eof
read_uint_loop (suc n) l (t ∷ r) = read_uint_loop n (l * 256 % 2 ^ 64 + t) r

unfoldable pub read_uint : Bytes → ℕ → Read ℕ
read_uint r num_bytes = read_uint_loop num_bytes 0 r

-- The two errors that `io.ReadFull` has become a short read.
abbrev pub short : Option (Bytes × Bytes) → Read Bytes
short none = err short_read
short (some p) = ok p

unfoldable pub read_var_bytes : Bytes → ℕ → Read Bytes
read_var_bytes r num_len_bytes =
    if ltb 8 num_len_bytes
    then err num_len_bytes_too_large
    else if num_len_bytes == 0
    then err num_len_bytes_zero
    else (read_uint r num_len_bytes >>= λ (l, rest). short (split_bytes l rest))

abbrev pub is_eof : CtError → Bool
is_eof eof = true
is_eof _ = false

-- `for err == nil`: the loop ends without an error when a length prefix meets the end.
unfoldable pub read_list_loop : ℕ → Bytes → ℕ → List Bytes → Result CtError (List Bytes)
read_list_loop zero r element_len_bytes list = err out_of_fuel
read_list_loop (suc fuel) r element_len_bytes list = elim (read_var_bytes r element_len_bytes) [
  | ok (entry, rest) ↦ read_list_loop fuel rest element_len_bytes (list ++ (entry ∷ []))
  | err e ↦ if is_eof e then ok list else err e
  | panic ↦ panic
]

-- An entry takes a byte at least, so one round more than there are bytes is enough.
unfoldable pub read_asn1_cert_list : Bytes → ℕ → ℕ → Read (List Bytes)
read_asn1_cert_list r total_len_bytes element_len_bytes = do
  (list_bytes, rest) ← read_var_bytes r total_len_bytes
  list ← read_list_loop (suc (length list_bytes)) list_bytes element_len_bytes []
  ok (list, rest)

-- The error of the last read is not returned: `t.Extensions` is then nil, as it was.
abbrev pub extensions_or_nil : Read Bytes → Bytes × Bytes
extensions_or_nil (ok (ext, rest)) = (ext, rest)
extensions_or_nil (err e) = ([], [])
extensions_or_nil panic = ([], [])

unfoldable pub read_entry_body : Bytes → TimestampedEntry → Read TimestampedEntry
read_entry_body r t =
    if t.entry_type == x509_log_entry_type
    then (do
      (cert, rest) ← read_var_bytes r certificate_length_bytes
      ok (record t { x509_entry = cert }, rest))
    else if t.entry_type == precert_log_entry_type
    then (do
      (hash, rest) ← read_full issuer_key_hash_length r
      (tbs, rest') ← read_var_bytes rest pre_certificate_length_bytes
      ok (
        record t { precert_entry = record { issuer_key_hash = hash; tbs_certificate = tbs } },
        rest',
      ))
    else err (unknown_entry_type t.entry_type)

unfoldable pub read_timestamped_entry_into : Bytes → TimestampedEntry → Read TimestampedEntry
read_timestamped_entry_into r t = do
  (timestamp, r1) ← read_big_endian 8 r
  (entry_type, r2) ← read_big_endian 2 r1
  (t', r3) ← read_entry_body r2 (record t { timestamp = timestamp; entry_type = entry_type })
  let (ext, r4) = extensions_or_nil (read_var_bytes r3 extensions_length_bytes)
  ok (record t' { extensions = ext }, r4)

-- The Go zero value
abbrev pub zero_entry : TimestampedEntry
zero_entry = record {
  timestamp = 0;
  entry_type = 0;
  x509_entry = [];
  precert_entry = record { issuer_key_hash = zero_hash; tbs_certificate = [] };
  extensions = [];
}

unfoldable pub read_merkle_tree_leaf : Bytes → Read MerkleTreeLeaf
read_merkle_tree_leaf r = do
  (version, r1) ← read_big_endian 1 r
  (if version == v1
      then (do
        (leaf_type, r2) ← read_big_endian 1 r1
        (if leaf_type == timestamped_entry_leaf_type
            then (do
              (entry, r3) ← read_timestamped_entry_into r2 zero_entry
              ok (
                record { version = version; leaf_type = leaf_type; timestamped_entry = entry },
                r3,
              ))
            else err (unknown_leaf_type leaf_type)))
      else err (unknown_version version))

unfoldable pub unmarshal_x509_chain_array : Bytes → Result CtError (List Bytes)
unmarshal_x509_chain_array b = do
  (chain, rest) ← read_asn1_cert_list b certificate_chain_length_bytes certificate_length_bytes
  ok chain

unfoldable pub unmarshal_precert_chain_array : Bytes → Result CtError (List Bytes)
unmarshal_precert_chain_array b = do
  (precert, rest) ← read_var_bytes b certificate_length_bytes
  (remaining, rest') ←
      read_asn1_cert_list rest certificate_chain_length_bytes certificate_length_bytes
  ok (precert ∷ remaining)

-- An error is replaced by the one that names the field.
abbrev pub wrap {ℓ} : {A : Type ℓ} → CtError → Result CtError A → Result CtError A
wrap e (ok a) = ok a
wrap e (err _) = err e
wrap e panic = panic

unfoldable pub unmarshal_digitally_signed : Bytes → Read DigitallySigned
unmarshal_digitally_signed r = do
  (h, r1) ← wrap failed_hash_algorithm (read_big_endian 1 r)
  (s, r2) ← wrap failed_signature_algorithm (read_big_endian 1 r1)
  (sig, r3) ← wrap failed_signature_bytes (read_var_bytes r2 signature_length_bytes)
  ok (record { hash_algorithm = h; signature_algorithm = s; signature = sig }, r3)

unfoldable pub deserialize_sct_v1 :
    Bytes → SignedCertificateTimestamp → Read SignedCertificateTimestamp
deserialize_sct_v1 r sct = do
  (log_id, r1) ← read_full 32 r
  (timestamp, r2) ← read_big_endian 8 r1
  (ext, r3) ← read_var_bytes r2 extensions_length_bytes
  (ds, r4) ← unmarshal_digitally_signed r3
  ok (record sct { log_id = log_id; timestamp = timestamp; extensions = ext; signature = ds }, r4)

abbrev pub zero_sct : SignedCertificateTimestamp
zero_sct = record {
  sct_version = 0;
  log_id = zero_hash;
  timestamp = 0;
  extensions = [];
  signature = record { hash_algorithm = 0; signature_algorithm = 0; signature = [] };
}

unfoldable pub deserialize_sct : Bytes → Read SignedCertificateTimestamp
deserialize_sct r = do
  (version, r1) ← read_big_endian 1 r
  (if version == v1
      then deserialize_sct_v1 r1 (record zero_sct { sct_version = version })
      else err (unknown_version version))
