-- ===== src/Ct/Tests.antt =====
-- The theorems on the serialization and the signatures at small inputs.
use certspotter.Prelude.{
  ℕ, pos, negsuc, ◌+ℤ◌, wrap_int64, ◌-◌, ◌^◌, ◌<◌, ◌≡◌, refl, Bool, true, false, Bool-cases, inl,
  inr, none, ◌==◌, if◌then◌else◌, [], ◌∷◌, ◌++◌, Bytes, Result, ok, err, some, length, arith,
}
use certspotter.Ct.Retry.{Exchange, answered, not_sent, do_and_parse}
use certspotter.Ct.Retry.Bounds.{IsShortAttempt, IsBounded, do_and_parse-IsBounded}
use certspotter.Ct.Types.{
  eof, DigitallySigned, SignedCertificateTimestamp, zero_hash, sha256_algorithm, LogEntry,
}
use certspotter.Ct.Write.{
  fill, write_uint, write_var_bytes, big_endian, marshal_digitally_signed, check_certificate_format,
  check_extensions_format, serialize_v1_cert_sct_signature_input,
  serialize_v1_precert_sct_signature_input, serialize_v1_sct_signature_input,
  serialize_sct_signature_input, serialize_v1_sct, serialize_sct, serialize_sth_signature_input,
  serialize_v1_sth_signature_input,
}
use certspotter.Ct.Read.{
  read_var_bytes, read_asn1_cert_list, read_merkle_tree_leaf, unmarshal_digitally_signed,
  deserialize_sct, read_uint, read_uint_loop, read_full, split_bytes, read_big_endian, be_value,
  read_timestamped_entry_into, read_entry_body, unmarshal_x509_chain_array, read_list_loop,
}
use certspotter.Ct.Scts.{deserialize_sct-serialize_sct}
use certspotter.Ct.List.{framed, framed_list, read_asn1_cert_list-framed}
use certspotter.Ct.Leaf.{
  x509_timestamped, precert_timestamped, leaf_of, read_merkle_tree_leaf-cert_input,
  read_merkle_tree_leaf-precert_input, read_merkle_tree_leaf_cut_extensions,
}
use certspotter.Ct.Client.{
  ClientError, GetEntriesItem, GetSthResponse, sth_of, read_signature, get_sth, get_sth-verified,
  get_raw_entries,
}
use certspotter.Ct.Entries.{
  AreEntries, get_entries, entries_from, entry_at, chain_of, get_entries-AreEntries,
}
use certspotter.Ct.Signatures.{
  Crypto, PublicKey, SignatureVerifier, verify_x509_sct, verify_sct_signature, verify_signature,
  verify_rsa, verify_sth_signature, Verifies, verify_x509_sct_sound,
}

abbrev two : Bytes
two = 5 ∷ 6 ∷ []

written : write_var_bytes two 2 ≡ ok (0 ∷ 2 ∷ two)
unfolding write_var_bytes write_uint fill
written = refl

abbrev signed_two : DigitallySigned
signed_two = record { hash_algorithm = 4; signature_algorithm = 1; signature = two }

marshalled : marshal_digitally_signed signed_two ≡ ok (4 ∷ 1 ∷ 0 ∷ 2 ∷ two)
unfolding marshal_digitally_signed write_var_bytes write_uint fill
marshalled = refl

abbrev small_sct : SignedCertificateTimestamp
small_sct = record {
  sct_version = 0;
  log_id = zero_hash;
  timestamp = 258;
  extensions = two;
  signature = signed_two;
}

abbrev small_sct_bytes : Bytes
small_sct_bytes =
    0 ∷ (zero_hash ++ (0 ∷ 0 ∷ 0 ∷ 0 ∷ 0 ∷ 0 ∷ 1 ∷ 2 ∷ 0 ∷ 2 ∷ 5 ∷ 6 ∷ 4 ∷ 1 ∷ 0 ∷ 2 ∷ 5 ∷ 6 ∷ []))

serialized : serialize_sct small_sct ≡ ok small_sct_bytes
unfolding serialize_sct serialize_v1_sct check_extensions_format marshal_digitally_signed
    write_var_bytes write_uint fill big_endian
serialized = refl

deserialize_sct-serialize_sct_example :
    deserialize_sct (small_sct_bytes ++ (9 ∷ [])) ≡ ok (small_sct, 9 ∷ [])
deserialize_sct-serialize_sct_example =
    deserialize_sct-serialize_sct small_sct small_sct_bytes (9 ∷ []) refl (omega arith) serialized

abbrev cert_input : Bytes
cert_input = 0 ∷ 0 ∷ 0 ∷ 0 ∷ 0 ∷ 0 ∷ 0 ∷ 0 ∷ 1 ∷ 2 ∷ 0 ∷ 0 ∷ 0 ∷ 0 ∷ 2 ∷ 5 ∷ 6 ∷ 0 ∷ 2 ∷ 5 ∷ 6 ∷ []

cert_input_made : serialize_v1_cert_sct_signature_input 258 two two ≡ ok cert_input
unfolding serialize_v1_cert_sct_signature_input check_certificate_format check_extensions_format
    write_var_bytes write_uint fill big_endian
cert_input_made = refl

read_merkle_tree_leaf-cert_input_example :
    read_merkle_tree_leaf (cert_input ++ []) ≡ ok (leaf_of (x509_timestamped 258 two two), [])
read_merkle_tree_leaf-cert_input_example =
    read_merkle_tree_leaf-cert_input 258 two two cert_input [] (omega arith) cert_input_made

abbrev precert_input : Bytes
precert_input =
    0
    ∷ 0
    ∷ 0
    ∷ 0
    ∷ 0
    ∷ 0
    ∷ 0
    ∷ 0
    ∷ 1
    ∷ 2
    ∷ 0
    ∷ 1
    ∷ (zero_hash ++ (0 ∷ 0 ∷ 2 ∷ 5 ∷ 6 ∷ 0 ∷ 2 ∷ 5 ∷ 6 ∷ []))

precert_input_made :
    serialize_v1_precert_sct_signature_input 258 zero_hash two two ≡ ok precert_input
unfolding serialize_v1_precert_sct_signature_input check_certificate_format check_extensions_format
    write_var_bytes write_uint fill big_endian
precert_input_made = refl

read_merkle_tree_leaf-precert_input_example :
    read_merkle_tree_leaf (precert_input ++ [])
    ≡ ok (leaf_of (precert_timestamped 258 zero_hash two two), [])
read_merkle_tree_leaf-precert_input_example =
    read_merkle_tree_leaf-precert_input 258 zero_hash two two precert_input [] (omega arith) refl
      precert_input_made

abbrev time : ℕ
time = 258

three_byte : write_var_bytes two 3 ≡ ok (0 ∷ 0 ∷ 2 ∷ two)
unfolding write_var_bytes write_uint fill
three_byte = refl

cut : read_var_bytes [] 2 ≡ err eof
unfolding read_var_bytes read_uint read_uint_loop
cut = refl

read_merkle_tree_leaf_cut_extensions_example :
    (left : Bytes) × (read_merkle_tree_leaf
        (0 ∷ 0 ∷ (big_endian 8 258 ++ (big_endian 2 0 ++ (0 ∷ 0 ∷ 2 ∷ 5 ∷ 6 ∷ []))))
      ≡ ok (leaf_of (x509_timestamped 258 two []), left))
read_merkle_tree_leaf_cut_extensions_example =
    read_merkle_tree_leaf_cut_extensions 258 two (0 ∷ 0 ∷ 2 ∷ two) [] eof (omega arith) three_byte
      cut

framed_fits : length (framed_list (two ∷ []) ++ (1 ∷ [])) < 256 ^ 3
unfolding big_endian fill
framed_fits = omega arith

read_asn1_cert_list-framed_example :
    read_asn1_cert_list (framed (framed_list (two ∷ []) ++ (1 ∷ [])) ++ []) 3 3 ≡ ok (two ∷ [], [])
read_asn1_cert_list-framed_example =
    read_asn1_cert_list-framed (two ∷ []) (1 ∷ []) [] (omega arith, tt) (omega arith) framed_fits

abbrev trusting : Crypto
trusting = record {
  RsaKey = Bool;
  EcdsaKey = Bool;
  sha256 = λ x. x;
  rsa_verify = λ key hash signature. key;
  unmarshal_ecdsa = λ b. some ((0, 0), b);
  ecdsa_verify = λ key hash sig. key;
}

abbrev rsa_verifier : SignatureVerifier trusting
rsa_verifier = record { pub_key = PublicKey.rsa true }

accepted : verify_x509_sct trusting small_sct two rsa_verifier ≡ ok tt
unfolding verify_x509_sct verify_sct_signature verify_signature verify_rsa
    serialize_sct_signature_input serialize_v1_sct_signature_input
    serialize_v1_cert_sct_signature_input check_certificate_format check_extensions_format
    write_var_bytes write_uint fill big_endian
accepted = refl

verify_x509_sct_sound_example :
    (signed : Bytes) × (4 ≡ sha256_algorithm)
    × Verifies trusting (PublicKey.rsa true) 1 signed two
    × (read_merkle_tree_leaf signed ≡ ok (leaf_of (x509_timestamped 258 two two), []))
verify_x509_sct_sound_example =
    verify_x509_sct_sound trusting small_sct two rsa_verifier (omega arith) accepted

abbrev fetched {ℓ} : {A : Type ℓ} → A → Result ClientError A
fetched a = ok a

abbrev item : GetEntriesItem
item = record { leaf_input = two; extra_data = [] }

one_item : get_raw_entries 3 4 (ok (item ∷ [])) ≡ ok (item ∷ [])
unfolding get_raw_entries
one_item = refl

abbrev answer : GetSthResponse
answer = record {
  tree_size = 1;
  timestamp = 258;
  sha256_root_hash = zero_hash;
  tree_head_signature = 4 ∷ 1 ∷ 0 ∷ 2 ∷ 5 ∷ 6 ∷ [];
}

got_sth : get_sth trusting (some rsa_verifier) (ok answer) ≡ ok (sth_of answer signed_two)
unfolding get_sth read_signature unmarshal_digitally_signed read_var_bytes read_uint read_uint_loop
    read_full split_bytes verify_sth_signature verify_signature verify_rsa
    serialize_sth_signature_input serialize_v1_sth_signature_input big_endian fill read_big_endian
    be_value
got_sth = refl

get_sth-verified_example :
    (resp : GetSthResponse) × (fetched answer ≡ ok resp)
    × ((sth_of answer signed_two).tree_size ≡ resp.tree_size)
    × ((sth_of answer signed_two).timestamp ≡ resp.timestamp)
    × ((sth_of answer signed_two).sha256_root_hash ≡ resp.sha256_root_hash)
    × (length resp.sha256_root_hash ≡ 32)
    × (verify_sth_signature trusting rsa_verifier (sth_of answer signed_two) ≡ ok tt)
get_sth-verified_example =
    get_sth-verified trusting rsa_verifier (fetched answer) (sth_of answer signed_two) got_sth

abbrev cert_item : GetEntriesItem
cert_item = record { leaf_input = cert_input; extra_data = 0 ∷ 0 ∷ 0 ∷ [] }

abbrev cert_entry : LogEntry
cert_entry = record {
  index = pos 3;
  leaf = leaf_of (x509_timestamped 258 two two);
  chain = [];
  leaf_bytes = cert_input;
}

got_entries : get_entries (pos 3) (pos 3) (ok (cert_item ∷ [])) ≡ ok (cert_entry ∷ [])
unfolding get_entries entries_from entry_at chain_of read_merkle_tree_leaf
    read_timestamped_entry_into read_entry_body unmarshal_x509_chain_array read_asn1_cert_list
    read_list_loop read_var_bytes read_uint read_uint_loop read_full split_bytes read_big_endian
    be_value wrap_int64
got_entries = refl

-- The position behind the last one of an int64
wrapped : wrap_int64 (pos (2 ^ 63 - 1) +ℤ pos 1) ≡ negsuc (2 ^ 63 - 1)
unfolding wrap_int64
wrapped = refl

get_entries-AreEntries_example :
    AreEntries (λ i. pos 3 +ℤ pos i) 0 (cert_item ∷ []) (cert_entry ∷ [])
get_entries-AreEntries_example =
    get_entries-AreEntries (pos 3) (pos 3) (cert_item ∷ []) (cert_entry ∷ [])
      (λ i below. omega arith) got_entries

-- Nothing can be sent but in the third try, which is answered by an empty body.
abbrev slow_log : Exchange
slow_log = record {
  is_done = λ n. false;
  attempt = λ n.
      if n == 2
      then answered (record { status_code = 200; retry_after = none; body = some [] })
      else not_sent;
  random = λ n. n;
  too_late = λ n delay. false;
}

slow_log-IsShortAttempt : (n : ℕ) → IsShortAttempt (slow_log.attempt n)
slow_log-IsShortAttempt n = elim (Bool-cases (n == 2)) [
  | inl third ↦ rw third tt
  | inr first ↦ rw first tt
]

do_and_parse-IsBounded_example :
    IsBounded slow_log {A = Bytes} (λ b. some b) 0 (do_and_parse slow_log (λ b. some b) 11 0)
do_and_parse-IsBounded_example =
    do_and_parse-IsBounded slow_log (λ b. some b) slow_log-IsShortAttempt 11 0 (omega arith)
      (omega arith)
