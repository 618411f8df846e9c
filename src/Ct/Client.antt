-- ===== src/Ct/Client.antt =====
-- ct/client/logclient.go: the checks on what a log answers. What `fetchAndParse` and `postAndParse`
-- give (the HTTP exchange and the JSON decoder) is an argument.
use certspotter.Prelude.{
  ℕ, ◌+◌, ◌-◌, ◌%◌, ◌^◌, ◌≤◌, ◌<◌, ◌≡◌, refl, sym, ap, subst, not, List, Bytes, Result, ok, err,
  panic, ◌>>=◌, ◌>>◌, >>=-eq-ok, ltb, ◌==◌, if◌then◌else◌, length, Option, none, some, arith,
}
use certspotter.Ct.Types.{
  CtError, DigitallySigned, SignedTreeHead, SignedCertificateTimestamp, zero_hash,
}
use certspotter.Ct.Read.{unmarshal_digitally_signed}
use certspotter.Ct.Signatures.{Crypto, SignatureVerifier, verify_sth_signature}

pub data ClientError : Type 0 where
  fetch_failed invalid_root_hash invalid_id empty_response extraneous_entries : ClientError
  unreadable_signature invalid_signature : CtError → ClientError

pub record GetSthResponse : Type 0 where
  pub tree_size : ℕ
  pub timestamp : ℕ
  pub sha256_root_hash : Bytes
  pub tree_head_signature : Bytes

pub record GetEntriesItem : Type 0 where
  pub leaf_input : Bytes
  pub extra_data : Bytes

pub record GetAuditProofResponse : Type 0 where
  pub leaf_index : ℕ
  pub audit_path : List Bytes

pub record AddChainResponse : Type 0 where
  pub sct_version : ℕ
  pub id : Bytes
  pub timestamp : ℕ
  pub extensions : Bytes
  pub signature : Bytes

abbrev pub or_error {ℓ} :
    {A : Type ℓ} → (CtError → ClientError) → Result CtError A → Result ClientError A
or_error f (ok a) = ok a
or_error f (err e) = err (f e)
or_error f panic = panic

-- The signature is read from the front of its bytes; what stands behind it is not looked at.
unfoldable pub read_signature : Bytes → Result ClientError DigitallySigned
read_signature b =
    or_error unreadable_signature (unmarshal_digitally_signed b) >>= λ (ds, rest). ok ds

abbrev pub sth_of : GetSthResponse → DigitallySigned → SignedTreeHead
sth_of resp ds = record {
  version = 0;
  tree_size = resp.tree_size;
  timestamp = resp.timestamp;
  sha256_root_hash = resp.sha256_root_hash;
  tree_head_signature = ds;
  log_id = zero_hash;
}

abbrev pub check_length : ℕ → ClientError → Result ClientError (Unit {0})
check_length n e = if not (n == 32) then err e else ok tt

module _ (crypto : Crypto) where
  abbrev pub check_sth :
      Option (SignatureVerifier crypto) → SignedTreeHead → Result ClientError (Unit {0})
  check_sth none sth = ok tt
  check_sth (some verifier) sth =
      or_error invalid_signature (verify_sth_signature crypto verifier sth)

  unfoldable pub get_sth :
      Option (SignatureVerifier crypto)
      → Result ClientError GetSthResponse
      → Result ClientError SignedTreeHead
  get_sth verifier fetched = do
    resp ← fetched
    check_length (length resp.sha256_root_hash) invalid_root_hash
    ds ← read_signature resp.tree_head_signature
    check_sth verifier (sth_of resp ds)
    ok (sth_of resp ds)

-- `end - start + 1` is computed on uint64.
unfoldable pub get_raw_entries :
    ℕ → ℕ → Result ClientError (List GetEntriesItem) → Result ClientError (List GetEntriesItem)
get_raw_entries start end fetched =
    if ltb end start
    then panic
    else fetched >>= λ entries.
        if length entries == 0
        then err empty_response
        else if ltb ((end - start + 1) % 2 ^ 64) (length entries)
        then err extraneous_entries
        else ok entries

unfoldable pub get_audit_proof :
    Result ClientError GetAuditProofResponse → Result ClientError (List Bytes × ℕ)
get_audit_proof fetched = fetched >>= λ resp. ok (resp.audit_path, resp.leaf_index)

unfoldable pub add_chain :
    Result ClientError AddChainResponse → Result ClientError SignedCertificateTimestamp
add_chain posted = do
  resp ← posted
  check_length (length resp.id) invalid_id
  ds ← read_signature resp.signature
  ok (record {
    sct_version = resp.sct_version;
    log_id = resp.id;
    timestamp = resp.timestamp;
    extensions = resp.extensions;
    signature = ds;
  })

-- When `get_raw_entries` returns entries, there is at least one, and there are no more than the
-- range [start, end] has.
pub get_raw_entries-bounds :
    (start end : ℕ) (fetched : Result ClientError (List GetEntriesItem))
    (entries : List GetEntriesItem)
    → get_raw_entries start end fetched ≡ ok entries
    → (fetched ≡ ok entries)
      × (start ≤ end)
      × (0 < length entries)
      × (length entries ≤ end - start + 1)
unfolding get_raw_entries
get_raw_entries-bounds start end (ok items) entries h = ground arith
get_raw_entries-bounds start end (err e) entries h = ground arith
get_raw_entries-bounds start end panic entries h = ground arith

or_error-eq_ok {ℓ} :
    {A : Type ℓ} (f : CtError → ClientError) (m : Result CtError A) {a : A}
    → or_error f m ≡ ok a
    → m ≡ ok a
or_error-eq_ok f (ok a) h = cc
or_error-eq_ok f (err e) h = cc
or_error-eq_ok f panic h = cc

check_length-eq_ok : (n : ℕ) (e : ClientError) → check_length n e ≡ ok tt → n ≡ 32
check_length-eq_ok n e h = ground arith

-- An STH that `get_sth` returns to a client with a verifier has the answer's size and timestamp, a
-- root hash of 32 bytes that is the answer's, and a signature that the verifier has accepted.
pub get_sth-verified :
    (crypto : Crypto) (verifier : SignatureVerifier crypto)
    (fetched : Result ClientError GetSthResponse) (sth : SignedTreeHead)
    → get_sth crypto (some verifier) fetched ≡ ok sth
    → (resp : GetSthResponse) × (fetched ≡ ok resp)
      × (sth.tree_size ≡ resp.tree_size)
      × (sth.timestamp ≡ resp.timestamp)
      × (sth.sha256_root_hash ≡ resp.sha256_root_hash)
      × (length resp.sha256_root_hash ≡ 32)
      × (verify_sth_signature crypto verifier sth ≡ ok tt)
unfolding get_sth
get_sth-verified crypto verifier (err e) sth h = cc
get_sth-verified crypto verifier panic sth h = cc
get_sth-verified crypto verifier (ok resp) sth h =
    let (_, len, h2) =
      >>=-eq-ok (check_length (length resp.sha256_root_hash) invalid_root_hash) _ h in
    let (ds, _, h3) = >>=-eq-ok (read_signature resp.tree_head_signature) _ h2 in
    let (u, checked, h4) = >>=-eq-ok (check_sth crypto (some verifier) (sth_of resp ds)) _ h3 in
    let e : sth_of resp ds ≡ sth = cc in
    (
      resp,
      refl,
      ap (λ s. s.tree_size) (sym e),
      ap (λ s. s.timestamp) (sym e),
      ap (λ s. s.sha256_root_hash) (sym e),
      check_length-eq_ok (length resp.sha256_root_hash) invalid_root_hash len,
      subst (λ s. verify_sth_signature crypto verifier s ≡ ok tt) e
          (or_error-eq_ok invalid_signature (verify_sth_signature crypto verifier (sth_of resp ds))
            checked),
    )
